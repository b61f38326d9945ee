-- ===== src/Mmap.antt =====
-- The memory map of kernel/mem/memory.c: `struct mmap` is an array of 128 regions, here a function
-- from indices to region words, with an entry behind the array undefined to read. `map` is not NULL.
pub mod Moves
pub mod Splits
pub mod Ends
mod Tests
use tmos.Base.{
  ℕ, zero, suc, ◌+◌, ◌-◌, bit_and, Bool, true, false, ltb, leb, ◌==◌, not, if◌then◌else◌,
}
use tmos.Base.Bits.{bit_not}
use tmos.Base.Outcome.{Outcome, done, panic, undef, no_fuel, ◌>>=◌, ◌>>◌, assert}
use tmos.Base.Store.{Store, write}
use tmos.System.{paddr_algn_mask}
use tmos.Region.{region_start, region_type, region_new, region_set_start, region_set_type}

abbrev pub max_num_entries : ℕ
max_num_entries = 128

-- The inner loop of `_find_idx`, with `n` entries left in the array. Its test reads the outer index,
-- so the loop itself does not stop at the end of the array.
unfoldable pub find_start : ℕ → ℕ → Store → ℕ → Outcome ℕ
find_start zero start r j = undef
find_start (suc n) start r j =
    let rest = find_start n start r (j + 1) in
    if ltb start (region_start (r j)) then rest else done j

unfoldable pub find_end : ℕ → (start end : ℕ) → Store → ℕ → Outcome (ℕ × ℕ)
find_end zero start end r i = panic
find_end (suc n) start end r i =
    let rest = find_end n start end r (i + 1) in
    if ltb end (region_start (r i)) then rest else do j ← find_start (suc n) start r i; done (i, j)

unfoldable pub find_idx : (start end : ℕ) → Store → Outcome (ℕ × ℕ)
find_idx start end r = find_end max_num_entries start end r 0

-- `for (i = idx; REGION_START(map->r[i]); i++);` with `n` entries left.
unfoldable pub last_entry : ℕ → Store → ℕ → Outcome ℕ
last_entry zero r i = undef
last_entry (suc n) r i =
    let rest = last_entry n r (i + 1) in if region_start (r i) == 0 then done i else rest

-- `while (len--) { map->r[i - 1] = map->r[i - amt - 1]; i--; }`
unfoldable pub shift_right : ℕ → ℕ → ℕ → Store → Store
shift_right zero i amt r = r
shift_right (suc len) i amt r = shift_right len (i - 1) amt (write r (i - 1) (r (i - amt - 1)))

unfoldable pub move_right : (idx amt : ℕ) → Store → Outcome Store
move_right idx amt r = do
  i ← last_entry (max_num_entries - idx) r idx
  (if leb max_num_entries (i + amt) then panic else done tt)
  let len = i + 1 - idx
  done (shift_right len (idx + len + amt) amt r)

-- The loop of `_move_left`, a round for each entry that can still be read.
unfoldable pub shift_left : ℕ → ℕ → ℕ → Store → Outcome Store
shift_left zero idx amt r = undef
shift_left (suc n) idx amt r =
    let r' = write r idx (r (idx + amt)) in
    let rest = shift_left n (idx + 1) amt r' in
    if region_start (r' (idx + amt)) == 0 then done r' else rest

unfoldable pub move_left : (idx amt : ℕ) → Store → Outcome Store
move_left idx amt r = do assert (leb amt idx); shift_left (max_num_entries - (idx + amt)) idx amt r

abbrev pub page_addr : ℕ → Bool
page_addr a = bit_and a (bit_not 64 paddr_algn_mask) == 0

-- The part of `mmap_insert_region` behind its loop.
unfoldable pub insert_inside : (start end type endidx startidx : ℕ) → Bool → Store → Outcome Store
insert_inside start end type endidx startidx aligned r =
    if leb type (region_type (r endidx)) then done r else elim aligned [
      | true ↦
          if region_start (r startidx) == start
          then done (write r startidx (region_set_type (r startidx) type))
          else (move_right startidx 1 r >>= λ r1. done (write r1 startidx (region_new start type)))
      | false ↦
          if region_start (r startidx) == start
          then (move_right startidx 1 r >>= λ r1.
              let r2 = write r1 startidx (region_set_start (r1 startidx) end) in
              done (write r2 (startidx + 1) (region_new start type)))
          else (move_right startidx 2 r >>= λ r1.
              let r2 = write r1 (startidx + 1) (region_new start type) in
              done (write r2 startidx (region_set_start (r2 startidx) end)))
    ]

-- The loop of `mmap_insert_region` and what follows it, on fuel.
unfoldable pub insert_from : ℕ → (start end type endidx startidx : ℕ) → Bool → Store → Outcome Store
insert_from zero start end type endidx startidx aligned r = no_fuel
insert_from (suc fuel) start end type endidx startidx aligned r =
    let next = insert_from fuel start end type in
    if not (ltb endidx startidx)
    then insert_inside start end type endidx startidx aligned r
    else if leb type (region_type (r endidx))
    then next (endidx + 1) startidx true r
    else elim aligned [
      | true ↦
          if region_type (r (endidx + 1)) == type
          then (move_left (endidx + 1) 1 r >>= λ r1. next endidx (startidx - 1) true r1)
          else next (endidx + 1) startidx true (write r endidx (region_set_type (r endidx) type))
      | false ↦
          if not (region_type (r (endidx + 1)) == type)
          then (move_right endidx 1 r >>= λ r1.
              let r2 = write r1 (endidx + 1) (region_new (region_start (r1 endidx)) type) in
              let r3 = write r2 endidx (region_set_start (r2 endidx) end) in
              next (endidx + 3) (startidx + 1) true
                (write r3 (endidx + 2) (region_set_start (r3 (endidx + 2)) end)))
          else next (endidx + 1) startidx true (write r endidx (region_set_start (r endidx) end))
    ]

-- Each round of the loop brings the two indices closer.
unfoldable pub mmap_insert_region : (start end type : ℕ) → Store → Outcome Store
mmap_insert_region start end type r = if start == end then done r else do
  assert (page_addr start)
  assert (page_addr end)
  idx ← find_idx start end r
  insert_from (idx.1 - idx.0 + 1) start end type idx.0 idx.1 false r

unfoldable pub split_from : ℕ → ℕ → Store → ℕ → Outcome Store
split_from zero addr r i = panic
split_from (suc n) addr r i =
    let rest = split_from n addr r (i + 1) in
    if region_start (r i) == addr
    then done r
    else if ltb addr (region_start (r i))
    then rest
    else (move_right i 1 r >>= λ r1. done (write r1 i (region_set_start (r1 i) addr)))

unfoldable pub mmap_split_at : ℕ → Store → Outcome Store
mmap_split_at addr r = do
  assert (leb addr paddr_algn_mask)
  assert (page_addr addr)
  split_from max_num_entries addr r 0
