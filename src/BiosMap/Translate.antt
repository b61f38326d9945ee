-- ===== src/BiosMap/Translate.antt =====
-- `_translate` of bootloader/stage2/mem.c, with the regions of bootloader/stage2/include/mem.h. The
-- regions that are written behind the map are a function from indices to them. The fields of a region
-- are operands of 64 bits. What the log prints is left out.
pub mod Overlaps
mod Tests
use tmos.Base.{
  ◌*◌, ℕ, zero, suc, ◌+◌, ◌-◌, ◌^◌, bit_and, Bool, ◌&&◌, ◌||◌, not, ltb, leb, ◌==◌, if◌then◌else◌,
}
use tmos.Base.Outcome.{Outcome, done, panic, undef, ◌>>=◌}
use tmos.Base.Word.{u32, u64, shr, shl, low_bits}
use tmos.BiosMap.{BiosRegion, BiosMap, end_of, sort_map}

-- `union region`: the fields `start` and `type`.
pub record BootRegion : Type 0 where
  pub val_start : ℕ
  pub val_type : ℕ

-- `REGION_START`, which shifts a field of 44 bits in 44 bits, `REGION_SET_START` and `region_new`.
unfoldable pub start_of : BootRegion → ℕ
start_of r = low_bits (r.val_start * 2 ^ 12) 44

unfoldable pub set_start : BootRegion → ℕ → BootRegion
set_start r addr = record r { val_start = shr (bit_and addr 0x00ffffffffffffff) 12 }

unfoldable pub new_region : (start_addr type : ℕ) → BootRegion
new_region start_addr type = record {
  val_start = shr (bit_and start_addr 0x00ffffffffffffff) 12;
  val_type = bit_and type 3;
}

-- `PAGE_ALGN_UP` and `PAGE_ALGN_DWN`, with `!4095`, which is 0.
abbrev pub not_4095 : ℕ
not_4095 = if 4095 == 0 then 1 else 0

unfoldable pub page_algn_up : ℕ → ℕ
page_algn_up x = bit_and (u64 (x + 4095)) not_4095

unfoldable pub page_algn_dwn : ℕ → ℕ
page_algn_dwn x = bit_and x not_4095

-- `TYPE(m) - 1`.
unfoldable pub type_of : BiosRegion → ℕ
type_of m = (if (m.type == 0) || ltb 4 m.type then 2 else m.type) - 1

abbrev pub type_rsvd : ℕ
type_rsvd = 1

abbrev pub Regions : Type 0
Regions = ℕ → BootRegion

abbrev pub store : Regions → ℕ → BootRegion → Regions
store rs i r k = if k == i then r else rs k

-- `tmp_region`, `reglen` and `last_start`.
pub record Translation : Type 0 where
  pub regions : Regions
  pub reglen : ℕ
  pub last_start : ℕ

abbrev pub last_region : Translation → BootRegion
last_region t = t.regions (t.reglen - 1)

-- A region that is written behind the others, without a new `last_start`.
abbrev pub push : BootRegion → Translation → Translation
push r t = record t { regions = store t.regions t.reglen r; reglen = u32 (t.reglen + 1) }

abbrev pub put_last : BootRegion → Translation → Translation
put_last r t = record t { regions = store t.regions (t.reglen - 1) r }

-- The first branch of the loop: the gap above the entry.
unfoldable pub fill_gap : BiosRegion → Translation → Translation
fill_gap m t =
    if not (ltb (page_algn_up (end_of m)) t.last_start)
    then t
    else if ltb 0 t.reglen && (last_region t).val_type == type_rsvd
    then (let r = set_start (last_region t) (end_of m) in
        record (put_last r t) { last_start = start_of r })
    else (let r = new_region (end_of m) type_rsvd in record (push r t) { last_start = start_of r })

-- The second branch: an entry of the type of the region above it, which is extended.
unfoldable pub extend : BiosRegion → Translation → Translation
extend m t =
    if leb t.last_start m.base
    then t
    else (let r = set_start (last_region t) m.base in
        record (put_last r t) { last_start = start_of r })

-- The cases of an overlap with a region of type `type` that is split or cut.
unfoldable pub split_last : (type : ℕ) → BiosRegion → (last_end : ℕ) → Translation → Translation
split_last type m last_end t =
    let entry = new_region m.base (type_of m) in
    let upper = new_region (start_of (last_region t)) type in
    if leb m.base t.last_start
    then (if end_of m == last_end
        then put_last entry t
        else push entry (put_last (set_start (last_region t) (end_of m)) t))
    else if end_of m == last_end
    then push upper (put_last entry t)
    else (let n = t.reglen + 1 in
        let r1 = store t.regions n upper in
        let r2 = store r1 (n - 1) entry in
        let r3 = store r2 (n - 2) (set_start (r2 (n - 2)) (end_of m)) in
        record t { regions = r3; reglen = u32 (n + 1) })

unfoldable pub push_below : BiosRegion → Translation → Translation
push_below m t = if ltb m.base t.last_start then push (new_region m.base (type_of m)) t else t

-- The third branch: an overlap with the region above.
unfoldable pub overlap : BiosRegion → Translation → Outcome Translation
overlap m t =
    let last_end = if ltb 1 t.reglen then start_of (t.regions (t.reglen - 2)) else 2 ^ 56 in
    let type = (last_region t).val_type in
    if t.reglen == 0
    then panic
    else if type == 0
    then done (split_last 0 m last_end t)
    else if type == 1
    then done (push_below m t)
    else if type == 2
    then done (if type_of m == 0 then push_below m t else split_last 2 m last_end t)
    else done (if not (type_of m == 1) then push_below m t else split_last 3 m last_end t)

-- The end of a round: the entry as a new region.
unfoldable pub append : BiosRegion → Translation → Translation
append m t = let r = new_region m.base (type_of m) in record (push r t) { last_start = start_of r }

-- One round of the loop.
unfoldable pub translate_entry : BiosRegion → Translation → Outcome Translation
translate_entry m t =
    let u = fill_gap m t in
    if ltb 0 u.reglen && (last_region u).val_type == type_of m
    then done (extend m u)
    else if ltb u.last_start (page_algn_dwn (end_of m))
    then overlap m u
    else done (append m u)

-- The loop, with the rounds left.
unfoldable pub translate_from : ℕ → (i : ℕ) → BiosMap → Translation → Outcome Translation
translate_from zero i mmap t = done t
translate_from (suc n) i mmap t = translate_entry (mmap i) t >>= translate_from n (i + 1) mmap

-- The regions and their number. `regions` is not NULL, and it is not written through.
unfoldable pub translate : (len : ℕ) → BiosMap → Regions → Outcome Translation
translate len mmap tmp =
    let begin : Translation = record { regions = tmp; reglen = 0; last_start = 2 ^ 56 } in
    if len == 0 then done begin else translate_from len 0 mmap begin

-- `mem_load_regions`: the map is sorted, and then translated.
unfoldable pub mem_load_regions : (bios_mmap_len : ℕ) → BiosMap → Regions → Outcome Translation
mem_load_regions len mmap tmp = sort_map len mmap >>= λ sorted. translate len sorted tmp
