-- ===== src/Gdt/Descriptors.antt =====
-- What the processor reads from the descriptors.
use native.Mathlib.Decide.{ℕ_discrete}
use tmos.Base.{
  ℕ, zero, suc, ◌+◌, ◌-◌, ◌*◌, ◌/◌, ◌%◌, ◌^◌, ◌≤◌, ◌<◌, ◌≡◌, refl, ap, sym, ◌∙◌, bit_or, arith,
  true, ltb, lt→ltb,
}
use tmos.Base.Bits.{bit_and_mask, bit_or_fields, bit_or_comm}
use tmos.Base.Outcome.{Outcome, done}
use tmos.Base.Store.{Store, write}
use tmos.Base.Word.{u16, u64, shl}
use tmos.Gdt.{
  Gdt, tss_low, tss_high, krnl_code_segment, krnl_data_segment, user_code_segment,
  user_data_segment, gdt_add_seg, gdt_add_tss, tss_get_n, add_all_tss, gdt_init,
}

-- The address, the limit and the type and access byte of a descriptor of two words.
abbrev pub desc_base : (low high : ℕ) → ℕ
desc_base low high = low / 2 ^ 16 % 2 ^ 24 + low / 2 ^ 56 % 2 ^ 8 * 2 ^ 24 + high % 2 ^ 32 * 2 ^ 32

abbrev pub desc_limit : ℕ → ℕ
desc_limit low = low % 2 ^ 16

abbrev pub desc_access : ℕ → ℕ
desc_access low = low / 2 ^ 40 % 2 ^ 8

-- The fields of the low word side by side.
tss_low-eq :
    (tss : ℕ)
    → tss_low tss ≡ tss / 2 ^ 24 % 2 ^ 8 * 2 ^ 56 + (0x89 * 2 ^ 40 + (tss % 2 ^ 24 * 2 ^ 16 + 104))
tss_low-eq tss =
    let base = tss % 2 ^ 24 in
    let top = tss / 2 ^ 24 % 2 ^ 8 in
    let (b, t) : (shl base 16 ≡ base * 2 ^ 16) × (shl top 56 ≡ top * 2 ^ 56) =
      (omega arith, omega arith) in
    let first : bit_or 104 (base * 2 ^ 16) ≡ base * 2 ^ 16 + 104 =
      bit_or_comm 104 (base * 2 ^ 16) ∙ bit_or_fields 16 base 104 (omega arith) in
    let x = base * 2 ^ 16 + 104 in
    let second : bit_or x (0x89 * 2 ^ 40) ≡ 0x89 * 2 ^ 40 + x =
      bit_or_comm x (0x89 * 2 ^ 40) ∙ bit_or_fields 40 0x89 x (omega arith) in
    let y = 0x89 * 2 ^ 40 + x in
    let third : bit_or y (top * 2 ^ 56) ≡ top * 2 ^ 56 + y =
      bit_or_comm y (top * 2 ^ 56) ∙ bit_or_fields 56 top y (omega arith) in
    rw (bit_and_mask 24 tss, bit_and_mask 8 (tss / 2 ^ 24), b, t, first, second, third) refl

-- A descriptor of a task state segment says where it is.
tss-fields :
    (tss : ℕ)
    → tss < 2 ^ 64
    → (desc_base (tss_low tss) (tss_high tss) ≡ tss)
      × (desc_limit (tss_low tss) ≡ 104)
      × (desc_access (tss_low tss) ≡ 0x89)
tss-fields tss small =
    let low = tss_low-eq tss in
    let high = bit_and_mask 32 (tss / 2 ^ 32) in
    rw (low, high) (omega arith, omega arith, omega arith)

-- The descriptors from that of segment `i` on are those of the task state segments, and the entries in
-- front of them are as before.
pub record Filled (tss_count tss_buf i : ℕ) (g t : Gdt) : Type 0 where
  pub next : t.next ≡ 5 + 2 * tss_count
  pub low : (j : ℕ) → i ≤ j → j < tss_count → t.buf (5 + 2 * j) ≡ tss_low (tss_buf + 128 * j)
  pub high : (j : ℕ) → i ≤ j → j < tss_count → t.buf (6 + 2 * j) ≡ tss_high (tss_buf + 128 * j)
  pub kept : (k : ℕ) → k < 5 + 2 * i → t.buf k ≡ g.buf k

module _ (tss_count tss_buf : ℕ) (few : tss_count ≤ 4093)
    (fits : tss_buf + 128 * tss_count < 2 ^ 64) where
  -- One round of the loop.
  add_one_tss :
      (n i : ℕ) (g : Gdt)
      → i < tss_count
      → g.next ≡ 5 + 2 * i
      → (u : Gdt) × (add_all_tss tss_count tss_buf (suc n) i g
          ≡ add_all_tss tss_count tss_buf n (i + 1) u)
        × (u.next ≡ 5 + 2 * (i + 1))
        × (u.buf (5 + 2 * i) ≡ tss_low (tss_buf + 128 * i))
        × (u.buf (6 + 2 * i) ≡ tss_high (tss_buf + 128 * i))
        × ((k : ℕ) → k < 5 + 2 * i → u.buf k ≡ g.buf k)
  unfolding add_all_tss tss_get_n gdt_add_tss write
  add_one_tss n i g inside at =
      let a = tss_buf + 128 * i in
      let u : Gdt = record g {
        buf = write (write g.buf g.next (tss_low a)) (g.next + 1) (tss_high a);
        next = u64 (g.next + 2);
        tss = write g.tss (a + 102) 104;
      } in
      let address : u64 (tss_buf + i * 128) ≡ a = omega arith in
      let room : ltb (g.next + 1) (5 + 2 * tss_count) ≡ true = ground arith in
      (
        u,
        rw (lt→ltb i tss_count inside, address, room) refl,
        omega arith,
        ground arith,
        ground arith,
        λ k h. ground arith,
      )

  add_all_tss-Filled :
      (n i : ℕ) (g : Gdt)
      → n + i ≡ tss_count
      → g.next ≡ 5 + 2 * i
      → (t : Gdt) × (add_all_tss tss_count tss_buf n i g ≡ done t) × Filled tss_count tss_buf i g t
  unfolding add_all_tss
  add_all_tss-Filled zero i g count at = (
    g,
    refl,
    record {
      next = omega arith;
      low = λ j lo up. absurd (omega arith);
      high = λ j lo up. absurd (omega arith);
      kept = λ k h. refl;
    },
  )
  add_all_tss-Filled (suc n) i g count at =
      let (u, runs, next, low, high, kept) = add_one_tss n i g (omega arith) at in
      let (t, rest, f) = add_all_tss-Filled n (i + 1) u (omega arith) next in
      (
        t,
        runs ∙ rest,
        record {
          next = f.next;
          low = λ j lo up. elim (ℕ_discrete i j) [
            | yes here ↦
                ap (λ q. t.buf (5 + 2 * q)) (sym here)
                ∙ f.kept (5 + 2 * i) (omega arith)
                ∙ low
                ∙ ap (λ q. tss_low (tss_buf + 128 * q)) here
            | no later ↦ f.low j (omega arith) up
          ];
          high = λ j lo up. elim (ℕ_discrete i j) [
            | yes here ↦
                ap (λ q. t.buf (6 + 2 * q)) (sym here)
                ∙ f.kept (6 + 2 * i) (omega arith)
                ∙ high
                ∙ ap (λ q. tss_high (tss_buf + 128 * q)) here
            | no later ↦ f.high j (omega arith) up
          ];
          kept = λ k h. f.kept k (omega arith) ∙ kept k h;
        },
      )

  -- With at most 4093 task state segments, inside the address space, `gdt_init` returns, without a
  -- write behind the buffer: the limit covers all of it, the selectors for CS and DS are those of the
  -- kernel's code and data segment, which are at their places, and the two words for each task state
  -- segment say its address, its limit and that it is a present, available one.
  pub gdt_init-Filled :
      (g : Gdt) (j : ℕ)
      → j < tss_count
      → (t : Gdt) × (gdt_init tss_count tss_buf g ≡ done (t, 8, 16))
        × (t.limit ≡ 8 * (5 + 2 * tss_count) - 1)
        × (t.buf 1 ≡ krnl_code_segment)
        × (t.buf 2 ≡ krnl_data_segment)
        × (desc_base (t.buf (5 + 2 * j)) (t.buf (6 + 2 * j)) ≡ tss_buf + 128 * j)
        × (desc_limit (t.buf (5 + 2 * j)) ≡ 104)
        × (desc_access (t.buf (5 + 2 * j)) ≡ 0x89)
  unfolding gdt_init gdt_add_seg write
  gdt_init-Filled g j inside =
      let segments : Store =
        write
          (write (write (write g.buf 1 krnl_code_segment) 2 krnl_data_segment) 3 user_code_segment)
          4 user_data_segment in
      let (t, runs, f) =
        add_all_tss-Filled tss_count 0 (record g { buf = segments; next = 5 }) (omega arith) refl in
      let (base, len, access) = tss-fields (tss_buf + 128 * j) (omega arith) in
      let room : (k : ℕ) → k < 5 → ltb k (5 + 2 * tss_count) ≡ true = λ k h. ground arith in
      let limit : u16 (u64 (t.next * 2 ^ 3) + (2 ^ 64 - 1)) ≡ 8 * (5 + 2 * tss_count) - 1 =
        omega (arith, f.next) in
      (
        record t { limit = 8 * (5 + 2 * tss_count) - 1 },
        rw
            (
              room 1 (omega arith),
              room 2 (omega arith),
              room 3 (omega arith),
              room 4 (omega arith),
              runs,
            )
            (ap {B = Outcome (Gdt × ℕ × ℕ)} (λ l. done (record t { limit = l }, 8, 16)) limit),
        refl,
        f.kept 1 (omega arith),
        f.kept 2 (omega arith),
        rw (f.low j (omega arith) inside, f.high j (omega arith) inside) base,
        rw (f.low j (omega arith) inside) len,
        rw (f.low j (omega arith) inside) access,
      )
