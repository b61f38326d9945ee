-- ===== src/Mmap/Splits.antt =====
-- `mmap_split_at` against what the map says of an address: the type of the first entry, in the order
-- of the array, that starts at or below it.
use tmos.Base.{
  ℕ, zero, suc, ◌+◌, ◌-◌, ◌*◌, ◌/◌, ◌%◌, ◌^◌, ◌≤◌, ◌<◌, bit_and, ◌≡◌, ◌≢◌, refl, ap, ◌∙◌, Bool,
  true, false, ◌&&◌, arith, ltb, leb, ◌==◌, if◌then◌else◌, Bool-cases, inl, inr,
}
use native.Mathlib.Decide.{ℕ_discrete}
use tmos.Base.Bits.{bit_not, bit_and_cleared}
use tmos.Base.Outcome.{done}
use tmos.Base.Store.{Store, write, write_self}
use tmos.System.{paddr_algn_mask}
use tmos.Region.{region_start, region_type, region_set_start}
use tmos.Region.Fields.{region_start-eq, region_fields, algn_mask-eq}
use tmos.Mmap.{split_from, mmap_split_at}
use tmos.Mmap.Moves.{EndsAt, move_right-eq}

-- The type of address `a` by the entries from `i` on, `n` at most.
abbrev pub type_at : ℕ → Store → ℕ → ℕ → ℕ
type_at zero r i a = 0
type_at (suc n) r i a =
    if leb (region_start (r i)) a then region_type (r i) else type_at n r (i + 1) a

pub EndsAt-next : (r : Store) (i last : ℕ) → EndsAt r i last → i ≢ last → EndsAt r (i + 1) last
EndsAt-next r i last v ne = record {
  behind = omega (arith, v);
  inside = v.inside;
  end = v.end;
  before = λ k lo up. v.before k (omega arith) up;
}

-- Entries that were moved by one place say the same.
type_at-moved :
    (n m i last : ℕ) (r t : Store) (a : ℕ)
    → EndsAt r i last
    → last < n + i
    → last < m + i
    → ((k : ℕ) → i ≤ k → k ≤ last → t (k + 1) ≡ r k)
    → type_at n t (i + 1) a ≡ type_at m r i a
type_at-moved zero m i last r t a v hn hm moved = absurd (omega (arith, v))
type_at-moved (suc n) zero i last r t a v hn hm moved = absurd (omega (arith, v))
type_at-moved (suc n) (suc m) i last r t a v hn hm moved = elim (ℕ_discrete i last) [
  | yes here ↦ ground (arith, v.end, ap (λ k. region_start (r k)) here, same)
  | no after ↦ ground (
    arith,
    same,
    type_at-moved n m (i + 1) last r t a (EndsAt-next r i last v after) (omega arith) (omega arith)
        (λ k lo up. moved k (omega arith) up),
  )
]
  where
    same : t (i + 1) ≡ r i
    same = moved i (omega arith) (omega (arith, v))

-- What a split of the entries from `i` on leaves.
pub record Split (n i addr : ℕ) (r t : Store) : Type 0 where
  pub frame : (k : ℕ) → k < i → t k ≡ r k
  pub types : (a : ℕ) → type_at n t i a ≡ type_at n r i a
  pub index : ℕ
  pub boundary : region_start (t index) ≡ addr

-- The entry at `i` becomes two.
Split-here :
    (n i addr last : ℕ) (r r1 : Store)
    → EndsAt r i last
    → last + 1 < suc n + i
    → region_start addr ≡ addr
    → region_start (r i) < addr
    → ((q : ℕ) → r1 q ≡ (if leb (i + 1) q && leb q (last + 1) then r (q - 1) else r q))
    → Split (suc n) i addr r (write r1 i (region_set_start (r1 i) addr))
Split-here n i addr last r r1 v h whole below moved = record {
  frame = λ k lt. other k (omega arith) ∙ ground (arith, moved k);
  types = λ a. ground (
    arith,
    head,
    fields,
    type_at-moved n (suc n) i last r t a v (omega arith) (omega arith) behind,
  );
  index = i;
  boundary = ap region_start head ∙ fields.0;
}
  where
    t : Store
    t = write r1 i (region_set_start (r1 i) addr)

    other : (k : ℕ) → k ≢ i → t k ≡ r1 k
    other k ne = tmos.Base.Store.write_ne r1 i (region_set_start (r1 i) addr) k ne

    head : t i ≡ region_set_start (r i) addr
    head =
        write_self r1 i (region_set_start (r1 i) addr)
        ∙ ap (λ x. region_set_start x addr) (ground (arith, moved i))

    fields :
        (region_start (region_set_start (r i) addr) ≡ addr)
        × (region_type (region_set_start (r i) addr) ≡ region_type (r i))
    fields = let f = region_fields (r i) addr 0 in (f.2 ∙ whole, f.3)

    behind : (k : ℕ) → i ≤ k → k ≤ last → t (k + 1) ≡ r k
    behind k lo up =
        other (k + 1) (omega arith)
        ∙ ground (arith, moved (k + 1), (let e : k + 1 - 1 ≡ k = omega arith in ap r e))

split_from-Split :
    (n i addr last : ℕ) (r : Store)
    → EndsAt r i last
    → last + 1 < 128
    → n + i ≡ 128
    → region_start addr ≡ addr
    → (t : Store) × (split_from n addr r i ≡ done t) × Split n i addr r t
unfolding split_from
split_from-Split zero i addr last r v room e whole = absurd (omega (arith, v))
split_from-Split (suc n) i addr last r v room e whole =
    elim (Bool-cases (region_start (r i) == addr)) [
      | inl same ↦ (
        r,
        rw same refl,
        record { frame = λ k h. refl; types = λ a. refl; index = i; boundary = ground arith },
      )
      | inr differ ↦ elim (Bool-cases (ltb addr (region_start (r i)))) [
        | inl above ↦
            let (t, returns, s) =
              split_from-Split n (i + 1) addr last r (EndsAt-next r i last v (not_last above)) room
                (omega arith) whole in
            (
              t,
              rw (differ, above) returns,
              record {
                frame = λ k h. s.frame k (omega arith);
                types = λ a. ground (arith, s.types a, s.frame i (omega arith));
                index = s.index;
                boundary = s.boundary;
              },
            )
        | inr below ↦
            let (r1, returns, moved) = move_right-eq i 1 last r v room in
            (
              write r1 i (region_set_start (r1 i) addr),
              rw (differ, below, returns) refl,
              Split-here n i addr last r r1 v (omega arith) whole (ground arith) moved,
            )
      ]
    ]
  where
    not_last : ltb addr (region_start (r i)) ≡ true → i ≢ last
    not_last above here = ground (arith, v.end, ap (λ k. region_start (r k)) here)

-- With room for an entry more, `mmap_split_at` at a page below 2 ^ 56 returns. Some entry then starts
-- at that page, and the map gives every address the type that it gave before.
pub mmap_split_at-Split :
    (addr last : ℕ) (r : Store)
    → EndsAt r 0 last
    → last + 1 < 128
    → addr < 2 ^ 56
    → addr % 4096 ≡ 0
    → (t : Store) × (mmap_split_at addr r ≡ done t) × Split 128 0 addr r t
unfolding mmap_split_at
mmap_split_at-Split addr last r v room small page =
    let (t, returns, s) = split_from-Split 128 0 addr last r v room refl whole in
    (t, ground (arith, clear, returns), s)
  where
    whole : region_start addr ≡ addr
    whole = region_start-eq addr ∙ omega arith

    clear : bit_and addr (bit_not 64 paddr_algn_mask) ≡ 0
    clear =
        bit_and_cleared 64 addr paddr_algn_mask (omega arith) (omega arith)
          (algn_mask-eq addr ∙ omega arith)
