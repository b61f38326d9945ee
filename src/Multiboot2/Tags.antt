-- ===== src/Multiboot2/Tags.antt =====
-- `mb2_table_load` and `mb2_get_tag` on a table that is written as the format says.
use tmos.Base.{
  ℕ, zero, suc, ◌+◌, ◌-◌, ◌*◌, ◌/◌, ◌%◌, ◌^◌, ◌<◌, ◌≡◌, ◌≢◌, refl, ap, ◌∙◌, List, [], ◌∷◌, ◌++◌,
  arith, length, length-append,
}
use tmos.Base.Bits.{bit_and_high}
use tmos.Base.Bytes.{load32, bytes32, Holds, Holds-append, load32-Holds}
use tmos.Base.Int.{pos}
use tmos.Base.Outcome.{done}
use tmos.Base.Store.{Store}
use tmos.Base.Word.{u32, u64}
use tmos.Multiboot2.{tag_type, tag_size, mb2_table_load, next_tag, get_tag_from, mb2_get_tag}
use tmos.Multiboot2.Format.{
  Tag, zeros, padding, tag_header, tag_bytes, tags_bytes, table_bytes, IsTag, AreTags, find_tag,
}

length-zeros : (n : ℕ) → length (zeros n) ≡ n
length-zeros zero = refl
length-zeros (suc n) = ap suc (length-zeros n)

-- A tag takes its size, rounded up to 8.
length-tag_bytes : (t : Tag) → length (tag_bytes t) ≡ (8 + length t.body + 7) / 8 * 8
length-tag_bytes t =
    omega (arith, length-append t.body (padding t), length-zeros ((8 - length t.body % 8) % 8))

-- Two words that stand one behind the other.
pub load32_pair :
    (m : Store) (a x y : ℕ)
    → x < 2 ^ 32
    → y < 2 ^ 32
    → Holds m a (bytes32 x ++ bytes32 y)
    → (load32 m a ≡ x) × (load32 m (a + 4) ≡ y)
load32_pair m a x y hx hy h =
    let (first, second) = Holds-append m a (bytes32 x) (bytes32 y) h in
    (load32-Holds m a x hx first, load32-Holds m (a + 4) y hy second)

-- The fields of the first of some tags, and where the others stand.
pub tag-Holds :
    (m : Store) (a : ℕ) (t : Tag) (ts : List Tag)
    → IsTag t
    → Holds m a (tags_bytes (t ∷ ts))
    → (tag_type m a ≡ t.type)
      × (tag_size m a ≡ 8 + length t.body)
      × Holds m (a + length (tag_bytes t)) (tags_bytes ts)
tag-Holds m a t ts v h =
    let (here, behind) = Holds-append m a (tag_bytes t) (tags_bytes ts) h in
    let header = (Holds-append m a (tag_header t) (t.body ++ padding t) here).0 in
    let (type, size) = load32_pair m a t.type (8 + length t.body) v.1 (omega (arith, v)) header in
    (type, size, behind)

next_tag-eq :
    (m : Store) (a : ℕ) (t : Tag)
    → tag_size m a ≡ 8 + length t.body
    → length t.body + 15 < 2 ^ 32
    → a + length (tag_bytes t) < 2 ^ 64
    → next_tag m a ≡ a + length (tag_bytes t)
unfolding next_tag
next_tag-eq m a t size small fits =
    let sum : u32 (8 + length t.body + 7) ≡ 8 + length t.body + 7 = omega arith in
    let len = length-tag_bytes t in
    rw (size, sum, bit_and_high 32 3 (8 + length t.body + 7) (omega arith) (omega arith))
      (omega (arith, len))

get_tag_from-tags_bytes :
    (fuel type : ℕ) (m : Store) (a : ℕ) (ts : List Tag)
    → AreTags ts
    → Holds m a (tags_bytes ts)
    → a ≢ 0
    → a + length (tags_bytes ts) < 2 ^ 64
    → length ts < fuel
    → get_tag_from fuel type m a ≡ done (find_tag type a ts)
unfolding get_tag_from
get_tag_from-tags_bytes zero type m a ts v h nonzero fits enough = absurd (omega arith)
get_tag_from-tags_bytes (suc fuel) type m a [] v h nonzero fits enough =
    let (end, _) = load32_pair m a 0 8 (omega arith) (omega arith) h in ground (arith, end)
get_tag_from-tags_bytes (suc fuel) type m a (t ∷ ts) v h nonzero fits enough =
    let (is, size, rest) = tag-Holds m a t ts v.0 h in
    let total = length-append (tag_bytes t) (tags_bytes ts) in
    let next = next_tag-eq m a t size (omega (arith, v.0)) (omega (arith, total)) in
    let later : get_tag_from fuel type m (next_tag m a)
        ≡ done (find_tag type (a + length (tag_bytes t)) ts) =
      ap (get_tag_from fuel type m) next
      ∙ get_tag_from-tags_bytes fuel type m (a + length (tag_bytes t)) ts v.1 rest (omega arith)
          (omega (arith, total)) (omega arith) in
    ground (arith, is, v.0.0, nonzero, later)

-- The words in front of the tags.
pub table-Holds :
    (m : Store) (a : ℕ) (ts : List Tag)
    → 8 + length (tags_bytes ts) < 2 ^ 32
    → Holds m a (table_bytes ts)
    → (load32 m a ≡ 8 + length (tags_bytes ts))
      × (load32 m (a + 4) ≡ 0)
      × Holds m (a + 8) (tags_bytes ts)
table-Holds m a ts small h =
    let n = 8 + length (tags_bytes ts) in
    let (header, tags) = Holds-append m a (bytes32 n ++ bytes32 0) (tags_bytes ts) h in
    let (size, rsvd) = load32_pair m a n 0 small (omega arith) header in (size, rsvd, tags)

-- The end tag is in the last 8 bytes.
end_tag :
    (m : Store) (a : ℕ) (ts : List Tag)
    → Holds m a (tags_bytes ts)
    → (e : ℕ) × (e + 8 ≡ a + length (tags_bytes ts)) × (load32 m e ≡ 0) × (load32 m (e + 4) ≡ 8)
end_tag m a [] h =
    let (type, size) = load32_pair m a 0 8 (omega arith) (omega arith) h in (a, refl, type, size)
end_tag m a (t ∷ ts) h =
    let (_, rest) = Holds-append m a (tag_bytes t) (tags_bytes ts) h in
    let (e, at, type, size) = end_tag m (a + length (tag_bytes t)) ts rest in
    (e, omega (arith, at, length-append (tag_bytes t) (tags_bytes ts)), type, size)

-- A table stands in memory from `a` on.
pub record IsTable (m : Store) (a : ℕ) (ts : List Tag) : Type 0 where
  pub tags : AreTags ts
  pub holds : Holds m a (table_bytes ts)
  pub nonzero : a ≢ 0
  pub small : 8 + length (tags_bytes ts) < 2 ^ 32
  pub fits : a + 8 + length (tags_bytes ts) < 2 ^ 64

-- When no table is loaded yet, `mb2_table_load` accepts every table that is written in the multiboot2
-- format, with any tags, at an address that is not NULL, and `MB2TAB` is that address. After it
-- `mb2_get_tag` returns the address of the first tag of the type it is asked for, or NULL when the
-- table has none, given more fuel than the table has tags.
pub mb2_get_tag-mb2_table_load :
    (m : Store) (a : ℕ) (ts : List Tag) (fuel type : ℕ)
    → IsTable m a ts
    → length ts < fuel
    → (mb2_table_load a m 0 ≡ done (pos 0, a))
      × (mb2_get_tag fuel type m a ≡ done (find_tag type (a + 8) ts))
unfolding mb2_table_load mb2_get_tag
mb2_get_tag-mb2_table_load m a ts fuel type v enough =
    let (size, rsvd, tags) = table-Holds m a ts v.small v.holds in
    let (e, at, end_type, end_size) = end_tag m (a + 8) ts tags in
    let last : u64 (a + load32 m a + (2 ^ 64 - 8)) ≡ e = omega (arith, size, at, v) in
    let first : u64 (a + 8) ≡ a + 8 = omega (arith, v) in
    let found =
      get_tag_from-tags_bytes fuel type m (a + 8) ts v.tags tags (omega arith) (omega (arith, v))
        enough in
    (
      rw last (ground (arith, size, rsvd, end_type, end_size, v.nonzero)),
      rw first (ground (arith, found, v.nonzero)),
    )
