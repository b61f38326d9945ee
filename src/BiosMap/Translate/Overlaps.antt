-- ===== src/BiosMap/Translate/Overlaps.antt =====
-- `_translate` does not look at overlaps.
use tmos.Base.{
  ℕ, zero, suc, ◌+◌, ◌^◌, ◌≡◌, refl, ap, ◌∙◌, true, false, Bool, not, ◌&&◌, arith, ltb, ◌==◌,
  if◌then◌else◌,
}
use tmos.Base.Bits.{bit_and-zero}
use tmos.Base.Outcome.{Outcome, done, ◌>>=◌}
use tmos.Base.Word.{u64}
use tmos.BiosMap.{BiosRegion, BiosMap, end_of}
use tmos.BiosMap.Translate.{
  start_of, set_start, new_region, page_algn_up, page_algn_dwn, type_of, Regions, Translation,
  last_region, push, put_last, fill_gap, extend, append, overlap, translate_entry, translate_from,
  translate,
}

-- A reserved region from the end of the entry up, unless the last region starts at 0.
abbrev pub reserve : BiosRegion → Translation → Translation
reserve m t =
    if t.last_start == 0
    then t
    else if ltb 0 t.reglen && (last_region t).val_type == 1
    then (let r = set_start (last_region t) (end_of m) in
        record (put_last r t) { last_start = start_of r })
    else (let r = new_region (end_of m) 1 in record (push r t) { last_start = start_of r })

-- The entry extends a region of its type or becomes a region.
abbrev pub add : BiosRegion → Translation → Translation
add m t = if ltb 0 t.reglen && (last_region t).val_type == type_of m then extend m t else append m t

abbrev pub add_all : ℕ → (i : ℕ) → BiosMap → Translation → Translation
add_all zero i mmap t = t
add_all (suc n) i mmap t = add_all n (i + 1) mmap (add (mmap i) (reserve (mmap i) t))

page_algn_up-zero : (x : ℕ) → page_algn_up x ≡ 0
unfolding page_algn_up
page_algn_up-zero x = bit_and-zero (u64 (x + 4095))

page_algn_dwn-zero : (x : ℕ) → page_algn_dwn x ≡ 0
unfolding page_algn_dwn
page_algn_dwn-zero x = bit_and-zero x

fill_gap-reserve : (m : BiosRegion) (t : Translation) → fill_gap m t ≡ reserve m t
unfolding fill_gap
fill_gap-reserve m t =
    let test : not (ltb 0 t.last_start) ≡ (t.last_start == 0) = ground arith in
    rw (page_algn_up-zero (end_of m), test) refl

-- The test for an overlap fails.
entry-add :
    (m : BiosRegion) (u : Translation) (over : Outcome Translation) (same : Bool)
    → (if same
        then done (extend m u)
        else if ltb u.last_start (page_algn_dwn (end_of m))
        then over
        else done (append m u))
      ≡ done (if same then extend m u else append m u)
entry-add m u over true = refl
entry-add m u over false =
    let none : ltb u.last_start 0 ≡ false = ground arith in
    rw (page_algn_dwn-zero (end_of m), none) refl

translate_entry-add :
    (m : BiosRegion) (t : Translation) → translate_entry m t ≡ done (add m (reserve m t))
unfolding translate_entry
translate_entry-add m t =
    entry-add m (fill_gap m t) (overlap m (fill_gap m t))
      (ltb 0 (fill_gap m t).reglen && (last_region (fill_gap m t)).val_type == type_of m)
    ∙ ap (λ u. done (add m u)) (fill_gap-reserve m t)

translate_from-add_all :
    (n i : ℕ) (mmap : BiosMap) (t : Translation)
    → translate_from n i mmap t ≡ done (add_all n i mmap t)
unfolding translate_from
translate_from-add_all zero i mmap t = refl
translate_from-add_all (suc n) i mmap t =
    ap (λ r. r >>= translate_from n (i + 1) mmap) (translate_entry-add (mmap i) t)
    ∙ translate_from-add_all n (i + 1) mmap (add (mmap i) (reserve (mmap i) t))

-- `_translate` returns on every map, and what it writes is written without a look at overlaps: for each
-- entry, a reserved region from its end up, unless the last region starts at 0, and then the entry
-- itself, as an extension of the last region if that has its type, or as a region of its own.
pub translate-add_all :
    (len : ℕ) (mmap : BiosMap) (tmp : Regions)
    → translate len mmap tmp
      ≡ done (add_all len 0 mmap (record { regions = tmp; reglen = 0; last_start = 2 ^ 56 }))
unfolding translate
translate-add_all zero mmap tmp = refl
translate-add_all (suc n) mmap tmp =
    let some : (suc n == 0) ≡ false = ground arith in
    rw some (translate_from-add_all (suc n) 0 mmap _)
