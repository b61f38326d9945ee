-- ===== src/Fmt/Rounds.antt =====
-- Every round of the loop of `fmt_write` leaves less of the format.
use tmos.Base.{
  ℕ, zero, suc, ◌-◌, ◌≤◌, ◌<◌, ◌≡◌, ◌≢◌, ap, List, [], ◌∷◌, false, not, ◌||◌, arith, ◌==◌,
  if◌then◌else◌, length, Bool-cases, inl, inr,
}
use tmos.Base.Outcome.{done, no_fuel, >>=-ends-done, if-ends, >>=-eq-done, done-injective}
use tmos.Fmt.{
  Text, Arg, first, rest_of, is_digit, advance, copy_plain, copy_digits, atoi, Field, get_field,
  is_conversion, Rest, write_text, get_length, write_conversion, fmt_round, fmt_write,
}
use tmos.Fmt.Ends.{
  EndsBelow, emit-ends, give_up-ends, last_flush-ends, advance-ends, advance-length,
  copy_plain-length, copy_digits-length, rest_of-length, atoi-ends, write_number-ends,
  write_char-ends, write_string-ends,
}

write_conversion-ends :
    (next : Rest) (n : ℕ) (fmt : Text) (f : Field) (buf rest : Text) (args : List Arg)
    → EndsBelow next n
    → length rest < n
    → write_conversion next fmt f buf rest args ≢ no_fuel
unfolding write_conversion get_length
write_conversion-ends next n fmt f buf rest args ends less =
    let number = get_length (rest_of rest) in
    let short : length (number.1) < n =
      ground (arith, rest_of-length rest, rest_of-length (rest_of rest)) in
    if-ends (first rest == 108) _ _
      (λ _.
        if-ends (is_conversion (first (number.1))) _ _
          (λ _. write_number-ends next n f (number.0) buf (number.1) args ends short)
          (λ _. give_up-ends buf fmt))
      (λ _.
        if-ends (is_conversion (first rest)) _ _
          (λ _. write_number-ends next n f false buf rest args ends less)
          (λ _.
            if-ends (first rest == 99) _ _ (λ _. write_char-ends next n buf rest args ends less)
              (λ _.
                if-ends (first rest == 115) _ _
                  (λ _. write_string-ends next n buf rest args ends less)
                  (λ _. give_up-ends buf fmt))))

copy_plain-first :
    (room c : ℕ) (cs : Text)
    → 0 < room
    → (c == 37) ≡ false
    → length ((copy_plain room (c ∷ cs)).1) ≤ length cs
unfolding copy_plain
copy_plain-first zero c cs some other = absurd (omega arith)
copy_plain-first (suc room) c cs some other = ground (arith, copy_plain-length room cs)

text-rest :
    (buf : Text) (c : ℕ) (cs from : Text)
    → (c == 37) ≡ false
    → advance (length buf) (c ∷ cs) ≡ done from
    → length ((copy_plain (63 - length buf) from).1) ≤ length cs
unfolding advance
text-rest [] c cs from other e =
    let same = ap (λ f. length ((copy_plain 63 f).1)) (done-injective e) in
    omega (arith, same, copy_plain-first 63 c cs (omega arith) other)
text-rest (b ∷ bs) c cs from other e =
    omega
      (arith, advance-length (length bs) cs from e, copy_plain-length (63 - suc (length bs)) from)

-- The first byte of text is copied, or a part of the format is skipped.
write_text-rest :
    (buf : Text) (c : ℕ) (cs from : Text)
    → advance (length buf) (if c == 37 then cs else c ∷ cs) ≡ done from
    → length ((copy_plain (63 - length buf) from).1) ≤ length cs
write_text-rest buf c cs from e = elim (Bool-cases (c == 37)) [
  | inl percent ↦
      let len = advance-length (length buf) cs from (rw percent at e) in
      omega (arith, len, copy_plain-length (63 - length buf) from)
  | inr other ↦ text-rest buf c cs from other (rw other at e)
]

write_text-ends :
    (next : Rest) (buf : Text) (c : ℕ) (cs : Text) (args : List Arg)
    → EndsBelow next (suc (length cs))
    → write_text next buf (c ∷ cs) args ≢ no_fuel
unfolding write_text
write_text-ends next buf c cs args ends =
    >>=-ends-done (advance (length buf) (if c == 37 then cs else c ∷ cs)) _
      (advance-ends (length buf) _)
      (λ from e. emit-ends _ _ (ends [] _ args (omega (arith, write_text-rest buf c cs from e))))

get_field-ends : (fmt : Text) → get_field fmt ≢ no_fuel
unfolding get_field
get_field-ends fmt =
    if-ends (not (is_digit (first fmt))) _ _ (λ _ e. cc)
      (λ _. >>=-ends-done _ _ (atoi-ends 0 _) (λ w _ e. cc))

get_field-rest : (fmt : Text) (r : Field × Text) → get_field fmt ≡ done r → length r.1 ≤ length fmt
unfolding get_field
get_field-rest fmt r e = elim (Bool-cases (not (is_digit (first fmt)))) [
  | inl plain ↦
      let same = ap (λ x. length x.1) (done-injective (rw plain at e)) in omega (arith, same)
  | inr digit ↦
      let from = if first fmt == 48 then rest_of fmt else fmt in
      let (w, _, result) = >>=-eq-done (atoi 0 ((copy_digits 31 from).0)) _ (rw digit at e) in
      let same = ap (λ x. length x.1) (done-injective result) in
      let shorter : length from ≤ length fmt = ground (arith, rest_of-length fmt) in
      omega (arith, same, shorter, copy_digits-length 31 from)
]

fmt_round-ends :
    (next : Rest) (buf : Text) (c : ℕ) (cs : Text) (args : List Arg)
    → EndsBelow next (suc (length cs))
    → fmt_round next buf (c ∷ cs) args ≢ no_fuel
unfolding fmt_round
fmt_round-ends next buf c cs args ends =
    if-ends (not (c == 37) || (first cs == 37)) _ _ (λ _. write_text-ends next buf c cs args ends)
      (λ _. >>=-ends-done (get_field cs) _ (get_field-ends cs) (λ r e.
        write_conversion-ends next (suc (length cs)) (c ∷ cs) r.0 buf r.1 args ends
          (omega (arith, get_field-rest cs r e))))

-- On every format and all arguments `fmt_write` is not still running when it had fuel for one round
-- more than the format has bytes: it has an output, or it came to a step that C leaves undefined.
fmt_write-ends :
    (fuel : ℕ) (buf fmt : Text) (args : List Arg)
    → length fmt < fuel
    → fmt_write fuel buf fmt args ≢ no_fuel
unfolding fmt_write
fmt_write-ends zero buf fmt args enough = absurd (omega arith)
fmt_write-ends (suc fuel) buf [] args enough = last_flush-ends buf
fmt_write-ends (suc fuel) buf (c ∷ cs) args enough =
    fmt_round-ends (fmt_write fuel) buf c cs args
      (λ buf' fmt' args' less. fmt_write-ends fuel buf' fmt' args' (omega arith))
