-- ===== src/Fmt/Numbers.antt =====
-- A conversion of a number in `fmt_write`.
use tmos.Base.{
  ℕ, zero, suc, ◌+◌, ◌/◌, ◌%◌, ◌≤◌, ◌<◌, ◌≡◌, refl, List, [], ◌∷◌, ◌++◌, Bool, true, false, arith,
  ltb, ◌==◌, Bool-cases, inl, inr,
}
use tmos.Base.Outcome.{Outcome, done, panic, undef, no_fuel, ◌>>=◌}
use tmos.Fmt.{
  Text, Arg, until_nul, first, emit, is_digit, copy_digits, atoi, Field, get_field, is_conversion,
  number_text, pad_number, Rest, get_length, write_number, write_conversion, fmt_round,
}
use tmos.Fmt.Items.{
  Width, default, spaces, zeros, decimal, width_text, conversion_text, padded, IsWidth,
}

abbrev field_of : Width → Field
field_of default = record { size_override = false; zero_pad = false; width = 0 }
field_of (spaces v) = record { size_override = true; zero_pad = false; width = v }
field_of (zeros v) = record { size_override = true; zero_pad = true; width = v }

copy_digits-stop :
    (room : ℕ) (rest : Text) → is_digit (first rest) ≡ false → copy_digits room rest ≡ ([], rest)
unfolding copy_digits
copy_digits-stop zero rest h = refl
copy_digits-stop (suc room) [] h = refl
copy_digits-stop (suc room) (c ∷ cs) h = rw h refl

copy_digits-more :
    (room c : ℕ) (cs copied rest : Text)
    → is_digit c ≡ true
    → copy_digits room cs ≡ (copied, rest)
    → copy_digits (suc room) (c ∷ cs) ≡ (c ∷ copied, rest)
unfolding copy_digits
copy_digits-more room c cs copied rest h e = rw (h, e) refl

digit-is_digit : (d : ℕ) → d < 10 → is_digit (48 + d) ≡ true
unfolding is_digit
digit-is_digit d h = ground arith

-- The digits of a width are read as that width.
copy_digits-decimal :
    (v : ℕ) (rest : Text)
    → v < 64
    → is_digit (first rest) ≡ false
    → copy_digits 31 (decimal v ++ rest) ≡ (decimal v, rest)
copy_digits-decimal v rest h stop = elim (Bool-cases (ltb v 10)) [
  | inl one ↦ rw one (
      copy_digits-more 30 (48 + v) rest [] rest (digit-is_digit v (ground arith))
        (copy_digits-stop 30 rest stop))
  | inr two ↦ rw two (
      copy_digits-more 30 (48 + v / 10) ((48 + v % 10) ∷ rest) ((48 + v % 10) ∷ []) rest
        (digit-is_digit (v / 10) (omega arith))
        (copy_digits-more 29 (48 + v % 10) rest [] rest (digit-is_digit (v % 10) (omega arith))
          (copy_digits-stop 29 rest stop)))
]

atoi-decimal : (v : ℕ) → v < 64 → atoi 0 (decimal v) ≡ done v
unfolding atoi
atoi-decimal v h = elim (Bool-cases (ltb v 10)) [ inl one ↦ ground arith | inr two ↦ ground arith ]

pad_number-padded :
    (w : Width) (buf : Text)
    → IsWidth w
    → pad_number (field_of w) buf ≡ done (padded w (until_nul buf))
unfolding pad_number
pad_number-padded default buf h = refl
pad_number-padded (spaces v) buf h = ground arith
pad_number-padded (zeros v) buf h = ground arith

-- The first byte of a width with spaces is a digit other than '0'.
decimal-first :
    (v : ℕ) (rest : Text)
    → 1 ≤ v
    → v < 64
    → (is_digit (first (decimal v ++ rest)) ≡ true) × ((first (decimal v ++ rest) == 48) ≡ false)
unfolding is_digit
decimal-first v rest some h = elim (Bool-cases (ltb v 10)) [
  | inl one ↦ rw one (ground arith, ground arith)
  | inr two ↦ rw two (ground arith, ground arith)
]

-- What is parsed of a width that stands in front of anything but a digit.
get_field-width_text :
    (w : Width) (rest : Text)
    → IsWidth w
    → is_digit (first rest) ≡ false
    → get_field (width_text w rest) ≡ done (field_of w, rest)
unfolding get_field is_digit
get_field-width_text default rest h stop = rw stop refl
get_field-width_text (spaces v) rest h stop =
    let (digit, nonzero) = decimal-first v rest h.0 h.1 in
    rw (digit, nonzero, copy_digits-decimal v rest h.1 stop, atoi-decimal v h.1) refl
get_field-width_text (zeros v) rest h stop =
    rw (copy_digits-decimal v rest h stop, atoi-decimal v h) refl

-- Neither a conversion nor a width starts with a '%'.
width_text-first :
    (w : Width) (rest : Text)
    → IsWidth w
    → (first rest == 37) ≡ false
    → (first (width_text w rest) == 37) ≡ false
width_text-first default rest h other = other
width_text-first (spaces v) rest h other = elim (Bool-cases (ltb v 10)) [
  | inl one ↦ rw one (ground arith)
  | inr two ↦ rw two (ground arith)
]
width_text-first (zeros v) rest h other = refl

conversion_text-first :
    (wide : Bool) (c : ℕ) (rest : Text)
    → is_conversion c ≡ true
    → (is_digit (first (conversion_text wide c rest)) ≡ false)
      × ((first (conversion_text wide c rest) == 37) ≡ false)
unfolding is_digit
conversion_text-first true c rest h = (refl, refl)
conversion_text-first false c rest h = (ground arith, ground arith)

write_conversion-number :
    (next : Rest) (fmt : Text) (f : Field) (wide : Bool) (c : ℕ) (rest : Text) (arg : Arg)
    (args : List Arg)
    → is_conversion c ≡ true
    → write_conversion next fmt f [] (conversion_text wide c rest) (arg ∷ args)
      ≡ (number_text c wide arg >>= pad_number f >>= λ s. emit s (next [] rest args))
unfolding write_conversion write_number get_length
write_conversion-number next fmt f true c rest arg args h = rw h refl
write_conversion-number next fmt f false c rest arg args h =
    let short : (c == 108) ≡ false = ground arith in rw (short, h) refl

-- A round of the loop at a number.
pub fmt_round-number :
    (next : Rest) (w : Width) (wide : Bool) (c : ℕ) (rest : Text) (arg : Arg) (args : List Arg)
    → IsWidth w
    → is_conversion c ≡ true
    → fmt_round next [] (37 ∷ width_text w (conversion_text wide c rest)) (arg ∷ args)
      ≡ (number_text c wide arg >>= λ buf. emit (padded w (until_nul buf)) (next [] rest args))
unfolding fmt_round
fmt_round-number next w wide c rest arg args h conv =
    let (stop, other) = conversion_text-first wide c rest conv in
    let fmt = 37 ∷ width_text w (conversion_text wide c rest) in
    rw
      (
        width_text-first w (conversion_text wide c rest) h other,
        get_field-width_text w (conversion_text wide c rest) h stop,
        write_conversion-number next fmt (field_of w) wide c rest arg args conv,
      )
      (bind_padded (number_text c wide arg))
  where
    bind_padded :
        (m : Outcome Text)
        → (m >>= pad_number (field_of w) >>= λ s. emit s (next [] rest args))
          ≡ (m >>= λ buf. emit (padded w (until_nul buf)) (next [] rest args))
    bind_padded (done buf) = rw (pad_number-padded w buf h) refl
    bind_padded panic = refl
    bind_padded undef = refl
    bind_padded no_fuel = refl
