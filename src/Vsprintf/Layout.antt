-- ===== src/Vsprintf/Layout.antt =====
-- The field that `_number` writes, against the description of printf.
use native.Mathlib.Nat.{div-add-mod', mod-lt}
use tmos.IntUtil.Digits.{quotient-lt}
use tmos.Base.{
  ==_iff, ℕ, zero, suc, ◌+◌, ◌-◌, ◌*◌, ◌/◌, ◌%◌, ◌^◌, ◌≤◌, ◌<◌, ◌≡◌, inl, inr, refl, ap, ap₂, ◌∙◌,
  List, [], ◌∷◌, ◌++◌, Bool, true, false, not, ◌&&◌, ◌||◌, arith, ltb, ◌==◌, if◌then◌else◌, length,
  Bool-cases,
}
use tmos.Base.Outcome.{Outcome, done, undef}
use tmos.Base.Table.{holds_below, holds_below_sound}
use tmos.Vsprintf.Number.{Output, put, within, pad, puts, digit, digits_of}

abbrev pub copies : ℕ → ℕ → List ℕ
copies zero c = []
copies (suc n) c = c ∷ copies n c

-- The padding goes behind the number, between its sign and its digits as zeros, or before it.
abbrev pub layout : (left zeropad : Bool) (size fill : ℕ) (lead digits : List ℕ) → List ℕ
layout left zeropad size fill lead digits =
    let body = copies fill 48 ++ digits in
    let rest = size - (length lead + (fill + length digits)) in
    if left
    then lead ++ (body ++ copies rest 32)
    else if zeropad
    then lead ++ (copies rest 48 ++ body)
    else copies rest 32 ++ (lead ++ body)

module _ (end : ℕ) where
  puts-append : (xs ys : List ℕ) (o : Output) → puts end (xs ++ ys) o ≡ puts end ys (puts end xs o)
  unfolding puts
  puts-append [] ys o = refl
  puts-append (x ∷ xs) ys o = puts-append xs ys (put end x o)

  puts-str : (xs : List ℕ) (o : Output) → (puts end xs o).str ≡ o.str + length xs
  unfolding puts put
  puts-str [] o = omega arith
  puts-str (x ∷ xs) o = puts-str xs (put end x o) ∙ omega arith

  -- Bytes that are written where they end inside the address space.
  abbrev pub written : List ℕ → Output → Outcome Output
  written xs o = if ltb (o.str + length xs) (2 ^ 64) then done (puts end xs o) else undef

  pub within-puts : (xs : List ℕ) (o : Output) → within (puts end xs o) ≡ written xs o
  unfolding within
  within-puts xs o = rw (puts-str xs o) refl

  puts-copies : (n c : ℕ) (o : Output) → puts end (copies n c) o ≡ pad end n c o
  unfolding puts pad
  puts-copies zero c o = refl
  puts-copies (suc n) c o = puts-copies n c (put end c o)

  -- The writes of `number`, for the bytes that are left over and the zeros.
  abbrev pub filled : (left zeropad : Bool) (rest fill : ℕ) (lead digits : List ℕ) → Output → Output
  filled left zeropad rest fill lead digits o =
      let early = if zeropad || left then 0 else rest in
      let middle = if left then 0 else rest - early in
      pad end (rest - early - middle) 32 (
        puts end digits (
          pad end fill 48
            (pad end middle (if zeropad then 48 else 32) (puts end lead (pad end early 32 o)))))

  abbrev write_rest : (c fill : ℕ) (lead digits : List ℕ) → Output → (middle last : ℕ) → Output
  write_rest c fill lead digits o middle last =
      pad end last 32 (puts end digits (pad end fill 48 (pad end middle c (puts end lead o))))

  pub filled-layout :
      (left zeropad : Bool) (rest fill size : ℕ) (lead digits : List ℕ) (o : Output)
      → not (left && zeropad) ≡ true
      → size - (length lead + (fill + length digits)) ≡ rest
      → filled left zeropad rest fill lead digits o
        ≡ puts end (layout left zeropad size fill lead digits) o
  unfolding pad
  filled-layout true true rest fill size lead digits o h w = cc
  filled-layout true false rest fill size lead digits o h w = rw w (
      simp (puts-append, puts-copies)
        (ap₂ (write_rest 32 fill lead digits o) (let e : ◌≡◌ {A = ℕ} 0 0 = refl in e)
          (let e : rest - 0 - 0 ≡ rest = omega arith in e)))
  filled-layout false true rest fill size lead digits o h w = rw w (
      simp (puts-append, puts-copies)
        (ap₂ (write_rest 48 fill lead digits o) (let e : rest - 0 ≡ rest = omega arith in e)
          (let e : rest - 0 - (rest - 0) ≡ 0 = omega arith in e)))
  filled-layout false false rest fill size lead digits o h w = rw w (
      simp (puts-append, puts-copies)
        (ap₂ (write_rest 32 fill lead digits (pad end rest 32 o))
          (let e : rest - rest ≡ 0 = omega arith in e)
          (let e : rest - rest - (rest - rest) ≡ 0 = omega arith in e)))

-- The value of a digit, and of a list of digits behind `acc`.
abbrev pub digit_value : ℕ → ℕ
digit_value c = if ltb c 58 then c - 48 else if ltb c 91 then c - 55 else c - 87

abbrev pub read : (base acc : ℕ) → List ℕ → ℕ
read base acc [] = acc
read base acc (c ∷ cs) = read base (acc * base + digit_value c) cs

digits_read : (large : Bool) → holds_below 36 (λ d. digit_value (digit large d) == d) ≡ true
unfolding holds_below digit
digits_read true = refl
digits_read false = refl

digit_value-digit : (large : Bool) (d : ℕ) → d < 36 → digit_value (digit large d) ≡ d
digit_value-digit large d h = (==_iff _ d).0 (holds_below_sound 36 _ d (digits_read large) h)

-- With room for the number's binary digits the loop stays in `tmp`.
pub digits_of-read :
    (room : ℕ) (large : Bool) (base num : ℕ) (tmp : List ℕ)
    → 2 ≤ base
    → base ≤ 36
    → num < 2 ^ room
    → (cs : List ℕ) × (digits_of room large base num tmp ≡ done cs)
      × (read base 0 cs ≡ read base num tmp)
unfolding digits_of
digits_of-read zero large base num tmp two most h =
    let z : num ≡ 0 = omega arith in (tmp, rw z refl, ap (λ v. read base v tmp) (omega arith))
digits_of-read (suc room) large base num tmp two most h = elim (Bool-cases (num == 0)) [
  | inl z ↦ (tmp, rw z refl, ap (λ v. read base v tmp) (ground arith))
  | inr more ↦
      let (cs, returns, same) =
        digits_of-read room large base (num / base) (digit large (num % base) ∷ tmp) two most
          (quotient-lt room base num two h) in
      (cs, rw more returns, same ∙ ap (λ v. read base v tmp) step)
]
  where
    step : num / base * base + digit_value (digit large (num % base)) ≡ num
    step =
        ap (λ d. num / base * base + d)
          (digit_value-digit large (num % base)
            (omega (arith, mod-lt num {m = base} (omega arith))))
        ∙ div-add-mod' num base
