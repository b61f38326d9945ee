-- ===== src/Fmt/Numerals.antt =====
-- The texts of numbers that bootloader/stage2/util/intutil.c gives `fmt_write`, as numerals.
use mathlib.Core.List.{append_assoc, append-nil}
use mathlib.Core.Path.{subst}
use native.Mathlib.Nat.{mod-lt, mod-eq_of_lt, div-eq_of_lt, le-div_iff_mul-le}
use tmos.Base.{
  ℕ, zero, suc, ◌+◌, ◌-◌, ◌*◌, ◌/◌, ◌%◌, ◌^◌, ◌≤◌, ◌<◌, ◌≡◌, ◌⊎◌, refl, ap, sym, ◌∙◌, List, [], ◌∷◌,
  ◌++◌, Bool, true, false, ◌||◌, arith, ltb, ◌==◌, if◌then◌else◌, Bool-cases, inl, inr, ==_iff,
}
use tmos.Base.Table.{holds_below, holds_below_sound}
use tmos.Base.Outcome.{Outcome, done, ◌>>=◌}
use tmos.IntUtil.{hex_digit, fill_tmp, utoa, ulltoa, itoa, lltoa}
use tmos.IntUtil.Digits.{quotient-lt}
use tmos.Fmt.{Text, until_nul, signed, is_conversion, number_text}
use tmos.Fmt.Items.{digit_char, numeral, meaning, number_arg}

hex_digits : holds_below 16 (λ d. hex_digit d == digit_char d) ≡ true
unfolding holds_below
hex_digits = refl

hex_digit-digit_char : (d : ℕ) → d < 16 → hex_digit d ≡ digit_char d
hex_digit-digit_char d h = (==_iff _ _).0 (holds_below_sound 16 _ d hex_digits h)

fill_tmp-zero : (room base : ℕ) (tmp : List ℕ) → fill_tmp room base 0 tmp ≡ done tmp
unfolding fill_tmp
fill_tmp-zero zero base tmp = refl
fill_tmp-zero (suc room) base tmp = refl

-- With room for the number's binary digits the loop writes the numeral.
fill_tmp-numeral :
    (room base val : ℕ) (tmp : List ℕ)
    → 2 ≤ base
    → base ≤ 16
    → 0 < val
    → val < 2 ^ room
    → fill_tmp room base val tmp ≡ done (numeral room base val ++ tmp)
unfolding fill_tmp numeral
fill_tmp-numeral zero base val tmp two sixteen some h = absurd (omega arith)
fill_tmp-numeral (suc room) base val tmp two sixteen some h =
    let more : (val == 0) ≡ false = ground arith in
    let last : hex_digit (val % base) ≡ digit_char (val % base) =
      hex_digit-digit_char (val % base) (omega (arith, mod-lt val {m = base} (omega arith))) in
    elim (Bool-cases (ltb val base)) [
      | inl single ↦
          let below : val < base = ground arith in
          let (none_left, whole) : (val / base ≡ 0) × (val % base ≡ val) =
            (div-eq_of_lt below, mod-eq_of_lt below) in
          rw (more, single, last, none_left, whole) (fill_tmp-zero room base (digit_char val ∷ tmp))
      | inr longer ↦
          let front : 0 < val / base =
            (le-div_iff_mul-le {k = base} {x = 1} {y = val} (omega arith)).1 (ground arith) in
          rw (more, longer, last)
            (fill_tmp-numeral room base (val / base) (digit_char (val % base) ∷ tmp) two sixteen
                front (quotient-lt room base val two h)
              ∙ ap done (
                  sym (
                    append_assoc (numeral room base (val / base)) (digit_char (val % base) ∷ [])
                      tmp)))
    ]

digit_char-ne : (d : ℕ) → (digit_char d == 0) ≡ false
digit_char-ne d = ground arith

-- A numeral is read whole.
until_nul-numeral :
    (room base n : ℕ) (rest : Text)
    → until_nul (numeral room base n ++ rest) ≡ numeral room base n ++ until_nul rest
unfolding until_nul numeral
until_nul-numeral zero base n rest = refl
until_nul-numeral (suc room) base n rest = elim (Bool-cases (ltb n base)) [
  | inl single ↦ rw (single, digit_char-ne n) refl
  | inr longer ↦
      let (front, last) : Text × Text =
        (numeral room base (n / base), digit_char (n % base) ∷ []) in
      rw longer (
        ap until_nul (append_assoc front last rest)
        ∙ until_nul-numeral room base (n / base) (last ++ rest)
        ∙ ap (λ t. front ++ t) (rw (digit_char-ne (n % base)) refl)
        ∙ sym (append_assoc front last (until_nul rest)))
]

numeral-zero : (room base : ℕ) → 2 ≤ base → numeral (suc room) base 0 ≡ 48 ∷ []
unfolding numeral
numeral-zero room base two = let below : ltb 0 base ≡ true = ground arith in rw below refl

utoa-numeral :
    (n base : ℕ)
    → 2 ≤ base
    → base ≤ 16
    → n < 2 ^ 32
    → utoa n base ≡ done (numeral 32 base n ++ 0 ∷ [])
unfolding utoa
utoa-numeral n base two sixteen h = elim (Bool-cases (n == 0)) [
  | inl zeroed ↦
      let e : n ≡ 0 = ground arith in
      let text = sym (numeral-zero 31 base two) ∙ ap (numeral 32 base) (sym e) in
      rw zeroed (ap (λ t. done (t ++ 0 ∷ [])) text)
  | inr more ↦
      let accepted : ((n == 0) || (base == 0) || ltb 16 base) ≡ false = ground arith in
      rw (accepted, fill_tmp-numeral 32 base n [] two sixteen (ground arith) h)
        (ap (λ t. done (t ++ 0 ∷ [])) (append-nil (numeral 32 base n)))
]

ulltoa-numeral :
    (n base : ℕ)
    → 2 ≤ base
    → base ≤ 16
    → n < 2 ^ 64
    → ulltoa n base ≡ done (numeral 64 base n ++ 0 ∷ [])
unfolding ulltoa
ulltoa-numeral n base two sixteen h = elim (Bool-cases (n == 0)) [
  | inl zeroed ↦
      let e : n ≡ 0 = ground arith in
      let text = sym (numeral-zero 63 base two) ∙ ap (numeral 64 base) (sym e) in
      rw zeroed (ap (λ t. done (t ++ 0 ∷ [])) text)
  | inr more ↦
      let accepted : ((n == 0) || (base == 0) || ltb 16 base) ≡ false = ground arith in
      rw (accepted, fill_tmp-numeral 64 base n [] two sixteen (ground arith) h)
        (ap (λ t. done (t ++ 0 ∷ [])) (append-nil (numeral 64 base n)))
]

read_numeral :
    (room base n : ℕ) (m : Outcome Text)
    → m ≡ done (numeral room base n ++ 0 ∷ [])
    → (m >>= λ buf. done (until_nul buf)) ≡ done (numeral room base n)
unfolding until_nul
read_numeral room base n m e =
    rw e (ap done (until_nul-numeral room base n (0 ∷ []) ∙ append-nil (numeral room base n)))

read_negative :
    (room base n : ℕ) (m : Outcome Text)
    → m ≡ done (numeral room base n ++ 0 ∷ [])
    → ((m >>= λ text. done (45 ∷ text)) >>= λ buf. done (until_nul buf))
      ≡ done (45 ∷ numeral room base n)
unfolding until_nul
read_negative room base n m e = rw e (
    ap (λ t. done (45 ∷ t))
      (until_nul-numeral room base n (0 ∷ []) ∙ append-nil (numeral room base n)))

-- Up to its NUL the text of a number is what the conversion means.
abbrev HasMeaning : (wide : Bool) (c n : ℕ) → Type 0
HasMeaning wide c n =
    (number_text c wide (number_arg wide n) >>= λ buf. done (until_nul buf)) ≡ meaning wide c n

letter : (c : ℕ) → is_conversion c ≡ true → (c ≡ 100) ⊎ (c ≡ 117) ⊎ (c ≡ 111) ⊎ (c ≡ 120)
letter c h = ground arith

decimal-false : (n : ℕ) → n < 2 ^ 32 → HasMeaning false 100 n
unfolding number_text signed itoa
decimal-false n h = elim (Bool-cases (ltb n (2 ^ 31))) [
  | inl positive ↦
      rw positive
        (read_numeral 32 10 n (utoa n 10) (utoa-numeral n 10 (omega arith) (omega arith) h))
  | inr negative ↦
      let opposite : 2 ^ 31 * 2 - 1 - n + 1 ≡ 2 ^ 31 * 2 - n = ground arith in
      let same : (2 ^ 31 * 2 - 1 - n == 2 ^ 31 - 1) ≡ (n == 2 ^ 31) = ground arith in
      elim (Bool-cases (n == 2 ^ 31)) [
        | inl least ↦ rw (negative, same, least) refl
        | inr above ↦
            rw (negative, same, above, opposite)
              (read_negative 32 10 (2 ^ 31 * 2 - n) (utoa (2 ^ 31 * 2 - n) 10)
                (utoa-numeral (2 ^ 31 * 2 - n) 10 (omega arith) (omega arith) (ground arith)))
      ]
]

decimal-true : (n : ℕ) → n < 2 ^ 64 → HasMeaning true 100 n
unfolding number_text signed lltoa
decimal-true n h = elim (Bool-cases (ltb n (2 ^ 63))) [
  | inl positive ↦
      rw positive
        (read_numeral 64 10 n (ulltoa n 10) (ulltoa-numeral n 10 (omega arith) (omega arith) h))
  | inr negative ↦
      let opposite : 2 ^ 63 * 2 - 1 - n + 1 ≡ 2 ^ 63 * 2 - n = ground arith in
      let same : (2 ^ 63 * 2 - 1 - n == 2 ^ 63 - 1) ≡ (n == 2 ^ 63) = ground arith in
      elim (Bool-cases (n == 2 ^ 63)) [
        | inl least ↦ rw (negative, same, least) refl
        | inr above ↦
            rw (negative, same, above, opposite)
              (read_negative 64 10 (2 ^ 63 * 2 - n) (ulltoa (2 ^ 63 * 2 - n) 10)
                (ulltoa-numeral (2 ^ 63 * 2 - n) 10 (omega arith) (omega arith) (ground arith)))
      ]
]

pub number_text-meaning :
    (wide : Bool) (c n : ℕ)
    → is_conversion c ≡ true
    → n < 2 ^ (if wide then 64 else 32)
    → HasMeaning wide c n
unfolding number_text
number_text-meaning true c n conv h = elim (letter c conv) [
  | inl d ↦ subst (λ x. HasMeaning true x n) (sym d) (decimal-true n h)
  | inr (inl u) ↦
      subst (λ x. HasMeaning true x n) (sym u)
        (read_numeral 64 10 n _ (ulltoa-numeral n 10 (omega arith) (omega arith) h))
  | inr (inr (inl o)) ↦
      subst (λ x. HasMeaning true x n) (sym o)
        (read_numeral 64 8 n _ (ulltoa-numeral n 8 (omega arith) (omega arith) h))
  | inr (inr (inr x)) ↦
      subst (λ x. HasMeaning true x n) (sym x)
        (read_numeral 64 16 n _ (ulltoa-numeral n 16 (omega arith) (omega arith) h))
]
number_text-meaning false c n conv h = elim (letter c conv) [
  | inl d ↦ subst (λ x. HasMeaning false x n) (sym d) (decimal-false n h)
  | inr (inl u) ↦
      subst (λ x. HasMeaning false x n) (sym u)
        (read_numeral 32 10 n _ (utoa-numeral n 10 (omega arith) (omega arith) h))
  | inr (inr (inl o)) ↦
      subst (λ x. HasMeaning false x n) (sym o)
        (read_numeral 32 8 n _ (utoa-numeral n 8 (omega arith) (omega arith) h))
  | inr (inr (inr x)) ↦
      subst (λ x. HasMeaning false x n) (sym x)
        (read_numeral 32 16 n _ (utoa-numeral n 16 (omega arith) (omega arith) h))
]
