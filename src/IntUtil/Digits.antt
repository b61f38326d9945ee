-- ===== src/IntUtil/Digits.antt =====
-- What `utoa` and `ulltoa` write reads back as the number.
use native.Mathlib.Nat.{div-add-mod', div-mul-le_self, mod-lt, mul-le-mul, pow-suc, le_refl}
use tmos.Base.{
  ℕ, zero, suc, ◌+◌, ◌-◌, ◌*◌, ◌/◌, ◌%◌, ◌^◌, ◌≤◌, ◌<◌, ◌≡◌, refl, ap, ◌∙◌, List, [], ◌∷◌, ◌++◌,
  true, false, ◌||◌, arith, ltb, ◌==◌, if◌then◌else◌, Bool-cases, inl, inr, ==_iff,
}
use tmos.Base.Table.{holds_below, holds_below_sound}
use tmos.Base.Outcome.{done}
use tmos.IntUtil.{hex_digit, fill_tmp, utoa, ulltoa}

-- The digit that a byte stands for, and the number that a list of bytes stands for behind `acc`.
abbrev pub digit_of : ℕ → ℕ
digit_of c = if ltb c 58 then c - 48 else c - 87

abbrev pub read : (base acc : ℕ) → List ℕ → ℕ
read base acc [] = acc
read base acc (c ∷ cs) = read base (acc * base + digit_of c) cs

digits_read : holds_below 16 (λ d. digit_of (hex_digit d) == d) ≡ true
unfolding holds_below
digits_read = refl

digit_of-hex_digit : (d : ℕ) → d < 16 → digit_of (hex_digit d) ≡ d
digit_of-hex_digit d h = (==_iff _ d).0 (holds_below_sound 16 _ d digits_read h)

pub quotient-lt : (room base val : ℕ) → 2 ≤ base → val < 2 ^ suc room → val / base < 2 ^ room
quotient-lt room base val two h =
    omega (arith, div-mul-le_self val base, mul-le-mul (le_refl (val / base)) two, pow-suc 2 room)

-- With room for the number's binary digits the loop stays in `tmp`.
fill_tmp-read :
    (room base val : ℕ) (tmp : List ℕ)
    → 2 ≤ base
    → base ≤ 16
    → val < 2 ^ room
    → (cs : List ℕ) × (fill_tmp room base val tmp ≡ done cs) × (read base 0 cs ≡ read base val tmp)
unfolding fill_tmp
fill_tmp-read zero base val tmp two sixteen h =
    let z : val ≡ 0 = omega arith in (tmp, rw z refl, ap (λ v. read base v tmp) (omega arith))
fill_tmp-read (suc room) base val tmp two sixteen h = elim (Bool-cases (val == 0)) [
  | inl z ↦ (tmp, rw z refl, ap (λ v. read base v tmp) (ground arith))
  | inr more ↦
      let (cs, returns, same) =
        fill_tmp-read room base (val / base) (hex_digit (val % base) ∷ tmp) two sixteen
          (quotient-lt room base val two h) in
      (cs, rw more returns, same ∙ ap (λ v. read base v tmp) step)
]
  where
    step : val / base * base + digit_of (hex_digit (val % base)) ≡ val
    step =
        ap (λ d. val / base * base + d)
          (digit_of-hex_digit (val % base) (omega (arith, mod-lt val {m = base} (omega arith))))
        ∙ div-add-mod' val base

-- For a base from 2 to 16 `utoa` returns on every 32-bit number but 0, which has a text of its own:
-- its `tmp` is long enough, and it writes digits that read back as the number, and a NUL.
pub utoa-read :
    (val base : ℕ)
    → 0 < val
    → val < 2 ^ 32
    → 2 ≤ base
    → base ≤ 16
    → (cs : List ℕ) × (utoa val base ≡ done (cs ++ (0 ∷ []))) × (read base 0 cs ≡ val)
unfolding utoa
utoa-read val base nonzero h two sixteen =
    let (cs, returns, same) = fill_tmp-read 32 base val [] two sixteen h in
    (cs, rw (accepted, returns) refl, same)
  where
    accepted : ((val == 0) || (base == 0) || ltb 16 base) ≡ false
    accepted = ground arith

-- For a base from 2 to 16 `ulltoa` returns on every 64-bit number but 0, which has a text of its own:
-- its `tmp` is long enough, and it writes digits that read back as the number, and a NUL.
ulltoa-read :
    (val base : ℕ)
    → 0 < val
    → val < 2 ^ 64
    → 2 ≤ base
    → base ≤ 16
    → (cs : List ℕ) × (ulltoa val base ≡ done (cs ++ (0 ∷ []))) × (read base 0 cs ≡ val)
unfolding ulltoa
ulltoa-read val base nonzero h two sixteen =
    let (cs, returns, same) = fill_tmp-read 64 base val [] two sixteen h in
    (cs, rw (accepted, returns) refl, same)
  where
    accepted : ((val == 0) || (base == 0) || ltb 16 base) ≡ false
    accepted = ground arith
