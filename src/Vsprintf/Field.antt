-- ===== src/Vsprintf/Field.antt =====
-- `_number` writes the field that its arguments ask for.
use tmos.Base.{ℕ, ◌-◌, ◌^◌, List, [], ◌∷◌, Bool, ◌&&◌, ltb, ◌==◌, if◌then◌else◌}
use tmos.Vsprintf.Number.{flg_sign, flg_plus, flg_space, flg_special, flg_large, has}

-- A number above 2 ^ 63 is negative where it has a sign.
abbrev pub negative : (num flags : ℕ) → Bool
negative num flags = has flags flg_sign && ltb (2 ^ 63) num

abbrev pub magnitude : (num flags : ℕ) → ℕ
magnitude num flags = if negative num flags then 2 ^ 64 - num else num

abbrev sign_char : (num flags : ℕ) → ℕ
sign_char num flags =
    if negative num flags
    then 45
    else if has flags flg_sign && has flags flg_plus
    then 43
    else if has flags flg_sign && has flags flg_space
    then 32
    else 0

-- "0" for octal numbers and "0x" or "0X" for hexadecimal ones, where `SPECIAL` asks for it.
abbrev pub radix_mark : (base : ℕ) (special large : Bool) → List ℕ
radix_mark base special large =
    if special && (base == 8)
    then 48 ∷ []
    else if special && (base == 16)
    then 48 ∷ (if large then 88 else 120) ∷ []
    else []

-- The sign, '+' and ' ' as asked for, and the "0" or "0x" of the base.
abbrev pub lead : (num base flags : ℕ) → List ℕ
lead num base flags =
    let mark = radix_mark base (has flags flg_special) (has flags flg_large) in
    if sign_char num flags == 0 then mark else sign_char num flags ∷ mark
