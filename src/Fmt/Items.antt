-- ===== src/Fmt/Items.antt =====
-- What a format means: characters, `%s`, and the numbers with their widths.
use tmos.Base.{
  ℕ, ◌+◌, ◌-◌, ◌/◌, ◌%◌, ◌≤◌, ◌<◌, ◌≡◌, ◌≢◌, zero, suc, ◌*◌, ◌^◌, ◌==◌, List, [], ◌∷◌, ◌++◌, Bool,
  true, ltb, if◌then◌else◌, length,
}
use tmos.Base.Outcome.{Outcome, done, undef, ◌>>=◌}
use tmos.Fmt.{Text, Arg, word, long, text, is_conversion, repeat}

-- No width, or a width with spaces or zeros in front of the number.
pub data Width : Type 0 where
  default : Width
  spaces : ℕ → Width
  zeros : ℕ → Width

pub data Item : Type 0 where
  plain : ℕ → Item
  string : Text → Item
  number : Width → (wide : Bool) → (conversion n : ℕ) → Item

-- The decimal digits of a number below 100.
abbrev pub decimal : ℕ → Text
decimal v = if ltb v 10 then (48 + v) ∷ [] else (48 + v / 10) ∷ (48 + v % 10) ∷ []

abbrev pub width_text : Width → Text → Text
width_text default rest = rest
width_text (spaces v) rest = decimal v ++ rest
width_text (zeros v) rest = 48 ∷ (decimal v ++ rest)

-- The conversion, with "ll" for 64 bits.
abbrev pub conversion_text : Bool → ℕ → Text → Text
conversion_text wide c rest = if wide then 108 ∷ 108 ∷ c ∷ rest else (c ∷ rest)

abbrev pub format_of : List Item → Text
format_of [] = []
format_of (plain c ∷ items) = c ∷ format_of items
format_of (string s ∷ items) = 37 ∷ 115 ∷ format_of items
format_of (number w wide c n ∷ items) = 37 ∷ width_text w (conversion_text wide c (format_of items))

abbrev pub number_arg : Bool → ℕ → Arg
number_arg wide n = if wide then long n else word n

abbrev pub arguments : List Item → List Arg
arguments [] = []
arguments (plain c ∷ items) = arguments items
arguments (string s ∷ items) = text s ∷ arguments items
arguments (number w wide c n ∷ items) = number_arg wide n ∷ arguments items

abbrev pub padded : Width → Text → Text
padded default s = s
padded (spaces v) s = repeat (v - length s) 32 ++ s
padded (zeros v) s = repeat (v - length s) 48 ++ s

abbrev pub digit_char : ℕ → ℕ
digit_char d = if ltb d 10 then 48 + d else 87 + d

-- The numeral of `n` in a base, with at most `room` digits.
unfoldable pub numeral : (room base n : ℕ) → Text
numeral zero base n = []
numeral (suc room) base n =
    let front = numeral room base (n / base) in
    if ltb n base then digit_char n ∷ [] else front ++ digit_char (n % base) ∷ []

-- What is shown of a number of `bits + 1` bits: d in two's complement, where the least number is
-- undefined, u in base 10, o in base 8 and x in base 16.
abbrev pub shown : (bits conversion n : ℕ) → Outcome Text
shown bits c n =
    if c == 117
    then done (numeral (suc bits) 10 n)
    else if c == 111
    then done (numeral (suc bits) 8 n)
    else if c == 120
    then done (numeral (suc bits) 16 n)
    else if ltb n (2 ^ bits)
    then done (numeral (suc bits) 10 n)
    else if n == 2 ^ bits
    then undef
    else done (45 ∷ numeral (suc bits) 10 (2 ^ bits * 2 - n))

abbrev pub meaning : (wide : Bool) (conversion n : ℕ) → Outcome Text
meaning wide c n = shown (if wide then 63 else 31) c n

-- The whole output.
abbrev pub rendered : List Item → Outcome Text
rendered [] = done []
rendered (plain c ∷ items) = rendered items >>= λ t. done (c ∷ t)
rendered (string s ∷ items) = rendered items >>= λ t. done (s ++ t)
rendered (number w wide c n ∷ items) =
    meaning wide c n >>= λ s. rendered items >>= λ t. done (padded w s ++ t)

-- A width fits the buffer, with spaces it does not start with '0', and a number fits its argument.
abbrev pub IsWidth : Width → Type 0
IsWidth default = Unit
IsWidth (spaces v) = (1 ≤ v) × (v < 64)
IsWidth (zeros v) = v < 64

abbrev pub IsItem : Item → Type 0
IsItem (plain c) = (c ≢ 37) × (c ≢ 0)
IsItem (string s) = Unit
IsItem (number w wide c n) =
    IsWidth w × (is_conversion c ≡ true) × (n < 2 ^ (if wide then 64 else 32))

abbrev pub AreItems : List Item → Type 0
AreItems [] = Unit
AreItems (i ∷ items) = IsItem i × AreItems items
