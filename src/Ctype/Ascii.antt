-- ===== src/Ctype/Ascii.antt =====
-- The classes of the ASCII characters, by their ranges.
use tmos.Base.{
  ℕ, ◌+◌, ◌-◌, ◌<◌, ◌≡◌, refl, ◌&&◌, ◌||◌, not, Bool, true, false, arith, leb, ◌==◌, if◌then◌else◌,
}
use tmos.Base.Table.{holds_below, holds_below_sound}
use tmos.Ctype.{
  ctype, has_class, iscntrl, isdigit, islower, ispunct, isspace, isupper, isxdigit, tolower,
  toupper,
}

abbrev same : Bool → Bool → Bool
same a b = if a then b else not b

same_sound : (a b : Bool) → same a b ≡ true → a ≡ b
same_sound true true h = refl
same_sound true false h = cc
same_sound false true h = cc
same_sound false false h = refl

by_table :
    (f g : ℕ → Bool)
    → holds_below 128 (λ c. same (f c) (g c)) ≡ true
    → (c : ℕ) → c < 128
    → f c ≡ g c
by_table f g runs c small = same_sound (f c) (g c) (holds_below_sound 128 _ c runs small)

abbrev pub between : (low high : ℕ) → ℕ → Bool
between low high c = leb low c && leb c high

-- The punctuation as what is left: printed, but no letter, digit or blank.
abbrev pub mark : ℕ → Bool
mark c = between 33 126 c && not (between 48 57 c || between 65 90 c || between 97 122 c)

module _ (c : ℕ) (ascii : c < 128) where
  isdigit-eq : isdigit c ≡ between 48 57 c
  unfolding isdigit has_class ctype holds_below
  isdigit-eq = by_table isdigit (between 48 57) refl c ascii

  isupper-eq : isupper c ≡ between 65 90 c
  unfolding isupper has_class ctype holds_below
  isupper-eq = by_table isupper (between 65 90) refl c ascii

  islower-eq : islower c ≡ between 97 122 c
  unfolding islower has_class ctype holds_below
  islower-eq = by_table islower (between 97 122) refl c ascii

  -- On ASCII the table has the digits, the letters, the hexadecimal digits, the white space, the
  -- punctuation (the printed rest) and the control characters (with the white space from 9 to 13) where
  -- ASCII has them, and `tolower` and `toupper` move the letters by 32 and leave the rest.
  ctype-Ascii :
      (isdigit c ≡ between 48 57 c)
      × (isupper c ≡ between 65 90 c)
      × (islower c ≡ between 97 122 c)
      × (isxdigit c ≡ between 48 57 c || between 65 70 c || between 97 102 c)
      × (isspace c ≡ between 9 13 c || (c == 32))
      × (ispunct c ≡ mark c)
      × (iscntrl c ≡ between 0 31 c || (c == 127))
      × (tolower c ≡ (if between 65 90 c then c + 32 else c))
      × (toupper c ≡ (if between 97 122 c then c - 32 else c))
  unfolding isxdigit isspace ispunct iscntrl tolower toupper has_class ctype holds_below
  ctype-Ascii = (
    isdigit-eq,
    isupper-eq,
    islower-eq,
    by_table isxdigit (λ d. between 48 57 d || between 65 70 d || between 97 102 d) refl c ascii,
    by_table isspace (λ d. between 9 13 d || (d == 32)) refl c ascii,
    by_table ispunct mark refl c ascii,
    by_table iscntrl (λ d. between 0 31 d || (d == 127)) refl c ascii,
    rw isupper-eq refl,
    rw islower-eq refl,
  )

  pub tolower-zero : (tolower c == 0) ≡ (c == 0)
  unfolding tolower
  tolower-zero = rw isupper-eq (ground arith)
