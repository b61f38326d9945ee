-- ===== src/Libc/Caseless.antt =====
-- The comparisons of libc/string.c that take no notice of case.
use tmos.Base.{ℕ, zero, suc, ◌+◌, ◌<◌, ◌≡◌, refl, ◌||◌, ◌==◌, if◌then◌else◌}
use tmos.Base.Int.{ℤ, pos}
use tmos.Base.Outcome.{Outcome, done, no_fuel}
use tmos.Base.Store.{Store}
use tmos.Ctype.{tolower}
use tmos.Ctype.Ascii.{tolower-zero}
use tmos.Libc.Memory.{char_diff}
use tmos.Libc.Strings.{compare_strings, strcmp, compare_bounded, strncmp}

unfoldable pub compare_caseless : ℕ → (a b : ℕ) → Store → Outcome ℤ
compare_caseless zero a b m = no_fuel
compare_caseless (suc fuel) a b m =
    let tmpa = tolower (m a) in
    let tmpb = tolower (m b) in
    let rest = compare_caseless fuel (a + 1) (b + 1) m in
    if (m a == 0) || (m b == 0)
    then done (char_diff tmpa tmpb)
    else if tmpa == tmpb
    then rest
    else done (char_diff tmpa tmpb)

unfoldable pub stricmp : ℕ → (a b : ℕ) → Store → Outcome ℤ
stricmp fuel a b m = if (a == 0) || (b == 0) then done (pos 0) else compare_caseless fuel a b m

-- With `n` rounds left; at the bound the strings count as equal.
unfoldable pub compare_caseless_bounded : ℕ → (a b : ℕ) → Store → ℤ
compare_caseless_bounded zero a b m = pos 0
compare_caseless_bounded (suc n) a b m =
    let tmpa = tolower (m a) in
    let tmpb = tolower (m b) in
    let rest = compare_caseless_bounded n (a + 1) (b + 1) m in
    if (m a == 0) || (m b == 0)
    then char_diff tmpa tmpb
    else if tmpa == tmpb
    then rest
    else char_diff tmpa tmpb

unfoldable pub strnicmp : (a b n : ℕ) → Store → ℤ
strnicmp a b n m = if (a == 0) || (b == 0) then pos 0 else compare_caseless_bounded n a b m

-- The memory with every letter in lower case.
abbrev pub lowered : Store → Store
lowered m p = tolower (m p)

module _ (m : Store) (ascii : (p : ℕ) → m p < 128) where
  compare_caseless-eq :
      (fuel a b : ℕ) → compare_caseless fuel a b m ≡ compare_strings fuel a b (lowered m)
  unfolding compare_caseless compare_strings
  compare_caseless-eq zero a b = refl
  compare_caseless-eq (suc fuel) a b =
      rw
        (
          compare_caseless-eq fuel (a + 1) (b + 1),
          tolower-zero (m a) (ascii a),
          tolower-zero (m b) (ascii b),
        )
        refl

  compare_caseless_bounded-eq :
      (n a b : ℕ) → compare_caseless_bounded n a b m ≡ compare_bounded n a b (lowered m)
  unfolding compare_caseless_bounded compare_bounded
  compare_caseless_bounded-eq zero a b = refl
  compare_caseless_bounded-eq (suc n) a b =
      rw
        (
          compare_caseless_bounded-eq n (a + 1) (b + 1),
          tolower-zero (m a) (ascii a),
          tolower-zero (m b) (ascii b),
        )
        refl

  -- On memory of ASCII bytes `stricmp` and `strnicmp` return what `strcmp` and `strncmp` return on the
  -- same memory with every letter in lower case, whatever the bound and on the same fuel.
  stricmp-strcmp :
      (fuel a b n : ℕ)
      → (stricmp fuel a b m ≡ strcmp fuel a b (lowered m))
        × (strnicmp a b n m ≡ strncmp a b n (lowered m))
  unfolding stricmp strcmp strnicmp strncmp
  stricmp-strcmp fuel a b n =
      (rw (compare_caseless-eq fuel a b) refl, rw (compare_caseless_bounded-eq n a b) refl)
