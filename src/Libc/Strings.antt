-- ===== src/Libc/Strings.antt =====
-- The string functions of libc/string.c over memory in bytes. A loop that looks for a NUL runs on
-- fuel, a round each.
pub mod Laws
use tmos.Base.{
  ℕ, zero, suc, ◌+◌, ◌-◌, ◌%◌, ◌≤◌, ◌<◌, ◌≡◌, ◌≢◌, refl, ◌⊎◌, inl, inr, Bool, true, false, not,
  ◌&&◌, ◌||◌, arith, ltb, leb, ◌==◌, if◌then◌else◌, Bool-cases,
}
use tmos.Base.Int.{ℤ, pos}
use tmos.Base.Outcome.{Outcome, done, no_fuel, ◌>>=◌}
use tmos.Base.Store.{Store, write}
use tmos.Libc.Memory.{char_diff}

-- `while (s[ret]) ret++;`
unfoldable pub count_up : ℕ → ℕ → ℕ → Store → Outcome ℕ
count_up zero s ret m = no_fuel
count_up (suc fuel) s ret m =
    let rest = count_up fuel s (ret + 1) m in if m (s + ret) == 0 then done ret else rest

unfoldable pub strlen : ℕ → ℕ → Store → Outcome ℕ
unfolding count_up
strlen fuel s m = if s == 0 then done 0 else count_up fuel s 0 m

-- `while (*src) *dest++ = *src++;`
unfoldable pub copy_string : ℕ → (dest src : ℕ) → Store → Outcome Store
copy_string zero dest src m = no_fuel
copy_string (suc fuel) dest src m =
    let rest = copy_string fuel (dest + 1) (src + 1) (write m dest (m src)) in
    if m src == 0 then done m else rest

unfoldable pub strcpy : ℕ → (dest src : ℕ) → Store → Outcome Store
unfolding copy_string
strcpy fuel dest src m = if (src == 0) || (dest == 0) then done m else copy_string fuel dest src m

-- `while (*src && i < n) { *dest++ = *src++; i++; }` with `n` rounds left.
unfoldable pub copy_bounded : ℕ → (dest src : ℕ) → Store → Store
copy_bounded zero dest src m = m
copy_bounded (suc n) dest src m =
    let rest = copy_bounded n (dest + 1) (src + 1) (write m dest (m src)) in
    if m src == 0 then m else rest

unfoldable pub strncpy : (dest src n : ℕ) → Store → Store
unfolding copy_bounded
strncpy dest src n m = if (src == 0) || (dest == 0) then m else copy_bounded n dest src m

unfoldable pub strcat : ℕ → (dest src : ℕ) → Store → Outcome Store
unfolding strlen strcpy
strcat fuel dest src m = do len ← strlen fuel dest m; strcpy fuel (dest + len) src m

unfoldable pub strncat : ℕ → (dest src n : ℕ) → Store → Outcome Store
unfolding strlen strncpy
strncat fuel dest src n m = do
  len ← strlen fuel dest m
  done (if ltb len n then strncpy (dest + len) src (n - len) m else m)

unfoldable pub compare_strings : ℕ → (a b : ℕ) → Store → Outcome ℤ
unfolding char_diff
compare_strings zero a b m = no_fuel
compare_strings (suc fuel) a b m =
    let rest = compare_strings fuel (a + 1) (b + 1) m in
    if (m a == 0) || (m b == 0)
    then done (char_diff (m a) (m b))
    else if m a == m b
    then rest
    else done (char_diff (m a) (m b))

unfoldable pub strcmp : ℕ → (a b : ℕ) → Store → Outcome ℤ
unfolding compare_strings
strcmp fuel a b m = if (a == 0) || (b == 0) then done (pos 0) else compare_strings fuel a b m

-- With `n` rounds left; at the bound the strings count as equal.
unfoldable pub compare_bounded : ℕ → (a b : ℕ) → Store → ℤ
unfolding char_diff
compare_bounded zero a b m = pos 0
compare_bounded (suc n) a b m =
    let rest = compare_bounded n (a + 1) (b + 1) m in
    if (m a == 0) || (m b == 0)
    then char_diff (m a) (m b)
    else if m a == m b
    then rest
    else char_diff (m a) (m b)

unfoldable pub strncmp : (a b n : ℕ) → Store → ℤ
unfolding compare_bounded
strncmp a b n m = if (a == 0) || (b == 0) then pos 0 else compare_bounded n a b m

-- The address of the first `c`, or NULL.
unfoldable pub find_char : ℕ → (s c : ℕ) → Store → Outcome ℕ
find_char zero s c m = no_fuel
find_char (suc fuel) s c m =
    let rest = find_char fuel (s + 1) c m in
    if m s == 0 then done 0 else if m s == c then done s else rest

unfoldable pub strchr : ℕ → (s c : ℕ) → Store → Outcome ℕ
unfolding find_char
strchr fuel s c m = if s == 0 then done 0 else find_char fuel s c m

-- The search from the end, with `n` bytes left before it.
unfoldable pub find_last : ℕ → (s c : ℕ) → Store → ℕ
find_last zero s c m = 0
find_last (suc n) s c m = let rest = find_last n s c m in if m (s + n) == c then s + n else rest

unfoldable pub strrchr : ℕ → (s c : ℕ) → Store → Outcome ℕ
unfolding strlen find_last
strrchr fuel s c m = if s == 0 then done 0 else do len ← strlen fuel s m; done (find_last len s c m)

-- `for (h = haystack, n = needle; *h && *n && *h == *n; h++, n++) { }`: where `n` ends.
unfoldable pub match_from : ℕ → (h n : ℕ) → Store → Outcome ℕ
match_from zero h n m = no_fuel
match_from (suc fuel) h n m =
    let rest = match_from fuel (h + 1) (n + 1) m in
    if (m h == 0) || (m n == 0) || not (m h == m n) then done n else rest

unfoldable pub find_string : ℕ → (haystack needle : ℕ) → Store → Outcome ℕ
unfolding match_from
find_string zero haystack needle m = no_fuel
find_string (suc fuel) haystack needle m =
    let rest = find_string fuel (haystack + 1) needle m in
    if m haystack == 0
    then done 0
    else do n ← match_from (suc fuel) haystack needle m; if m n == 0 then done haystack else rest

unfoldable pub strstr : ℕ → (haystack needle : ℕ) → Store → Outcome ℕ
unfolding find_string
strstr fuel haystack needle m =
    if (haystack == 0) || (needle == 0) then done 0 else find_string fuel haystack needle m
