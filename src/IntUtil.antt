-- ===== src/IntUtil.antt =====
-- bootloader/stage2/util/intutil.c: writing numbers as text. The result is the list of the bytes that
-- are stored from `buf` on, the NUL at the end included.
pub mod Digits
mod Tests
use tmos.Base.{
  ℕ, zero, suc, ◌+◌, ◌-◌, ◌/◌, ◌%◌, ◌^◌, List, [], ◌∷◌, ◌++◌, Bool, ◌||◌, not, ltb, ◌==◌,
  if◌then◌else◌, get_or,
}
use tmos.Base.Int.{ℤ, pos, negsuc}
use tmos.Base.Outcome.{Outcome, done, undef, ◌>>=◌}
use tmos.Base.Word.{u32, u64}

-- `_HEXTABLE`.
abbrev pub hex_table : List ℕ
hex_table = 48 ∷ 49 ∷ 50 ∷ 51 ∷ 52 ∷ 53 ∷ 54 ∷ 55 ∷ 56 ∷ 57 ∷ 97 ∷ 98 ∷ 99 ∷ 100 ∷ 101 ∷ 102 ∷ []

abbrev pub hex_digit : ℕ → ℕ
hex_digit d = get_or hex_table d 0

-- The loop that fills `tmp`, with `room` bytes of it left. The list holds the last byte first, which
-- is the order of the second loop. A byte behind `tmp` is undefined to write.
unfoldable pub fill_tmp : ℕ → (base val : ℕ) → List ℕ → Outcome (List ℕ)
fill_tmp zero base val tmp = if val == 0 then done tmp else undef
fill_tmp (suc room) base val tmp =
    let rest = fill_tmp room base (val / base) (hex_digit (val % base) ∷ tmp) in
    if val == 0 then done tmp else rest

abbrev pub zero_text : List ℕ
zero_text = 48 ∷ 0 ∷ []

unfoldable pub utoa : (val base : ℕ) → Outcome (List ℕ)
utoa val base =
    if (val == 0) || (base == 0) || (ltb 16 base)
    then done zero_text
    else do tmp ← fill_tmp 32 base val []; done (tmp ++ (0 ∷ []))

unfoldable pub ulltoa : (val base : ℕ) → Outcome (List ℕ)
ulltoa val base =
    if (val == 0) || (base == 0) || (ltb 16 base)
    then done zero_text
    else do tmp ← fill_tmp 64 base val []; done (tmp ++ (0 ∷ []))

-- `-val` of the least `int32_t` overflows.
unfoldable pub itoa : ℤ → ℕ → Outcome (List ℕ)
itoa (pos n) base = utoa n base
itoa (negsuc n) base =
    if (base == 0) || (ltb 16 base)
    then done zero_text
    else if not (base == 10)
    then utoa (2 ^ 32 - (n + 1)) base
    else if n == 2 ^ 31 - 1
    then undef
    else (utoa (n + 1) base >>= λ text. done (45 ∷ text))

unfoldable pub lltoa : ℤ → ℕ → Outcome (List ℕ)
lltoa (pos n) base = ulltoa n base
lltoa (negsuc n) base =
    if (base == 0) || (ltb 16 base)
    then done zero_text
    else if not (base == 10)
    then ulltoa (2 ^ 64 - (n + 1)) base
    else if n == 2 ^ 63 - 1
    then undef
    else (ulltoa (n + 1) base >>= λ text. done (45 ∷ text))
