-- ===== src/Vsprintf/Format.antt =====
-- `vsnprintf` of kernel/vsprintf.c. The format is the list of its bytes without the NUL, which are
-- ASCII and stand outside the buffer. The arguments are words of 64 bits, in the order of `va_arg`; a
-- missing one is undefined. The strings of `%s` are read from the memory that is written.
use tmos.Base.{
  ℕ, ◌+◌, ◌-◌, ◌*◌, ◌^◌, bit_or, List, [], ◌∷◌, Option, none, some, Bool, not, ◌||◌, ltb, leb, ◌==◌,
  if◌then◌else◌,
}
use tmos.Base.Outcome.{Outcome, done, undef, ◌>>=◌}
use tmos.Base.Word.{u16, u32}
use tmos.Ctype.{isdigit}
use tmos.Vsprintf.Number.{flg_zeropad, flg_sign, flg_plus, flg_space, flg_left, flg_special, has}

-- What is left to read, and what is known of the conversion. No width is -1 in the code, no precision
-- counts as 0, and no qualifier is -1.
pub record Spec : Type 0 where
  pub fmt : List ℕ
  pub args : List ℕ
  pub flags : ℕ
  pub field_width : Option ℕ
  pub precision : ℕ
  pub qualifier : Option ℕ

-- `_skip_atoi`; an `int` that overflows is undefined.
unfoldable pub skip_atoi : ℕ → List ℕ → Outcome (ℕ × List ℕ)
skip_atoi ret [] = done (ret, [])
skip_atoi ret (c ∷ s) =
    let next = ret * 10 + (c - 48) in
    let rest = skip_atoi next s in
    if not (isdigit c) then done (ret, c ∷ s) else if ltb next (2 ^ 31) then rest else undef

-- `va_arg`, whatever the type: the word.
abbrev pub va_arg : List ℕ → Outcome (ℕ × List ℕ)
va_arg [] = undef
va_arg (a ∷ args) = done (a, args)

unfoldable pub head_or_nul : List ℕ → ℕ
head_or_nul [] = 0
head_or_nul (c ∷ s) = c

unfoldable pub flag_of : ℕ → Option ℕ
flag_of c =
    if c == 43
    then some flg_plus
    else if c == 45
    then some flg_left
    else if c == 35
    then some flg_special
    else if c == 32
    then some flg_space
    else if c == 48
    then some flg_zeropad
    else none

unfoldable pub get_flags : (flags : ℕ) → List ℕ → ℕ × List ℕ
get_flags flags [] = (flags, [])
get_flags flags (c ∷ fmt) = elim (flag_of c) [
  | some flg ↦ get_flags (bit_or flags flg) fmt
  | none ↦ (flags, c ∷ fmt)
]

-- An `int` argument that is negative, and minus such a one.
abbrev pub is_negative : ℕ → Bool
is_negative a = leb (2 ^ 31) (u32 a)

unfoldable pub star_width : ℕ → Spec → Outcome Spec
star_width a s =
    if not (is_negative a)
    then done (record s { field_width = some (u32 a) })
    else if u32 a == 2 ^ 31
    then undef
    else done (record s { field_width = some (2 ^ 32 - u32 a); flags = bit_or s.flags flg_left })

-- The format that is given is what is left of it, as in `s`.
unfoldable pub width_arg : (fmt : List ℕ) → Spec → Outcome Spec
width_arg [] s = done s
width_arg (c ∷ fmt) s =
    if c == 42
    then (va_arg s.args >>= λ a. star_width a.0 (record s { fmt = fmt; args = a.1 }))
    else done s

unfoldable pub get_width : Spec → Outcome Spec
get_width s =
    if isdigit (head_or_nul s.fmt)
    then (skip_atoi 0 s.fmt >>= λ r. done (record s { field_width = some r.0; fmt = r.1 }))
    else width_arg s.fmt s

unfoldable pub star_precision : ℕ → Spec → Spec
star_precision a s = record s { precision = (if is_negative a then 0 else u32 a) }

unfoldable pub precision_arg : (fmt : List ℕ) → Spec → Outcome Spec
precision_arg [] s = done s
precision_arg (c ∷ fmt) s =
    if c == 42
    then (va_arg s.args >>= λ a. done (star_precision a.0 (record s { fmt = fmt; args = a.1 })))
    else done s

unfoldable pub precision_digits : Spec → Outcome Spec
precision_digits s =
    if isdigit (head_or_nul s.fmt)
    then (skip_atoi 0 s.fmt >>= λ r. done (record s { precision = r.0; fmt = r.1 }))
    else precision_arg s.fmt s

unfoldable pub get_precision : (fmt : List ℕ) → Spec → Outcome Spec
get_precision [] s = done s
get_precision (c ∷ fmt) s = if c == 46 then precision_digits (record s { fmt = fmt }) else done s

-- `l` twice counts as `L`.
unfoldable pub long_twice : (fmt : List ℕ) → Spec → Spec
long_twice [] s = record s { qualifier = some 108; fmt = [] }
long_twice (c ∷ fmt) s =
    if c == 108
    then record s { qualifier = some 76; fmt = fmt }
    else record s { qualifier = some 108; fmt = c ∷ fmt }

unfoldable pub get_qualifier : (fmt : List ℕ) → Spec → Spec
get_qualifier [] s = s
get_qualifier (c ∷ fmt) s =
    if c == 108
    then long_twice fmt s
    else if (c == 104) || (c == 76) || (c == 90) || (c == 122)
    then record s { qualifier = some c; fmt = fmt }
    else s

-- The flags have been read, and nothing else.
abbrev pub only_flags : ℕ × List ℕ → (args : List ℕ) → Spec
only_flags r args = record {
  fmt = r.1;
  args = args;
  flags = r.0;
  field_width = none;
  precision = 0;
  qualifier = none;
}

-- What stands between the '%' and the letter of the conversion.
unfoldable pub get_spec : (fmt args : List ℕ) → Outcome Spec
get_spec fmt args = do
  s ← get_width (only_flags (get_flags 0 fmt) args)
  t ← get_precision s.fmt s
  done (get_qualifier t.fmt t)

-- The cast to `unsigned long long` of a signed number of `w` bits.
abbrev pub sign_extend : (w n : ℕ) → ℕ
sign_extend w n = if leb (2 ^ (w - 1)) n then n + 2 ^ 64 - 2 ^ w else n

unfoldable pub num_of : Option ℕ → (flags a : ℕ) → ℕ
num_of none flags a = if has flags flg_sign then sign_extend 32 (u32 a) else u32 a
num_of (some q) flags a =
    if not (q == 104) then a else if has flags flg_sign then sign_extend 16 (u16 a) else u16 a
