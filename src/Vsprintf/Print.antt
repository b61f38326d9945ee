-- ===== src/Vsprintf/Print.antt =====
-- The loop of `vsnprintf`, with its conversions, and the functions that call it. `null_str` is the
-- address of the literal "(null)", and `fuel` bounds the search of `strlen` for a NUL.
use tmos.Base.{
  ℕ, zero, suc, ◌+◌, ◌-◌, ◌^◌, bit_or, List, [], ◌∷◌, Option, none, some, not, ◌||◌, ltb, leb, ◌==◌,
  if◌then◌else◌, length,
}
use tmos.Base.Outcome.{Outcome, done, undef, no_fuel, ◌>>=◌}
use tmos.Base.Store.{Store, write}
use tmos.Base.Word.{u8, u32, u64, sub64}
use tmos.Libc.Strings.{strlen}
use tmos.System.{page_size}
use tmos.Vsprintf.Number.{
  flg_zeropad, flg_sign, flg_left, flg_large, has, Output, put, within, pad, number,
}
use tmos.Vsprintf.Format.{Spec, va_arg, head_or_nul, get_spec, num_of}

abbrev pub width_or : ℕ → Option ℕ → ℕ
width_or w none = w
width_or w (some n) = n

abbrev pub zeropad_or : (flags : ℕ) → Option ℕ → ℕ
zeropad_or flags none = bit_or flags flg_zeropad
zeropad_or flags (some n) = flags

abbrev pub tail : List ℕ → List ℕ
tail [] = []
tail (c ∷ s) = s

module _ (fuel null_str end : ℕ) where
  -- A byte is cast to `char`.
  unfoldable pub print_char : Spec → (a : ℕ) → Output → Output
  print_char s a o =
      let n = width_or 0 s.field_width - 1 in
      if has s.flags flg_left
      then pad end n 32 (put end (u8 a) o)
      else put end (u8 a) (pad end n 32 o)

  -- `n` bytes from `p` on, which are read as they are by then.
  unfoldable pub copy_text : ℕ → (p : ℕ) → Output → Output
  copy_text zero p o = o
  copy_text (suc n) p o = copy_text n (p + 1) (put end (o.mem p) o)

  -- For strings shorter than 2 ^ 31, the range of `slen`.
  unfoldable pub print_string : Spec → (a : ℕ) → Output → Outcome Output
  print_string s a o = do
    let p = if ltb a page_size then null_str else a
    slen ← strlen fuel p o.mem
    let n = if has s.flags flg_left then 0 else width_or 0 s.field_width - slen
    done (copy_text slen p (pad end n 32 o))

  unfoldable pub print_pointer : Spec → (a : ℕ) → Output → Outcome Output
  print_pointer s a o =
      number end a 16 (width_or 16 s.field_width) s.precision (zeropad_or s.flags s.field_width) o

  unfoldable pub print_number : (base flags : ℕ) → Spec → (a : ℕ) → Output → Outcome Output
  print_number base flags s a o =
      number end (num_of s.qualifier flags a) base (width_or 0 s.field_width) s.precision flags o

  -- The bytes of a conversion that is not known, from the '%' on. Behind the end of the buffer the code
  -- advances `str` without bound and `fmt_begun_at` no more.
  unfoldable pub echo : ℕ → List ℕ → Output → Outcome Output
  echo zero fmt o = done o
  echo (suc n) [] o = done o
  echo (suc n) (c ∷ fmt) o =
      let rest = echo n fmt (put end c o) in if leb o.str end then rest else undef

  unfoldable pub print_unknown : (begun fmt : List ℕ) → Output → Outcome Output
  print_unknown begun fmt o = do
    o1 ← echo (length begun - length fmt) begun o
    done (elim fmt [ [] ↦ o1 | c ∷ rest ↦ put end c o1 ])

  -- A conversion that takes an argument.
  unfoldable pub with_arg :
      Spec → (ℕ → Output → Outcome Output) → Output → Outcome (Output × List ℕ × List ℕ)
  with_arg s print o = do a ← va_arg s.args; o1 ← print a.0 o; done (o1, tail s.fmt, a.1)

  -- The letters of the integers, and those that are not known.
  unfoldable pub convert_number :
      (begun : List ℕ) → Spec → Output → Outcome (Output × List ℕ × List ℕ)
  convert_number begun s o =
      let c = head_or_nul s.fmt in
      if c == 111
      then with_arg s (print_number 8 s.flags s) o
      else if c == 88
      then with_arg s (print_number 16 (bit_or s.flags flg_large) s) o
      else if c == 120
      then with_arg s (print_number 16 s.flags s) o
      else if (c == 100) || (c == 105)
      then with_arg s (print_number 10 (bit_or s.flags flg_sign) s) o
      else if c == 117
      then with_arg s (print_number 10 s.flags s) o
      else (print_unknown begun s.fmt o >>= λ o1. done (o1, tail s.fmt, s.args))

  -- The `switch` on the letter of the conversion: the output, the rest of the format and that of the
  -- arguments.
  unfoldable pub convert : (begun : List ℕ) → Spec → Output → Outcome (Output × List ℕ × List ℕ)
  convert begun s o =
      let c = head_or_nul s.fmt in
      if c == 99
      then with_arg s (λ a o1. done (print_char s a o1)) o
      else if c == 115
      then with_arg s (print_string s) o
      else if c == 112
      then with_arg s (print_pointer s) o
      else if c == 37
      then done (put end 37 o, tail s.fmt, s.args)
      else convert_number begun s o

  -- One round of the loop over a format that is not at its end.
  unfoldable pub format_step :
      (c : ℕ) (fmt args : List ℕ) → Output → Outcome (Output × List ℕ × List ℕ)
  format_step c fmt args o =
      if not (c == 37)
      then done (put end c o, fmt, args)
      else (get_spec fmt args >>= λ s. convert (c ∷ fmt) s o)

  unfoldable pub format : ℕ → (fmt args : List ℕ) → Output → Outcome Output
  format n [] args o = done o
  format zero (c ∷ fmt) args o = no_fuel
  format (suc n) (c ∷ fmt) args o = format_step c fmt args o >>= λ r. format n r.1 r.2 r.0

-- The memory and the returned `int`, as its 32 bits.
unfoldable pub vsnprintf :
    (fuel null_str buf size : ℕ) (fmt args : List ℕ) → Store → Outcome (Store × ℕ)
vsnprintf fuel null_str buf size0 fmt args m =
    let wraps = ltb (sub64 (buf + size0) 1) (sub64 buf 1) in
    let end = if wraps then 2 ^ 64 - 1 else sub64 (buf + size0) 1 in
    let size = if wraps then u64 (end - buf + 1) else size0 in
    format fuel null_str end (length fmt) fmt args (record { mem = m; str = buf })
    >>= within
    >>= λ o. done (
      (if leb o.str end
          then write o.mem o.str 0
          else if ltb 0 size
          then write o.mem end 0
          else o.mem),
      u32 (o.str - buf),
    )

-- `SIZE_MAX`.
abbrev pub size_max : ℕ
size_max = 2 ^ 64 - 1

unfoldable pub vsprintf : (fuel null_str buf : ℕ) (fmt args : List ℕ) → Store → Outcome (Store × ℕ)
vsprintf fuel null_str buf fmt args m = vsnprintf fuel null_str buf size_max fmt args m

-- `va_start` begins at the first argument behind the named ones.
unfoldable pub sprintf : (fuel null_str buf : ℕ) (fmt args : List ℕ) → Store → Outcome (Store × ℕ)
sprintf fuel null_str buf fmt args m = vsprintf fuel null_str buf fmt args m

unfoldable pub snprintf :
    (fuel null_str buf size : ℕ) (fmt args : List ℕ) → Store → Outcome (Store × ℕ)
snprintf fuel null_str buf size fmt args m = vsnprintf fuel null_str buf size fmt args m
