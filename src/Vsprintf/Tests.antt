-- ===== src/Vsprintf/Tests.antt =====
-- Small formats, in a buffer at 0x5000.
use tmos.Base.{ℕ, ◌≡◌, refl, List, [], ◌∷◌, map}
use tmos.Base.Outcome.{Outcome, done}
use tmos.Base.Store.{Store, write}
use tmos.Ctype.{ctype, has_class, isdigit}
use tmos.Vsprintf.Number.{
  Output, digit, digits_of, has, number, number_with, pad, prefix, put, puts, within, sign_of,
}
use tmos.Vsprintf.Format.{
  flag_of, star_precision, width_arg, precision_arg, precision_digits, get_flags, get_precision,
  get_qualifier, get_spec, get_width, head_or_nul, long_twice, num_of, skip_atoi, star_width,
}
use tmos.Vsprintf.Print.{
  convert, convert_number, copy_text, echo, format, format_step, print_char, print_number,
  print_pointer, print_string, print_unknown, vsnprintf, with_arg,
}

abbrev blank : Store
blank p = 7

abbrev memory_of : Outcome (Store × ℕ) → Store
memory_of (done r) = r.0
memory_of other = blank

-- "%+4d|%#x" of -42 and 255 is " -42|0xff", of which five bytes fit.
abbrev fmt : List ℕ
fmt = 37 ∷ 43 ∷ 52 ∷ 100 ∷ 124 ∷ 37 ∷ 35 ∷ 120 ∷ []

abbrev args : List ℕ
args = 18446744073709551574 ∷ 255 ∷ []

abbrev cut : Store
cut = memory_of (vsnprintf 10 0x8000 0x5000 6 fmt args blank)

cut_bytes :
    map cut (0x4fff ∷ 0x5000 ∷ 0x5001 ∷ 0x5002 ∷ 0x5003 ∷ 0x5004 ∷ 0x5005 ∷ 0x5006 ∷ [])
    ≡ 7 ∷ 32 ∷ 45 ∷ 52 ∷ 50 ∷ 124 ∷ 0 ∷ 7 ∷ []
unfolding vsnprintf format format_step convert convert_number with_arg print_char print_number
    print_pointer print_string copy_text echo print_unknown get_spec get_flags flag_of get_width
    star_width get_precision star_precision width_arg precision_arg precision_digits get_qualifier
    long_twice num_of skip_atoi head_or_nul number number_with sign_of digits_of digit prefix has
    put within pad puts write isdigit has_class ctype
cut_bytes = refl

abbrev begun : Output
begun = record { mem = blank; str = 0x5000 }
