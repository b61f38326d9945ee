-- ===== src/Fmt/Tests.antt =====
-- "a=%08llx %s", and two formats with characters that are lost.
use tmos.Base.{◌≡◌, refl, List, [], ◌∷◌, arith, true}
use tmos.Base.Outcome.{done, ◌>>=◌}
use tmos.IntUtil.{utoa, itoa, fill_tmp}
use tmos.Fmt.{
  word, until_nul, is_digit, advance, copy_plain, get_field, signed, number_text, pad_number,
  write_text, write_number, write_char, get_length, write_conversion, fmt_round, fmt_write,
}
use tmos.Fmt.Items.{
  Item, plain, string, number, zeros, numeral, format_of, arguments, rendered, AreItems,
}
use tmos.Fmt.Output.{joined, fmt_write-rendered}

abbrev items : List Item
items =
    plain 97 ∷ plain 61 ∷ number (zeros 8) true 120 0xabc ∷ plain 32 ∷ string (111 ∷ 107 ∷ []) ∷ []

items-AreItems : AreItems items
items-AreItems = (
  (omega arith, omega arith),
  (
    (omega arith, omega arith),
    ((omega arith, refl, omega arith), ((omega arith, omega arith), (tt, tt))),
  ),
)

fmt_write-rendered_example :
    (fmt_write 6 [] (format_of items) (arguments items) >>= λ out. done (joined out))
    ≡ rendered items
fmt_write-rendered_example = fmt_write-rendered 6 items items-AreItems (omega arith)

-- a=00000abc ok
rendered-items :
    rendered items ≡ done (97 ∷ 61 ∷ 48 ∷ 48 ∷ 48 ∷ 48 ∷ 48 ∷ 97 ∷ 98 ∷ 99 ∷ 32 ∷ 111 ∷ 107 ∷ [])
unfolding numeral
rendered-items = refl

-- "%%d" is taken for an empty text and the conversion "%d".
percent_percent : fmt_write 4 [] (37 ∷ 37 ∷ 100 ∷ []) (word 7 ∷ []) ≡ done ([] ∷ (55 ∷ []) ∷ [])
unfolding fmt_write fmt_round write_text advance copy_plain until_nul get_field is_digit
    write_conversion get_length write_number number_text signed itoa utoa fill_tmp pad_number
percent_percent = refl

-- The 'X' behind "%c" is skipped.
char_text : fmt_write 4 [] (37 ∷ 99 ∷ 88 ∷ []) (word 65 ∷ []) ≡ done ((65 ∷ []) ∷ [])
unfolding fmt_write fmt_round write_text advance copy_plain until_nul get_field is_digit
    write_conversion get_length write_char
char_text = refl
