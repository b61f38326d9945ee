-- ===== src/Fmt/Output.antt =====
-- The output of `fmt_write` against the meaning of its format.
use tmos.Base.{
  ℕ, zero, suc, ◌≤◌, ◌<◌, ◌≡◌, ◌≢◌, refl, ap, sym, ◌∙◌, List, [], ◌∷◌, ◌++◌, false, arith, ◌==◌,
  length,
}
use tmos.Base.Outcome.{Outcome, done, panic, undef, no_fuel, ◌>>=◌}
use tmos.Fmt.{
  Text, Arg, text, until_nul, emit, is_digit, advance, copy_plain, get_field, Rest, get_length,
  number_text, write_text, write_string, write_conversion, fmt_round, fmt_write,
}
use tmos.Fmt.Numerals.{number_text-meaning}
use tmos.Fmt.Items.{
  Item, plain, string, number, format_of, number_arg, arguments, padded, rendered, AreItems,
}
use tmos.Fmt.Numbers.{fmt_round-number}

-- The texts of the calls, one behind the other.
abbrev pub joined : List Text → Text
joined [] = []
joined (s ∷ ss) = s ++ joined ss

abbrev join : Outcome (List Text) → Outcome Text
join m = m >>= λ out. done (joined out)

abbrev behind_text : Text → Outcome Text → Outcome Text
behind_text s m = m >>= λ t. done (s ++ t)

join-emit : (s : Text) (m : Outcome (List Text)) → join (emit s m) ≡ behind_text s (join m)
join-emit s (done out) = refl
join-emit s panic = refl
join-emit s undef = refl
join-emit s no_fuel = refl

behind_none : (m : Outcome Text) → behind_text [] m ≡ m
behind_none (done t) = refl
behind_none panic = refl
behind_none undef = refl
behind_none no_fuel = refl

behind_more :
    (c : ℕ) (s : Text) (m : Outcome Text)
    → behind_text (c ∷ []) (behind_text s m) ≡ behind_text (c ∷ s) m
behind_more c s (done t) = refl
behind_more c s panic = refl
behind_more c s undef = refl
behind_more c s no_fuel = refl

join-bind :
    {A : Type 0} (m : Outcome A) (f : A → Outcome (List Text))
    → join (m >>= f) ≡ (m >>= λ a. join (f a))
join-bind (done a) f = refl
join-bind panic f = refl
join-bind undef f = refl
join-bind no_fuel f = refl

-- What the loop over text leaves of the items.
record Copied (room : ℕ) (items : List Item) : Type 0 where
  copied : Text
  others : List Item
  parts : copy_plain room (format_of items) ≡ (copied, format_of others)
  args : arguments items ≡ arguments others
  whole : until_nul copied ≡ copied
  output : rendered items ≡ behind_text copied (rendered others)
  valid : AreItems others
  shorter : length others ≤ length items

none_Copied :
    (room : ℕ) (items : List Item)
    → AreItems items
    → copy_plain room (format_of items) ≡ ([], format_of items)
    → Copied room items
unfolding until_nul
none_Copied room items v e = record {
  copied = [];
  others = items;
  parts = e;
  args = refl;
  whole = refl;
  output = sym (behind_none (rendered items));
  valid = v;
  shorter = omega arith;
}

copy_plain-more :
    (room c : ℕ) (cs copied rest : Text)
    → c ≢ 37
    → copy_plain room cs ≡ (copied, rest)
    → copy_plain (suc room) (c ∷ cs) ≡ (c ∷ copied, rest)
unfolding copy_plain
copy_plain-more room c cs copied rest no_percent e =
    let other : (c == 37) ≡ false = ground arith in rw (e, other) refl

until_nul-more : (c : ℕ) (cs : Text) → c ≢ 0 → until_nul cs ≡ cs → until_nul (c ∷ cs) ≡ c ∷ cs
unfolding until_nul
until_nul-more c cs nonzero e =
    let visible : (c == 0) ≡ false = ground arith in rw (visible, e) refl

more_Copied :
    (room c : ℕ) (items : List Item)
    → c ≢ 37
    → c ≢ 0
    → Copied room items
    → Copied (suc room) (plain c ∷ items)
more_Copied room c items no_percent nonzero k = record {
  copied = c ∷ k.copied;
  others = k.others;
  parts = copy_plain-more room c (format_of items) k.copied (format_of k.others) no_percent k.parts;
  args = k.args;
  whole = until_nul-more c k.copied nonzero k.whole;
  output = ap (behind_text (c ∷ [])) k.output ∙ behind_more c k.copied (rendered k.others);
  valid = k.valid;
  shorter = omega (arith, k.shorter);
}

copy_plain-Copied : (room : ℕ) (items : List Item) → AreItems items → Copied room items
unfolding copy_plain
copy_plain-Copied zero items v = none_Copied zero items v refl
copy_plain-Copied (suc room) [] v = none_Copied (suc room) [] v refl
copy_plain-Copied (suc room) (plain c ∷ items) v =
    more_Copied room c items v.0.0 v.0.1 (copy_plain-Copied room items v.1)
copy_plain-Copied (suc room) (string s ∷ items) v = none_Copied (suc room) (string s ∷ items) v refl
copy_plain-Copied (suc room) (number w wide c n ∷ items) v =
    none_Copied (suc room) (number w wide c n ∷ items) v refl

-- A round of the loop at text.
fmt_round-plain :
    (next : Rest) (c : ℕ) (items : List Item) (k : Copied 62 items)
    → c ≢ 37
    → c ≢ 0
    → fmt_round next [] (c ∷ format_of items) (arguments items)
      ≡ emit (c ∷ k.copied) (next [] (format_of k.others) (arguments k.others))
unfolding fmt_round write_text advance
fmt_round-plain next c items k no_percent nonzero =
    let other : (c == 37) ≡ false = ground arith in
    rw
      (
        other,
        copy_plain-more 62 c (format_of items) k.copied (format_of k.others) no_percent k.parts,
        until_nul-more c k.copied nonzero k.whole,
        k.args,
      )
      refl

fmt_round-string :
    (next : Rest) (s cs : Text) (args : List Arg)
    → fmt_round next [] (37 ∷ 115 ∷ cs) (text s ∷ args) ≡ emit s (next [] cs args)
unfolding fmt_round get_field is_digit write_conversion get_length write_string
fmt_round-string next s cs args = refl

bind_read :
    (m : Outcome Text) (f : Text → Outcome Text)
    → (m >>= λ buf. f (until_nul buf)) ≡ ((m >>= λ buf. done (until_nul buf)) >>= f)
bind_read (done buf) f = refl
bind_read panic f = refl
bind_read undef f = refl
bind_read no_fuel f = refl

-- For a format of characters, `%s`, and the conversions d, u, o and x with or without "ll" and with a
-- width below 64, `fmt_write` gives its callback texts that are, one behind the other, the meaning of
-- the format: the characters themselves, the texts, and the numerals of the numbers, decimal and with
-- a '-' if negative for d, decimal for u, octal for o and hexadecimal for x, with spaces or zeros in
-- front up to the width. A '%' and a NUL are not characters of such a format, and a number fits its
-- argument. Fuel for one round more than the format has items is enough; with the least number under d
-- the output is undefined.
pub fmt_write-rendered :
    (fuel : ℕ) (items : List Item)
    → AreItems items
    → length items < fuel
    → (fmt_write fuel [] (format_of items) (arguments items) >>= λ out. done (joined out))
      ≡ rendered items
unfolding fmt_write
fmt_write-rendered zero items v enough = absurd (omega arith)
fmt_write-rendered (suc fuel) [] v enough = refl
fmt_write-rendered (suc fuel) (plain c ∷ items) v enough =
    let k = copy_plain-Copied 62 items v.1 in
    ap join (fmt_round-plain (fmt_write fuel) c items k v.0.0 v.0.1)
    ∙ join-emit (c ∷ k.copied) (fmt_write fuel [] (format_of k.others) (arguments k.others))
    ∙ ap (behind_text (c ∷ k.copied))
        (fmt_write-rendered fuel k.others k.valid (omega (arith, k.shorter)))
    ∙ sym (ap (behind_text (c ∷ [])) k.output ∙ behind_more c k.copied (rendered k.others))
fmt_write-rendered (suc fuel) (string s ∷ items) v enough =
    ap join (fmt_round-string (fmt_write fuel) s (format_of items) (arguments items))
    ∙ join-emit s (fmt_write fuel [] (format_of items) (arguments items))
    ∙ ap (behind_text s) (fmt_write-rendered fuel items v.1 (omega arith))
fmt_write-rendered (suc fuel) (number w wide c n ∷ items) v enough =
    let read = number_text c wide (number_arg wide n) in
    let rest = fmt_write fuel [] (format_of items) (arguments items) in
    let same = fmt_write-rendered fuel items v.1 (omega arith) in
    ap join (
      fmt_round-number (fmt_write fuel) w wide c (format_of items) (number_arg wide n)
        (arguments items) v.0.0 v.0.1)
    ∙ join-bind read (λ buf. emit (padded w (until_nul buf)) rest)
    ∙ ap (λ f. read >>= f)
        (λ i buf.
          (join-emit (padded w (until_nul buf)) rest
              ∙ ap (behind_text (padded w (until_nul buf))) same)
            i)
    ∙ bind_read read (λ s. behind_text (padded w s) (rendered items))
    ∙ ap (λ m. m >>= λ s. behind_text (padded w s) (rendered items))
        (number_text-meaning wide c n v.0.1 v.0.2)
