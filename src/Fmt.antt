-- ===== src/Fmt.antt =====
-- The formatted output of bootloader/stage2/util/fmt.c. A text is the list of its bytes before the NUL.
-- The result is the list of the texts that the callback is given, in order; `buf` between two calls is
-- the list of its first `buf_idx` bytes.
pub mod Ends
pub mod Rounds
pub mod Items
pub mod Numerals
pub mod Numbers
pub mod Output
pub mod Returns
mod Tests
use tmos.Base.{
  ℕ, zero, suc, ◌+◌, ◌-◌, ◌*◌, ◌^◌, List, [], ◌∷◌, ◌++◌, Bool, true, false, not, ◌&&◌, ◌||◌, ltb,
  leb, ◌==◌, if◌then◌else◌, length,
}
use tmos.Base.Int.{ℤ, pos, negsuc}
use tmos.Base.Outcome.{Outcome, done, undef, no_fuel, ◌>>=◌}
use tmos.Base.Word.{u8}
use tmos.IntUtil.{utoa, ulltoa, itoa, lltoa}

abbrev pub Text : Type 0
Text = List ℕ

-- What `va_arg` takes: 32 bits, 64 bits, or a pointer to a text.
pub data Arg : Type 0 where
  word : ℕ → Arg
  long : ℕ → Arg
  text : Text → Arg

-- What a callback reads from a buffer.
unfoldable pub until_nul : Text → Text
until_nul [] = []
until_nul (c ∷ cs) = let rest = until_nul cs in if c == 0 then [] else c ∷ rest

abbrev pub first : Text → ℕ
first [] = 0
first (c ∷ _) = c

abbrev pub rest_of : Text → Text
rest_of [] = []
rest_of (_ ∷ cs) = cs

-- A call of the callback before the rest.
abbrev pub emit : Text → Outcome (List Text) → Outcome (List Text)
emit s rest = rest >>= λ out. done (s ∷ out)

-- `if (buf_idx > 0) _flush_buf(cb, buf, &buf_idx);`
abbrev pub flush : Text → Outcome (List Text) → Outcome (List Text)
flush [] rest = rest
flush (c ∷ cs) rest = emit (until_nul (c ∷ cs)) rest

unfoldable pub is_digit : ℕ → Bool
is_digit c = leb 48 c && leb c 57

-- `fmt + n`, which is undefined behind the NUL.
unfoldable pub advance : ℕ → Text → Outcome Text
advance zero fmt = done fmt
advance (suc n) [] = undef
advance (suc n) (_ ∷ cs) = advance n cs

-- The loop that copies text up to a '%', with the room left in `buf`: the bytes and what follows.
unfoldable pub copy_plain : ℕ → Text → Text × Text
copy_plain zero fmt = ([], fmt)
copy_plain (suc room) [] = ([], [])
copy_plain (suc room) (c ∷ cs) =
    let (copied, rest) = copy_plain room cs in if c == 37 then ([], c ∷ cs) else (c ∷ copied, rest)

-- The loop that copies the digits of a width.
unfoldable pub copy_digits : ℕ → Text → Text × Text
copy_digits zero fmt = ([], fmt)
copy_digits (suc room) [] = ([], [])
copy_digits (suc room) (c ∷ cs) =
    let (copied, rest) = copy_digits room cs in
    if is_digit c then (c ∷ copied, rest) else ([], c ∷ cs)

-- `atoi` of digits; an `int` that overflows is undefined.
unfoldable pub atoi : (res : ℕ) → Text → Outcome ℕ
atoi res [] = done res
atoi res (c ∷ cs) =
    let res' = res * 10 + (c - 48) in
    let rest = atoi res' cs in if ltb res' (2 ^ 31) then rest else undef

-- `size_override`, `zero_pad` and `width`.
pub record Field : Type 0 where
  pub size_override : Bool
  pub zero_pad : Bool
  pub width : ℕ

-- The width specification, and the format behind it.
unfoldable pub get_field : Text → Outcome (Field × Text)
get_field fmt =
    if not (is_digit (first fmt))
    then done (record { size_override = false; zero_pad = false; width = 0 }, fmt)
    else (let zero_pad = first fmt == 48 in
        let (digits, rest) = copy_digits 31 (if zero_pad then rest_of fmt else fmt) in
        atoi 0 digits >>= λ width.
        done (record { size_override = true; zero_pad = zero_pad; width = width }, rest))

-- The value of an `int` or an `int64_t` of `w + 1` bits.
unfoldable pub signed : (w : ℕ) → ℕ → ℤ
signed w n = if ltb n (2 ^ w) then pos n else negsuc (2 ^ w * 2 - 1 - n)

abbrev pub is_conversion : ℕ → Bool
is_conversion c = (c == 100) || (c == 117) || (c == 111) || (c == 120)

abbrev pub base_of : ℕ → ℕ
base_of c = if c == 111 then 8 else if c == 120 then 16 else 10

-- The text of a number, with its NUL: `wide` is `intlevel == 2`.
unfoldable pub number_text : (conversion : ℕ) → (wide : Bool) → Arg → Outcome Text
number_text c false (word n) = if c == 100 then itoa (signed 31 n) 10 else utoa n (base_of c)
number_text c true (long n) = if c == 100 then lltoa (signed 63 n) 10 else ulltoa n (base_of c)
number_text c _ _ = undef

abbrev pub repeat : ℕ → ℕ → Text
repeat zero c = []
repeat (suc n) c = c ∷ repeat n c

-- The number in its field. `buf` has 64 bytes.
unfoldable pub pad_number : Field → Text → Outcome Text
pad_number f buf =
    let shown = until_nul buf in
    if not (f.size_override && ltb (length shown) f.width)
    then done shown
    else if ltb f.width 64
    then done (repeat (f.width - length shown) (if f.zero_pad then 48 else 32) ++ shown)
    else undef

-- What follows one round of the loop.
abbrev pub Rest : Type 0
Rest = (buf fmt : Text) → List Arg → Outcome (List Text)

-- The branch for text. The index into the format starts at `buf_idx`.
unfoldable pub write_text : Rest → (buf fmt : Text) → List Arg → Outcome (List Text)
write_text next buf fmt args =
    advance (length buf) (if first fmt == 37 then rest_of fmt else fmt) >>= λ from.
    let (copied, rest) = copy_plain (63 - length buf) from in
    emit (until_nul (buf ++ copied)) (next [] rest args)

-- A number: `rest` starts with the conversion.
unfoldable pub write_number :
    Rest → Field → (wide : Bool) → (buf rest : Text) → List Arg → Outcome (List Text)
write_number next f wide buf rest [] = undef
write_number next f wide buf rest (arg ∷ args) = flush buf (
    number_text (first rest) wide arg >>= pad_number f >>= λ s.
    emit s (next [] (rest_of rest) args))

unfoldable pub write_char : Rest → (buf rest : Text) → List Arg → Outcome (List Text)
write_char next buf rest (word n ∷ args) =
    if length buf == 63
    then flush buf (next (u8 n ∷ []) (rest_of rest) args)
    else next (buf ++ (u8 n ∷ [])) (rest_of rest) args
write_char next buf rest _ = undef

unfoldable pub write_string : Rest → (buf rest : Text) → List Arg → Outcome (List Text)
write_string next buf rest (text s ∷ args) = flush buf (emit s (next [] (rest_of rest) args))
write_string next buf rest _ = undef

-- A conversion that is not known ends the output with the format from its '%' on.
abbrev pub give_up : (buf fmt : Text) → Outcome (List Text)
give_up buf fmt = flush buf (emit fmt (done []))

-- The length of an integer: `ll`, and what follows.
unfoldable pub get_length : Text → Bool × Text
get_length rest = if first rest == 108 then (true, rest_of rest) else (false, rest)

-- `switch (*fmt)`, behind the width.
unfoldable pub write_conversion :
    Rest → (fmt : Text) → Field → (buf rest : Text) → List Arg → Outcome (List Text)
write_conversion next fmt f buf rest args =
    let c = first rest in
    let (wide, number) = get_length (rest_of rest) in
    if c == 108
    then (if is_conversion (first number)
        then write_number next f wide buf number args
        else give_up buf fmt)
    else if is_conversion c
    then write_number next f false buf rest args
    else if c == 99
    then write_char next buf rest args
    else if c == 115
    then write_string next buf rest args
    else give_up buf fmt

-- One round of the loop, at a byte that is not the NUL.
unfoldable pub fmt_round : Rest → (buf fmt : Text) → List Arg → Outcome (List Text)
fmt_round next buf fmt args =
    if not (first fmt == 37) || (first (rest_of fmt) == 37)
    then write_text next buf fmt args
    else (get_field (rest_of fmt) >>= λ r. write_conversion next fmt r.0 buf r.1 args)

-- `fmt_write` with its loop on fuel.
unfoldable pub fmt_write : ℕ → (buf fmt : Text) → List Arg → Outcome (List Text)
fmt_write zero buf fmt args = no_fuel
fmt_write (suc fuel) buf [] args = flush buf (done [])
fmt_write (suc fuel) buf (c ∷ cs) args = fmt_round (fmt_write fuel) buf (c ∷ cs) args
