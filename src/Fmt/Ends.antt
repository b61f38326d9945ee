-- ===== src/Fmt/Ends.antt =====
-- The loop of `fmt_write` ends.
use tmos.Base.{
  ℕ, zero, suc, ◌+◌, ◌*◌, ◌-◌, ◌≤◌, ◌<◌, ◌≡◌, ◌≢◌, ap, List, [], ◌∷◌, Bool, true, false, not, ◌||◌,
  ◌&&◌, arith, ltb, ◌==◌, length,
}
use tmos.Base.Int.{ℤ, pos, negsuc}
use tmos.Base.Outcome.{Outcome, done, no_fuel, ◌>>=◌, done-injective, >>=-ends, if-ends}
use tmos.IntUtil.{fill_tmp, utoa, ulltoa, itoa, lltoa}
use tmos.Fmt.{
  Text, Arg, word, long, text, until_nul, first, rest_of, emit, flush, advance, copy_plain,
  copy_digits, atoi, Field, signed, number_text, pad_number, Rest, write_number, write_char,
  write_string, give_up,
}

fill_tmp-ends : (room base val : ℕ) (tmp : Text) → fill_tmp room base val tmp ≢ no_fuel
unfolding fill_tmp
fill_tmp-ends zero base val tmp = if-ends (val == 0) _ _ (λ _ e. cc) (λ _ e. cc)
fill_tmp-ends (suc room) base val tmp =
    if-ends (val == 0) _ _ (λ _ e. cc) (λ _. fill_tmp-ends room base _ _)

utoa-ends : (val base : ℕ) → utoa val base ≢ no_fuel
unfolding utoa
utoa-ends val base =
    if-ends ((val == 0) || (base == 0) || ltb 16 base) _ _ (λ _ e. cc)
      (λ _. >>=-ends (fill_tmp 32 base val []) _ (fill_tmp-ends 32 base val []) (λ _ e. cc))

ulltoa-ends : (val base : ℕ) → ulltoa val base ≢ no_fuel
unfolding ulltoa
ulltoa-ends val base =
    if-ends ((val == 0) || (base == 0) || ltb 16 base) _ _ (λ _ e. cc)
      (λ _. >>=-ends (fill_tmp 64 base val []) _ (fill_tmp-ends 64 base val []) (λ _ e. cc))

itoa-ends : (n : ℤ) (base : ℕ) → itoa n base ≢ no_fuel
unfolding itoa
itoa-ends (pos n) base = utoa-ends n base
itoa-ends (negsuc n) base =
    if-ends ((base == 0) || ltb 16 base) _ _ (λ _ e. cc)
      (λ _.
        if-ends (not (base == 10)) _ _ (λ _. utoa-ends _ base)
          (λ _.
            if-ends (n == 2147483647) _ _ (λ _ e. cc)
              (λ _. >>=-ends (utoa (n + 1) base) _ (utoa-ends (n + 1) base) (λ _ e. cc))))

lltoa-ends : (n : ℤ) (base : ℕ) → lltoa n base ≢ no_fuel
unfolding lltoa
lltoa-ends (pos n) base = ulltoa-ends n base
lltoa-ends (negsuc n) base =
    if-ends ((base == 0) || ltb 16 base) _ _ (λ _ e. cc)
      (λ _.
        if-ends (not (base == 10)) _ _ (λ _. ulltoa-ends _ base)
          (λ _.
            if-ends (n == 9223372036854775807) _ _ (λ _ e. cc)
              (λ _. >>=-ends (ulltoa (n + 1) base) _ (ulltoa-ends (n + 1) base) (λ _ e. cc))))

number_text-ends : (c : ℕ) (wide : Bool) (arg : Arg) → number_text c wide arg ≢ no_fuel
unfolding number_text
number_text-ends c false (word n) =
    if-ends (c == 100) _ _ (λ _. itoa-ends (signed 31 n) 10) (λ _. utoa-ends n _)
number_text-ends c false (long n) = λ e. cc
number_text-ends c false (text s) = λ e. cc
number_text-ends c true (word n) = λ e. cc
number_text-ends c true (long n) =
    if-ends (c == 100) _ _ (λ _. lltoa-ends (signed 63 n) 10) (λ _. ulltoa-ends n _)
number_text-ends c true (text s) = λ e. cc

pad_number-ends : (f : Field) (buf : Text) → pad_number f buf ≢ no_fuel
unfolding pad_number
pad_number-ends f buf =
    if-ends (not (f.size_override && ltb (length (until_nul buf)) f.width)) _ _ (λ _ e. cc)
      (λ _. if-ends (ltb f.width 64) _ _ (λ _ e. cc) (λ _ e. cc))

pub atoi-ends : (res : ℕ) (cs : Text) → atoi res cs ≢ no_fuel
unfolding atoi
atoi-ends res [] = λ e. cc
atoi-ends res (c ∷ cs) =
    if-ends (ltb (res * 10 + (c - 48)) 2147483648) _ _ (λ _. atoi-ends (res * 10 + (c - 48)) cs)
      (λ _ e. cc)

pub advance-ends : (n : ℕ) (fmt : Text) → advance n fmt ≢ no_fuel
unfolding advance
advance-ends zero fmt = λ e. cc
advance-ends (suc n) [] = λ e. cc
advance-ends (suc n) (c ∷ cs) = advance-ends n cs

pub emit-ends : (s : Text) (m : Outcome (List Text)) → m ≢ no_fuel → emit s m ≢ no_fuel
emit-ends s m h = >>=-ends m _ h (λ _ e. cc)

pub flush-ends : (buf : Text) (m : Outcome (List Text)) → m ≢ no_fuel → flush buf m ≢ no_fuel
flush-ends [] m h = h
flush-ends (c ∷ cs) m h = emit-ends (until_nul (c ∷ cs)) m h

-- The pieces of the loop leave less of the format.
pub advance-length :
    (n : ℕ) (fmt from : Text) → advance n fmt ≡ done from → length from + n ≡ length fmt
unfolding advance
advance-length zero fmt from e = let same = ap length (done-injective e) in omega (arith, same)
advance-length (suc n) [] from e = cc
advance-length (suc n) (c ∷ cs) from e = omega (arith, advance-length n cs from e)

pub copy_plain-length : (room : ℕ) (fmt : Text) → length ((copy_plain room fmt).1) ≤ length fmt
unfolding copy_plain
copy_plain-length zero fmt = omega arith
copy_plain-length (suc room) [] = omega arith
copy_plain-length (suc room) (c ∷ cs) = ground (arith, copy_plain-length room cs)

pub copy_digits-length : (room : ℕ) (fmt : Text) → length ((copy_digits room fmt).1) ≤ length fmt
unfolding copy_digits
copy_digits-length zero fmt = omega arith
copy_digits-length (suc room) [] = omega arith
copy_digits-length (suc room) (c ∷ cs) = ground (arith, copy_digits-length room cs)

pub rest_of-length : (fmt : Text) → length (rest_of fmt) ≤ length fmt
rest_of-length [] = omega arith
rest_of-length (c ∷ cs) = omega arith

-- The loop returns from every shorter format.
abbrev pub EndsBelow : Rest → ℕ → Type 0
EndsBelow next n = (buf fmt : Text) (args : List Arg) → length fmt < n → next buf fmt args ≢ no_fuel

pub write_number-ends :
    (next : Rest) (n : ℕ) (f : Field) (wide : Bool) (buf rest : Text) (args : List Arg)
    → EndsBelow next n
    → length rest < n
    → write_number next f wide buf rest args ≢ no_fuel
unfolding write_number
write_number-ends next n f wide buf rest [] ends less = λ e. cc
write_number-ends next n f wide buf rest (arg ∷ args) ends less = flush-ends buf _ (
    >>=-ends (number_text (first rest) wide arg >>= pad_number f) _
      (>>=-ends (number_text (first rest) wide arg) _ (number_text-ends (first rest) wide arg)
        (pad_number-ends f))
      (λ s. emit-ends s _ (ends [] (rest_of rest) args (omega (arith, rest_of-length rest)))))

pub write_char-ends :
    (next : Rest) (n : ℕ) (buf rest : Text) (args : List Arg)
    → EndsBelow next n
    → length rest < n
    → write_char next buf rest args ≢ no_fuel
unfolding write_char
write_char-ends next n buf rest [] ends less = λ e. cc
write_char-ends next n buf rest (word c ∷ args) ends less =
    if-ends (length buf == 63) _ _
      (λ _. flush-ends buf _ (ends _ (rest_of rest) args (omega (arith, rest_of-length rest))))
      (λ _. ends _ (rest_of rest) args (omega (arith, rest_of-length rest)))
write_char-ends next n buf rest (long c ∷ args) ends less = λ e. cc
write_char-ends next n buf rest (text c ∷ args) ends less = λ e. cc

pub write_string-ends :
    (next : Rest) (n : ℕ) (buf rest : Text) (args : List Arg)
    → EndsBelow next n
    → length rest < n
    → write_string next buf rest args ≢ no_fuel
unfolding write_string
write_string-ends next n buf rest [] ends less = λ e. cc
write_string-ends next n buf rest (word c ∷ args) ends less = λ e. cc
write_string-ends next n buf rest (long c ∷ args) ends less = λ e. cc
write_string-ends next n buf rest (text s ∷ args) ends less =
    flush-ends buf _
      (emit-ends s _ (ends [] (rest_of rest) args (omega (arith, rest_of-length rest))))

none-ends : ◌≢◌ {A = Outcome (List Text)} (done []) no_fuel
none-ends e = cc

pub give_up-ends : (buf fmt : Text) → give_up buf fmt ≢ no_fuel
give_up-ends buf fmt = flush-ends buf _ (emit-ends fmt (done []) none-ends)

pub last_flush-ends : (buf : Text) → flush buf (done []) ≢ no_fuel
last_flush-ends buf = flush-ends buf (done []) none-ends
