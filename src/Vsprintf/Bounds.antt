-- ===== src/Vsprintf/Bounds.antt =====
-- `vsnprintf` stays in its buffer and ends it with a NUL.
use mathlib.Core.Path.{subst}
use native.Mathlib.Decide.{ℕ_discrete}
use tmos.Base.{
  ℕ, zero, suc, ◌+◌, ◌-◌, ◌^◌, ◌≤◌, ◌<◌, ◌≡◌, ◌⊎◌, inl, inr, refl, ap, sym, ◌∙◌, List, [], ◌∷◌,
  false, not, ◌||◌, arith, ltb, leb, ◌==◌, if◌then◌else◌, length, min, Bool-cases,
}
use tmos.Base.Outcome.{Outcome, done, undef, ◌>>=◌, >>=-eq-done, if-eq-done, done-injective}
use tmos.Base.Store.{Store, write}
use tmos.Base.Word.{u8, u32, sub64}
use tmos.System.{page_size}
use tmos.Libc.Strings.{strlen}
use tmos.Vsprintf.Number.{flg_left, Output, put, within, has}
use tmos.Vsprintf.Format.{Spec, va_arg, head_or_nul, get_spec}
use tmos.Vsprintf.Print.{
  width_or, print_char, copy_text, print_string, print_pointer, print_number, echo, print_unknown,
  with_arg, convert, format_step, format, vsnprintf, tail, convert_number,
}
use tmos.Vsprintf.Inside.{Inside, Inside-refl, Inside-trans, put-Inside, pad-Inside, number-Inside}

module _ (fuel null_str end : ℕ) where
  -- A step that keeps inside, whatever it prints.
  abbrev Keeps : (Output → Outcome Output) → Type 0
  Keeps print = (o p : Output) → print o ≡ done p → Inside end o p

  print_char-Inside :
      (s : Spec) (a : ℕ) (o : Output) → Inside end o (print_char fuel null_str end s a o)
  unfolding print_char
  print_char-Inside s a o = elim (Bool-cases (has s.flags flg_left)) [
    | inl left ↦ rw left (
        Inside-trans end o _ _ (put-Inside end (u8 a) o)
          (pad-Inside end (width_or 0 s.field_width - 1) 32 _))
    | inr right ↦ rw right (
        Inside-trans end o _ _ (pad-Inside end (width_or 0 s.field_width - 1) 32 o)
          (put-Inside end (u8 a) _))
  ]

  copy_text-Inside : (n p : ℕ) (o : Output) → Inside end o (copy_text fuel null_str end n p o)
  unfolding copy_text
  copy_text-Inside zero p o = Inside-refl end o
  copy_text-Inside (suc n) p o =
      Inside-trans end o _ _ (put-Inside end (o.mem p) o) (copy_text-Inside n (p + 1) _)

  print_string-Inside : (s : Spec) (a : ℕ) → Keeps (print_string fuel null_str end s a)
  unfolding print_string
  print_string-Inside s a o p e =
      let (slen, found, rest) =
        >>=-eq-done (strlen fuel (if ltb a page_size then null_str else a) o.mem) _ e in
      subst (Inside end o) (done-injective rest)
        (Inside-trans end o _ _ (pad-Inside end _ 32 o) (copy_text-Inside slen _ _))

  print_pointer-Inside : (s : Spec) (a : ℕ) → Keeps (print_pointer fuel null_str end s a)
  unfolding print_pointer
  print_pointer-Inside s a o p e = number-Inside end a 16 _ _ _ o p refl e

  print_number-Inside :
      (base flags : ℕ) (s : Spec) (a : ℕ)
      → (ltb base 2 || ltb 36 base) ≡ false
      → Keeps (print_number fuel null_str end base flags s a)
  unfolding print_number
  print_number-Inside base flags s a ok o p e = number-Inside end _ base _ _ _ o p ok e

  echo-Inside : (n : ℕ) (fmt : List ℕ) → Keeps (echo fuel null_str end n fmt)
  unfolding echo
  echo-Inside zero fmt o p e = subst (Inside end o) (done-injective e) (Inside-refl end o)
  echo-Inside (suc n) [] o p e = subst (Inside end o) (done-injective e) (Inside-refl end o)
  echo-Inside (suc n) (c ∷ fmt) o p e =
      if-eq-done (leb o.str end) (echo fuel null_str end n fmt (put end c o)) undef e
        (λ e'. Inside-trans end o _ p (put-Inside end c o) (echo-Inside n fmt _ p e')) (λ e'. cc)

  print_unknown-Inside : (begun fmt : List ℕ) → Keeps (print_unknown fuel null_str end begun fmt)
  unfolding print_unknown
  print_unknown-Inside begun [] o p e =
      let (q, echoed, rest) = >>=-eq-done _ _ e in
      subst (Inside end o) (done-injective rest) (echo-Inside _ begun o q echoed)
  print_unknown-Inside begun (c ∷ fmt) o p e =
      let (q, echoed, rest) = >>=-eq-done _ _ e in
      subst (Inside end o) (done-injective rest)
        (Inside-trans end o q _ (echo-Inside _ begun o q echoed) (put-Inside end c q))

  with_arg-Inside :
      (s : Spec) (print : ℕ → Output → Outcome Output)
      → ((a : ℕ) → Keeps (print a))
      → (o : Output) (r : Output × List ℕ × List ℕ) → with_arg fuel null_str end s print o ≡ done r
      → Inside end o r.0
  unfolding with_arg
  with_arg-Inside s print keeps o r e =
      let (a, taken, e1) = >>=-eq-done (va_arg s.args) _ e in
      let (p, printed, e2) = >>=-eq-done (print a.0 o) _ e1 in
      subst (λ x. Inside end o x.0) (done-injective e2) (keeps a.0 o p printed)

  convert_number-Inside :
      (begun : List ℕ) (s : Spec) (o : Output) (r : Output × List ℕ × List ℕ)
      → convert_number fuel null_str end begun s o ≡ done r
      → Inside end o r.0
  unfolding convert_number
  convert_number-Inside begun s o r e =
      let c = head_or_nul s.fmt in
      if-eq-done (c == 111) _ _ e (with_arg-Inside s _ (λ a. print_number-Inside 8 _ s a refl) o r)
        (λ e1.
          if-eq-done (c == 88) _ _ e1
            (with_arg-Inside s _ (λ a. print_number-Inside 16 _ s a refl) o r)
            (λ e2.
              if-eq-done (c == 120) _ _ e2
                (with_arg-Inside s _ (λ a. print_number-Inside 16 _ s a refl) o r)
                (λ e3.
                  if-eq-done ((c == 100) || (c == 105)) _ _ e3
                    (with_arg-Inside s _ (λ a. print_number-Inside 10 _ s a refl) o r)
                    (λ e4.
                      if-eq-done (c == 117) _ _ e4
                        (with_arg-Inside s _ (λ a. print_number-Inside 10 _ s a refl) o r)
                        unknown))))
    where
      unknown :
          (print_unknown fuel null_str end begun s.fmt o >>= λ o1. done (o1, tail s.fmt, s.args))
            ≡ done r
          → Inside end o r.0
      unknown h =
          let (p, printed, rest) =
            >>=-eq-done (print_unknown fuel null_str end begun s.fmt o) _ h in
          subst (λ x. Inside end o x.0) (done-injective rest)
            (print_unknown-Inside begun s.fmt o p printed)

  convert-Inside :
      (begun : List ℕ) (s : Spec) (o : Output) (r : Output × List ℕ × List ℕ)
      → convert fuel null_str end begun s o ≡ done r
      → Inside end o r.0
  unfolding convert
  convert-Inside begun s o r e =
      let c = head_or_nul s.fmt in
      if-eq-done (c == 99) _ _ e
        (with_arg-Inside s (λ a o1. done (print_char fuel null_str end s a o1))
          (λ a o1 p h. subst (Inside end o1) (done-injective h) (print_char-Inside s a o1)) o r)
        (λ e1. if-eq-done (c == 115) _ _ e1 (with_arg-Inside s _ (print_string-Inside s) o r) (λ e2.
          if-eq-done (c == 112) _ _ e2 (with_arg-Inside s _ (print_pointer-Inside s) o r) (λ e3.
            if-eq-done (c == 37) _ _ e3
              (λ h. subst (λ x. Inside end o x.0) (done-injective h) (put-Inside end 37 o))
              (convert_number-Inside begun s o r))))

  pub format_step-Inside :
      (c : ℕ) (fmt args : List ℕ) (o : Output) (r : Output × List ℕ × List ℕ)
      → format_step fuel null_str end c fmt args o ≡ done r
      → Inside end o r.0
  unfolding format_step
  format_step-Inside c fmt args o r e =
      if-eq-done (not (c == 37)) _ _ e
        (λ h. subst (λ x. Inside end o x.0) (done-injective h) (put-Inside end c o))
        (λ h.
          let (s, read, rest) = >>=-eq-done (get_spec fmt args) _ h in
          convert-Inside (c ∷ fmt) s o r rest)

  format-Inside : (n : ℕ) (fmt args : List ℕ) → Keeps (format fuel null_str end n fmt args)
  unfolding format
  format-Inside n [] args o p e = subst (Inside end o) (done-injective e) (Inside-refl end o)
  format-Inside zero (c ∷ fmt) args o p e = cc
  format-Inside (suc n) (c ∷ fmt) args o p e =
      let (r, step, rest) = >>=-eq-done (format_step fuel null_str end c fmt args o) _ e in
      Inside-trans end o r.0 p (format_step-Inside c fmt args o r step)
        (format-Inside n r.1 r.2 r.0 p rest)

within-below : (o q : Output) → within o ≡ done q → (o ≡ q) × (q.str < 2 ^ 64)
unfolding within
within-below o q e =
    if-eq-done (ltb o.str (2 ^ 64)) (done o) undef e
      (λ h. elim (Bool-cases (ltb o.str (2 ^ 64))) [
        | inl room ↦
            let same = done-injective h in
            let below : o.str < 2 ^ 64 = ground arith in
            (same, subst (λ r. r.str < 2 ^ 64) same below)
        | inr full ↦ absurd (cc)
      ])
      (λ h. cc)

-- The NUL behind the output.
abbrev closed : (end size : ℕ) → Output → Store
closed end size o =
    if leb o.str end then write o.mem o.str 0 else if ltb 0 size then write o.mem end 0 else o.mem

closed-Inside :
    (buf size : ℕ) (m : Store) (o : Output)
    → 0 < buf
    → Inside (buf + size - 1) (record { mem = m; str = buf }) o
    → (a : ℕ) → (a < buf) ⊎ (buf + size ≤ a)
    → (closed (buf + size - 1) size o a ≡ m a)
      × ((size ≡ 0) ⊎ (closed (buf + size - 1) size o (buf + min (o.str - buf) (size - 1)) ≡ 0))
unfolding write
closed-Inside buf size m o pos i a outside = (
  ground (arith, i.same a (ground arith), i.on),
  elim (ℕ_discrete size 0) [ yes empty ↦ inl empty | no room ↦ inr (ground (arith, i.on)) ],
)

pub vsnprintf-Inside :
    (fuel null_str buf size n : ℕ) (fmt args : List ℕ) (m m' : Store)
    → 0 < buf
    → buf + size ≤ 2 ^ 64
    → vsnprintf fuel null_str buf size fmt args m ≡ done (m', n)
    → (total : ℕ) × (buf + total < 2 ^ 64)
      × (n ≡ u32 total)
      × ((a : ℕ) → (a < buf) ⊎ (buf + size ≤ a) → m' a ≡ m a)
      × ((size ≡ 0) ⊎ (m' (buf + min total (size - 1)) ≡ 0))
unfolding vsnprintf write
vsnprintf-Inside fuel null_str buf size n fmt args m m' pos fits e =
    let (last, first) : (sub64 (buf + size) 1 ≡ buf + size - 1) × (sub64 buf 1 ≡ buf - 1) =
      (omega arith, omega arith) in
    let straight : ltb (buf + size - 1) (buf - 1) ≡ false = ground arith in
    let (q, checked, rest) =
      >>=-eq-done
        (format fuel null_str (buf + size - 1) (length fmt) fmt args (record { mem = m; str = buf })
          >>= within)
        _ (rw (last, first, straight) at e) in
    let (o, printed, room) =
      >>=-eq-done
        (format fuel null_str (buf + size - 1) (length fmt) fmt args
          (record { mem = m; str = buf }))
        _ checked in
    let (same, below) = within-below o q room in
    let i =
      subst (Inside (buf + size - 1) (record { mem = m; str = buf })) same
        (format-Inside fuel null_str (buf + size - 1) (length fmt) fmt args _ o printed) in
    let result = done-injective rest in
    let end = closed-Inside buf size m q pos i in
    (
      q.str - buf,
      omega (arith, i.on),
      sym (ap (λ r. r.1) result),
      λ a out. ap (λ r. r.0 a) (sym result) ∙ (end a out).0,
      elim ((end 0 (inl pos)).1) [
        | inl empty ↦ inl empty
        | inr nul ↦ inr (ap (λ r. r.0 (buf + min (q.str - buf) (size - 1))) (sym result) ∙ nul)
      ],
    )
