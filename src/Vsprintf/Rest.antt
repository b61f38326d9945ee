-- ===== src/Vsprintf/Rest.antt =====
-- What the parts of a conversion leave of the format: no more than there was.
use tmos.Base.{
  ℕ, suc, ◌+◌, ◌-◌, ◌*◌, ◌^◌, ◌≤◌, ◌≡◌, refl, bit_or, List, [], ◌∷◌, none, some, not, ◌||◌, arith,
  ltb, ◌==◌, length, inl, inr, Bool-cases,
}
use mathlib.Core.Path.{subst}
use tmos.Base.Outcome.{done, undef, >>=-eq-done, if-eq-done, done-injective}
use tmos.Base.Word.{u32}
use tmos.Ctype.{isdigit}
use tmos.Vsprintf.Format.{
  Spec, va_arg, head_or_nul, is_negative, flag_of, skip_atoi, get_flags, star_width, width_arg,
  get_width, precision_arg, star_precision, precision_digits, get_precision, long_twice,
  get_qualifier, only_flags, get_spec,
}

get_flags-length : (flags : ℕ) (fmt : List ℕ) → length ((get_flags flags fmt).1) ≤ length fmt
unfolding get_flags
get_flags-length flags [] = omega arith
get_flags-length flags (c ∷ fmt) =
    elim (flag_of c)
      as (λ f.
        length (
          (elim f as (λ x. ℕ × List ℕ) [
            | some flg ↦ get_flags (bit_or flags flg) fmt
            | none ↦ (flags, c ∷ fmt)
          ]).1)
        ≤ length (c ∷ fmt)) [
          | none ↦ omega arith
          | some flg ↦ omega (arith, get_flags-length (bit_or flags flg) fmt)
        ]

skip_atoi-length :
    (ret : ℕ) (s : List ℕ) (r : ℕ × List ℕ) → skip_atoi ret s ≡ done r → length r.1 ≤ length s
unfolding skip_atoi
skip_atoi-length ret [] r e = subst (λ x. length x.1 ≤ 0) (done-injective e) (omega arith)
skip_atoi-length ret (c ∷ s) r e =
    if-eq-done (not (isdigit c)) _ _ e
      (λ h. subst (λ x. length x.1 ≤ suc (length s)) (done-injective h) (omega arith))
      (λ h.
        if-eq-done (ltb (ret * 10 + (c - 48)) (2 ^ 31)) _ undef h
          (λ h'. omega (arith, skip_atoi-length (ret * 10 + (c - 48)) s r h')) (λ h'. cc))

star_width-fmt : (a : ℕ) (s t : Spec) → star_width a s ≡ done t → length t.fmt ≤ length s.fmt
unfolding star_width
star_width-fmt a s t e =
    if-eq-done (not (is_negative a)) _ _ e
      (λ h. subst (λ x. length x.fmt ≤ length s.fmt) (done-injective h) (omega arith))
      (λ h.
        if-eq-done (u32 a == 2 ^ 31) undef _ h (λ h'. cc)
          (λ h'. subst (λ x. length x.fmt ≤ length s.fmt) (done-injective h') (omega arith)))

width_arg-fmt :
    (fmt : List ℕ) (s t : Spec) → s.fmt ≡ fmt → width_arg fmt s ≡ done t → length t.fmt ≤ length fmt
unfolding width_arg
width_arg-fmt [] s t h e = subst (λ x. length x.fmt ≤ 0) (done-injective e) (rw h (omega arith))
width_arg-fmt (c ∷ fmt) s t h e =
    if-eq-done (c == 42) _ _ e
      (λ e1.
        let (a, taken, rest) = >>=-eq-done (va_arg s.args) _ e1 in
        omega (arith, star_width-fmt a.0 (record s { fmt = fmt; args = a.1 }) t rest))
      (λ e1. subst (λ x. length x.fmt ≤ suc (length fmt)) (done-injective e1) (rw h (omega arith)))

get_width-fmt : (s t : Spec) → get_width s ≡ done t → length t.fmt ≤ length s.fmt
unfolding get_width
get_width-fmt s t e =
    if-eq-done (isdigit (head_or_nul s.fmt)) _ _ e
      (λ e1.
        let (r, read, rest) = >>=-eq-done (skip_atoi 0 s.fmt) _ e1 in
        subst (λ x. length x.fmt ≤ length s.fmt) (done-injective rest)
          (skip_atoi-length 0 s.fmt r read))
      (width_arg-fmt s.fmt s t refl)

precision_arg-fmt :
    (fmt : List ℕ) (s t : Spec)
    → s.fmt ≡ fmt
    → precision_arg fmt s ≡ done t
    → length t.fmt ≤ length fmt
unfolding precision_arg star_precision
precision_arg-fmt [] s t h e = subst (λ x. length x.fmt ≤ 0) (done-injective e) (rw h (omega arith))
precision_arg-fmt (c ∷ fmt) s t h e =
    if-eq-done (c == 42) _ _ e
      (λ e1.
        let (a, taken, rest) = >>=-eq-done (va_arg s.args) _ e1 in
        subst (λ x. length x.fmt ≤ suc (length fmt)) (done-injective rest) (omega arith))
      (λ e1. subst (λ x. length x.fmt ≤ suc (length fmt)) (done-injective e1) (rw h (omega arith)))

precision_digits-fmt : (s t : Spec) → precision_digits s ≡ done t → length t.fmt ≤ length s.fmt
unfolding precision_digits
precision_digits-fmt s t e =
    if-eq-done (isdigit (head_or_nul s.fmt)) _ _ e
      (λ e1.
        let (r, read, rest) = >>=-eq-done (skip_atoi 0 s.fmt) _ e1 in
        subst (λ x. length x.fmt ≤ length s.fmt) (done-injective rest)
          (skip_atoi-length 0 s.fmt r read))
      (precision_arg-fmt s.fmt s t refl)

get_precision-fmt :
    (fmt : List ℕ) (s t : Spec)
    → s.fmt ≡ fmt
    → get_precision fmt s ≡ done t
    → length t.fmt ≤ length fmt
unfolding get_precision
get_precision-fmt [] s t h e = subst (λ x. length x.fmt ≤ 0) (done-injective e) (rw h (omega arith))
get_precision-fmt (c ∷ fmt) s t h e =
    if-eq-done (c == 46) _ _ e
      (λ e1. omega (arith, precision_digits-fmt (record s { fmt = fmt }) t e1))
      (λ e1. subst (λ x. length x.fmt ≤ suc (length fmt)) (done-injective e1) (rw h (omega arith)))

long_twice-fmt : (fmt : List ℕ) (s : Spec) → length ((long_twice fmt s).fmt) ≤ length fmt
unfolding long_twice
long_twice-fmt [] s = omega arith
long_twice-fmt (c ∷ fmt) s = elim (Bool-cases (c == 108)) [
  | inl twice ↦ rw twice (omega arith)
  | inr once ↦ rw once (omega arith)
]

get_qualifier-fmt :
    (fmt : List ℕ) (s : Spec) → s.fmt ≡ fmt → length ((get_qualifier fmt s).fmt) ≤ length fmt
unfolding get_qualifier
get_qualifier-fmt [] s h = rw h (omega arith)
get_qualifier-fmt (c ∷ fmt) s h = elim (Bool-cases (c == 108)) [
  | inl long ↦ rw long (omega (arith, long_twice-fmt fmt s))
  | inr other ↦ rw other (elim (Bool-cases ((c == 104) || (c == 76) || (c == 90) || (c == 122))) [
    | inl known ↦ rw known (omega arith)
    | inr unknown ↦ rw (unknown, h) (omega arith)
  ])
]

pub get_spec-fmt :
    (fmt args : List ℕ) (t : Spec) → get_spec fmt args ≡ done t → length t.fmt ≤ length fmt
unfolding get_spec
get_spec-fmt fmt args t e =
    let (s, width, e1) = >>=-eq-done (get_width (only_flags (get_flags 0 fmt) args)) _ e in
    let (u, precision, e2) = >>=-eq-done (get_precision s.fmt s) _ e1 in
    subst (λ x. length x.fmt ≤ length fmt) (done-injective e2)
      (omega (
        arith,
        get_flags-length 0 fmt,
        get_width-fmt (only_flags (get_flags 0 fmt) args) s width,
        get_precision-fmt s.fmt s u refl precision,
        get_qualifier-fmt u.fmt u refl,
      ))
