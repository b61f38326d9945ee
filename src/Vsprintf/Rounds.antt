-- ===== src/Vsprintf/Rounds.antt =====
-- The loop of `vsnprintf` needs no more rounds than the format has bytes.
use tmos.Base.{
  ℕ, zero, suc, ◌+◌, ◌≤◌, ◌≡◌, refl, ap, sym, ◌∙◌, List, [], ◌∷◌, not, ◌||◌, arith, ◌==◌, length,
}
use mathlib.Core.Path.{subst}
use tmos.Base.Outcome.{Outcome, done, ◌>>=◌, >>=-eq-done, if-eq-done, >>=-cong, done-injective}
use tmos.Vsprintf.Number.{Output}
use tmos.Vsprintf.Format.{Spec, va_arg, head_or_nul, get_spec}
use tmos.Vsprintf.Print.{
  tail, with_arg, print_unknown, convert, convert_number, format_step, format,
}
use tmos.Vsprintf.Rest.{get_spec-fmt}

tail-length : (s : List ℕ) → length (tail s) ≤ length s
tail-length [] = omega arith
tail-length (c ∷ s) = omega arith

module _ (fuel null_str end : ℕ) where
  -- Every conversion leaves the format behind its letter.
  with_arg-fmt :
      (s : Spec) (print : ℕ → Output → Outcome Output) (o : Output) (r : Output × List ℕ × List ℕ)
      → with_arg fuel null_str end s print o ≡ done r
      → r.1 ≡ tail s.fmt
  unfolding with_arg
  with_arg-fmt s print o r e =
      let (a, taken, e1) = >>=-eq-done (va_arg s.args) _ e in
      let (p, printed, e2) = >>=-eq-done (print a.0 o) _ e1 in
      ap (λ x. x.1) (sym (done-injective e2))

  convert_number-fmt :
      (begun : List ℕ) (s : Spec) (o : Output) (r : Output × List ℕ × List ℕ)
      → convert_number fuel null_str end begun s o ≡ done r
      → r.1 ≡ tail s.fmt
  unfolding convert_number
  convert_number-fmt begun s o r e =
      let c = head_or_nul s.fmt in
      let arg = λ (print : ℕ → Output → Outcome Output). with_arg-fmt s print o r in
      if-eq-done (c == 111) _ _ e (arg _) (λ e1. if-eq-done (c == 88) _ _ e1 (arg _) (λ e2.
        if-eq-done (c == 120) _ _ e2 (arg _) (λ e3.
          if-eq-done ((c == 100) || (c == 105)) _ _ e3 (arg _)
            (λ e4. if-eq-done (c == 117) _ _ e4 (arg _) unknown))))
    where
      unknown :
          (print_unknown fuel null_str end begun s.fmt o >>= λ o1. done (o1, tail s.fmt, s.args))
            ≡ done r
          → r.1 ≡ tail s.fmt
      unknown h =
          let (p, printed, rest) =
            >>=-eq-done (print_unknown fuel null_str end begun s.fmt o) _ h in
          ap (λ x. x.1) (sym (done-injective rest))

  convert-fmt :
      (begun : List ℕ) (s : Spec) (o : Output) (r : Output × List ℕ × List ℕ)
      → convert fuel null_str end begun s o ≡ done r
      → r.1 ≡ tail s.fmt
  unfolding convert
  convert-fmt begun s o r e =
      let c = head_or_nul s.fmt in
      if-eq-done (c == 99) _ _ e (with_arg-fmt s _ o r) (λ e1.
        if-eq-done (c == 115) _ _ e1 (with_arg-fmt s _ o r) (λ e2.
          if-eq-done (c == 112) _ _ e2 (with_arg-fmt s _ o r) (λ e3.
            if-eq-done (c == 37) _ _ e3 (λ h. ap (λ x. x.1) (sym (done-injective h)))
              (convert_number-fmt begun s o r))))

  pub format_step-fmt :
      (c : ℕ) (fmt args : List ℕ) (o : Output) (r : Output × List ℕ × List ℕ)
      → format_step fuel null_str end c fmt args o ≡ done r
      → length r.1 ≤ length fmt
  unfolding format_step
  format_step-fmt c fmt args o r e =
      if-eq-done (not (c == 37)) _ _ e
        (λ h. subst (λ x. length x.1 ≤ length fmt) (done-injective h) (omega arith))
        (λ h.
          let (s, read, rest) = >>=-eq-done (get_spec fmt args) _ h in
          let left = convert-fmt (c ∷ fmt) s o r rest in
          omega (arith, ap length left, tail-length s.fmt, get_spec-fmt fmt args s read))

  format-nil : (n : ℕ) (args : List ℕ) (o : Output) → format fuel null_str end n [] args o ≡ done o
  unfolding format
  format-nil zero args o = refl
  format-nil (suc n) args o = refl

  -- The rounds that `vsnprintf` gives its loop, one for each byte of the format, are enough: the loop
  -- comes to the same result on any larger number of rounds.
  format-enough :
      (n k : ℕ) (fmt args : List ℕ) (o : Output)
      → length fmt ≤ n
      → format fuel null_str end (n + k) fmt args o ≡ format fuel null_str end n fmt args o
  unfolding format
  format-enough n k [] args o h = format-nil (n + k) args o ∙ sym (format-nil n args o)
  format-enough zero k (c ∷ fmt) args o h = absurd (omega arith)
  format-enough (suc n) k (c ∷ fmt) args o h =
      let next : suc n + k ≡ suc (n + k) = omega arith in
      ap (λ z. format fuel null_str end z (c ∷ fmt) args o) next
      ∙ >>=-cong (format_step fuel null_str end c fmt args o)
          (λ r. format fuel null_str end (n + k) r.1 r.2 r.0)
          (λ r. format fuel null_str end n r.1 r.2 r.0)
          (λ r e. format-enough n k r.1 r.2 r.0 (omega (arith, format_step-fmt c fmt args o r e)))
