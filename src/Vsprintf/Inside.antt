-- ===== src/Vsprintf/Inside.antt =====
-- Where the formatted output writes: from the place it starts at to the end of the buffer.
use mathlib.Core.Path.{subst}
use tmos.Base.{
  ℕ, zero, suc, ◌≤◌, ◌<◌, ◌≡◌, ◌⊎◌, inl, inr, refl, ◌∙◌, bit_and, List, [], ◌∷◌, false, ◌||◌, ◌^◌,
  arith, ltb, ◌==◌, if◌then◌else◌, Bool-cases,
}
use tmos.Base.Outcome.{done, undef, >>=-eq-done, if-eq-done, done-injective}
use tmos.Base.Store.{write}
use tmos.Base.Bits.{bit_not}
use tmos.Vsprintf.Number.{
  flg_left, flg_zeropad, flg_large, Output, put, within, pad, puts, has, sign_of, digits_of,
  number_with, number,
}

-- From `o` to `p` the output went on, and wrote nowhere but between its place and the end.
pub record Inside (end : ℕ) (o p : Output) : Type 0 where
  pub on : o.str ≤ p.str
  pub same : (a : ℕ) → (a < o.str) ⊎ (end < a) → p.mem a ≡ o.mem a

module _ (end : ℕ) where
  pub Inside-refl : (o : Output) → Inside end o o
  Inside-refl o = record { on = omega arith; same = λ a h. refl }

  pub Inside-trans : (o p q : Output) → Inside end o p → Inside end p q → Inside end o q
  Inside-trans o p q x y = record {
    on = omega (arith, x.on, y.on);
    same = λ a h. y.same a (ground (arith, x.on)) ∙ x.same a h;
  }

  pub put-Inside : (c : ℕ) (o : Output) → Inside end o (put end c o)
  unfolding put write
  put-Inside c o = record { on = omega arith; same = λ a h. ground arith }

  pub pad-Inside : (n c : ℕ) (o : Output) → Inside end o (pad end n c o)
  unfolding pad
  pad-Inside zero c o = Inside-refl o
  pad-Inside (suc n) c o =
      Inside-trans o (put end c o) _ (put-Inside c o) (pad-Inside n c (put end c o))

  puts-Inside : (cs : List ℕ) (o : Output) → Inside end o (puts end cs o)
  unfolding puts
  puts-Inside [] o = Inside-refl o
  puts-Inside (c ∷ cs) o =
      Inside-trans o (put end c o) _ (put-Inside c o) (puts-Inside cs (put end c o))

  pub within-eq-done : (q p : Output) → within q ≡ done p → q ≡ p
  unfolding within
  within-eq-done q p e = if-eq-done (ltb q.str (2 ^ 64)) (done q) undef e done-injective (λ h. cc)

  pub number-Inside :
      (num base size precision flags : ℕ) (o p : Output)
      → (ltb base 2 || ltb 36 base) ≡ false
      → number end num base size precision flags o ≡ done p
      → Inside end o p
  unfolding number_with number
  number-Inside num base size precision flags0 o p ok e =
      let flags = if has flags0 flg_left then bit_and flags0 (bit_not 32 flg_zeropad) else flags0 in
      let (r, signed, e1) = >>=-eq-done (sign_of num flags) _ (rw ok at e) in
      let (tmp, digits, e2) =
        >>=-eq-done
          (if r.1 == 0 then done (48 ∷ []) else digits_of 66 (has flags flg_large) base r.1 []) _
          e1 in
      subst (Inside end o) (within-eq-done _ p e2) (
        Inside-trans o _ _
          (Inside-trans o _ _
            (Inside-trans o _ _
              (Inside-trans o _ _
                (Inside-trans o _ _ (Inside-trans o _ _ (pad-Inside _ 32 o) (sign-Inside r.0 _))
                  (puts-Inside _ _))
                (pad-Inside _ _ _))
              (pad-Inside _ 48 _))
            (puts-Inside tmp _))
          (pad-Inside _ 32 _))
    where
      sign-Inside : (c : ℕ) (q : Output) → Inside end q (if c == 0 then q else put end c q)
      sign-Inside c q = elim (Bool-cases (c == 0)) [
        | inl off ↦ rw off (Inside-refl q)
        | inr on ↦ rw on (put-Inside c q)
      ]
