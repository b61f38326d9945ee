-- ===== src/Vsprintf/Ends.antt =====
-- `vsnprintf` comes to an end, when the strings it is given do.
use tmos.Base.{ap, ◌∙◌, ℕ, zero, suc, ◌+◌, ◌<◌, ◌≡◌, ◌≢◌, ◌⊎◌, arith, ◌==◌}
use tmos.Base.Outcome.{Outcome, done, no_fuel, if-ends}
use tmos.Base.Store.{Store}
use tmos.Libc.Strings.{count_up, strlen}
use tmos.Vsprintf.Number.{Output}
use tmos.Vsprintf.Inside.{Inside}

done-ends {ℓ} : {A : Type ℓ} (a : A) → done a ≢ no_fuel
done-ends a = λ e. cc

-- The search for a NUL ends where there is one within the fuel.
pub strlen-ends :
    (fuel p : ℕ) (m : Store) (j : ℕ) → j < fuel → m (p + j) ≡ 0 → strlen fuel p m ≢ no_fuel
unfolding strlen count_up
strlen-ends fuel p m j below nul =
    if-ends (p == 0) _ _ (λ _. done-ends 0)
      (λ _.
        count_up-ends fuel 0 j below (ap m (let e : p + 0 + j ≡ p + j = omega arith in e) ∙ nul))
  where
    count_up-ends : (n ret j : ℕ) → j < n → m (p + ret + j) ≡ 0 → count_up n p ret m ≢ no_fuel
    count_up-ends zero ret j h e = absurd (omega arith)
    count_up-ends (suc n) ret zero h e =
        if-ends (m (p + ret) == 0) _ _ (λ _. done-ends ret)
          (λ more.
            absurd (ground (arith, ap m (let e : p + ret ≡ p + ret + 0 = omega arith in e) ∙ e)))
    count_up-ends (suc n) ret (suc j) h e =
        if-ends (m (p + ret) == 0) _ _ (λ _. done-ends ret)
          (λ _.
            count_up-ends n (ret + 1) j (omega arith)
              (ap m (let e : p + (ret + 1) + j ≡ p + ret + suc j = omega arith in e) ∙ e))

module _ (fuel null_str end : ℕ) where
  -- Every string in memory ends within the fuel.
  abbrev HasEnds : Store → Type 0
  HasEnds m = (p : ℕ) → strlen fuel p m ≢ no_fuel

  -- Whatever stands in the buffer, every string ends within the fuel.
  abbrev pub AreStrings : Output → Type 0
  AreStrings o = (m : Store) → ((a : ℕ) → (a < o.str) ⊎ (end < a) → m a ≡ o.mem a) → HasEnds m
