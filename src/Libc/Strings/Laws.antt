-- ===== src/Libc/Strings/Laws.antt =====
-- What the string functions return and leave, for strings of a known length.
use tmos.Base.{ℕ, zero, suc, ◌+◌, ◌≤◌, ◌<◌, ◌≡◌, ◌≢◌, refl, ◌∙◌, ap, ap₂, ◌⊎◌, arith}
use tmos.Base.Int.{pos}
use tmos.Base.Outcome.{done}
use tmos.Base.Store.{Store, write}
use native.Mathlib.Decide.{ℕ_discrete}
use tmos.Libc.Memory.{char_diff, char_diff-zero, copy_up, memcpy}
use tmos.Libc.Strings.{count_up, strlen, copy_string, strcpy, compare_strings, strcmp}

-- At `s` stands a string of `n` bytes that are not NUL, with a NUL behind them.
pub record IsString (m : Store) (s n : ℕ) : Type 0 where
  pub body : (k : ℕ) → k < n → m (s + k) ≢ 0
  pub end : m (s + n) ≡ 0

count_up-eq :
    (fuel s n k : ℕ) (m : Store)
    → IsString m s n
    → k ≤ n
    → n < fuel + k
    → count_up fuel s k m ≡ done n
unfolding count_up
count_up-eq zero s n k m v le lt = absurd (omega arith)
count_up-eq (suc fuel) s n k m v le lt = elim (ℕ_discrete k n) [
  | yes e ↦ ground (arith, ap (λ t. m (s + t)) e ∙ v.end)
  | no before ↦
      ground (
        arith,
        v.body k (omega arith),
        count_up-eq fuel s n (k + 1) m v (omega arith) (omega arith),
      )
]

-- `strlen` returns the length of the string, on fuel for one round more.
strlen-eq :
    (fuel s n : ℕ) (m : Store) → s ≢ 0 → IsString m s n → n < fuel → strlen fuel s m ≡ done n
unfolding strlen
strlen-eq fuel s n m h v lt = ground (arith, count_up-eq fuel s n 0 m v (omega arith) (omega arith))

-- The rest of a string behind its first byte, in memory that agrees there.
IsString-rest :
    (m m' : Store) (s n : ℕ)
    → ((k : ℕ) → s < k → k ≤ s + n + 1 → m' k ≡ m k)
    → IsString m s (suc n)
    → IsString m' (s + 1) n
IsString-rest m m' s n same v = record {
  body = λ k h.
      nonzero (same (s + 1 + k) (omega arith) (omega arith) ∙ shift k)
        (v.body (k + 1) (omega arith));
  end = same (s + 1 + n) (omega arith) (omega arith) ∙ last;
}
  where
    shift : (k : ℕ) → m (s + 1 + k) ≡ m (s + (k + 1))
    shift k = ap m (omega arith)

    last : m (s + 1 + n) ≡ 0
    last = ap m (omega arith) ∙ v.end

    nonzero : {x y : ℕ} → x ≡ y → y ≢ 0 → x ≢ 0
    nonzero e ne = ground arith

IsString-head : (m : Store) (s n : ℕ) → IsString m s (suc n) → m s ≢ 0
IsString-head m s n v =
    let e : m (s + 0) ≡ m s = ap m (omega arith) in ground (arith, v.body 0 (omega arith))

-- The `n` bytes that are left to copy at index `i` are copied, and the NUL is not.
copy_string-copy_up :
    (fuel dest src n i : ℕ) (m : Store)
    → IsString m (src + i) n
    → (dest ≤ src) ⊎ (src + i + n < dest)
    → n < fuel
    → copy_string fuel (dest + i) (src + i) m ≡ done (copy_up dest src n i m)
unfolding copy_string copy_up write
copy_string-copy_up zero dest src n i m v apart lt = absurd (omega arith)
copy_string-copy_up (suc fuel) dest src zero i m v apart lt = ground (arith, v.end)
copy_string-copy_up (suc fuel) dest src (suc n) i m v apart lt = ground (
  arith,
  IsString-head m (src + i) n v,
  copy_string-copy_up fuel dest src n (i + 1) after (rw assoc at rest),
)
  where
    after : Store
    after = write m (dest + i) (m (src + i))

    assoc : src + i + 1 ≡ src + (i + 1)
    assoc = omega arith

    rest : IsString after (src + i + 1) n
    rest = IsString-rest m after (src + i) n (λ k lo up. ground arith) v

-- `strcpy` of a string of `n` bytes returns, and does what `memcpy` of `n` bytes does: the NUL at the
-- end of the source is not copied.
strcpy-memcpy :
    (fuel dest src n : ℕ) (m : Store)
    → dest ≢ 0
    → src ≢ 0
    → IsString m src n
    → (dest ≤ src) ⊎ (src + n < dest)
    → n < fuel
    → strcpy fuel dest src m ≡ done (memcpy dest src n m)
unfolding strcpy memcpy
strcpy-memcpy fuel dest src n m hd hs v apart lt =
    let copied : copy_string fuel (dest + 0) (src + 0) m ≡ done (copy_up dest src n 0 m) =
      copy_string-copy_up fuel dest src n 0 m (rw zero_right v) (rw zero_right apart) lt in
    ground (arith, copied)
  where
    zero_right : src + 0 ≡ src
    zero_right = omega arith

-- Two strings of the same bytes compare as equal.
compare_strings-same :
    (fuel a b n : ℕ) (m : Store)
    → IsString m a n
    → IsString m b n
    → ((k : ℕ) → k < n → m (a + k) ≡ m (b + k))
    → n < fuel
    → compare_strings fuel a b m ≡ done (pos 0)
unfolding compare_strings
compare_strings-same zero a b n m va vb same lt = absurd (omega arith)
compare_strings-same (suc fuel) a b zero m va vb same lt =
    let (p, q) : (m (a + 0) ≡ m a) × (m (b + 0) ≡ m b) = (ap m (omega arith), ap m (omega arith)) in
    ground (arith, va.end, vb.end)
compare_strings-same (suc fuel) a b (suc n) m va vb same lt =
    let (p, q) : (m (a + 0) ≡ m a) × (m (b + 0) ≡ m b) = (ap m (omega arith), ap m (omega arith)) in
    ground (
      arith,
      same 0 (omega arith),
      IsString-head m a n va,
      compare_strings-same fuel (a + 1) (b + 1) n m (IsString-rest m m a n (λ k lo up. refl) va)
          (IsString-rest m m b n (λ k lo up. refl) vb)
          (λ k h. ap m (omega arith) ∙ same (k + 1) (omega arith) ∙ ap m (omega arith))
          (omega arith),
    )

-- `strcmp` of two strings of the same bytes returns 0.
strcmp-same :
    (fuel a b n : ℕ) (m : Store)
    → IsString m a n
    → IsString m b n
    → ((k : ℕ) → k < n → m (a + k) ≡ m (b + k))
    → n < fuel
    → strcmp fuel a b m ≡ done (pos 0)
unfolding strcmp
strcmp-same fuel a b n m va vb same lt =
    ground (arith, compare_strings-same fuel a b n m va vb same lt)

-- Two strings that first differ at byte `i`, the end of one of them included.
pub record DifferAt (m : Store) (a b i : ℕ) : Type 0 where
  pub same : (k : ℕ) → k < i → (m (a + k) ≡ m (b + k)) × (m (a + k) ≢ 0)
  pub differ : m (a + i) ≢ m (b + i)

compare_strings-differ :
    (fuel a b i : ℕ) (m : Store)
    → DifferAt m a b i
    → i < fuel
    → compare_strings fuel a b m ≡ done (char_diff (m (a + i)) (m (b + i)))
unfolding compare_strings
compare_strings-differ zero a b i m d lt = absurd (omega arith)
compare_strings-differ (suc fuel) a b zero m d lt =
    let (p, q) : (m (a + 0) ≡ m a) × (m (b + 0) ≡ m b) = (ap m (omega arith), ap m (omega arith)) in
    ground (arith, d.differ, ap₂ char_diff p q)
compare_strings-differ (suc fuel) a b (suc i) m d lt =
    let (p, q) : (m (a + 0) ≡ m a) × (m (b + 0) ≡ m b) = (ap m (omega arith), ap m (omega arith)) in
    ground (
      arith,
      d.same 0 (omega arith),
      ap₂ char_diff (shift a i) (shift b i),
      compare_strings-differ fuel (a + 1) (b + 1) i m rest (omega arith),
    )
  where
    shift : (s k : ℕ) → m (s + 1 + k) ≡ m (s + suc k)
    shift s k = ap m (omega arith)

    rest : DifferAt m (a + 1) (b + 1) i
    rest = record {
      same = λ k h. ground (arith, shift a k, shift b k, d.same (suc k) (omega arith));
      differ = ground (arith, shift a i, shift b i, d.differ);
    }

-- For two strings that differ, `strcmp` returns the difference of the first bytes that differ, read
-- as signed numbers, and this is not 0.
strcmp-differ :
    (fuel a b i : ℕ) (m : Store)
    → a ≢ 0
    → b ≢ 0
    → ((p : ℕ) → m p < 256)
    → DifferAt m a b i
    → i < fuel
    → (strcmp fuel a b m ≡ done (char_diff (m (a + i)) (m (b + i))))
      × (char_diff (m (a + i)) (m (b + i)) ≢ pos 0)
unfolding strcmp
strcmp-differ fuel a b i m ha hb bytes d lt = (
  ground (arith, compare_strings-differ fuel a b i m d lt),
  λ e. d.differ (char_diff-zero (m (a + i)) (m (b + i)) (bytes (a + i)) (bytes (b + i)) e),
)
