-- ===== src/Base/Bytes.antt =====
-- Words in memory: what a load through a pointer reads from the bytes there, the lowest first.
use Prim.Native.Nat.{ℕ, suc, ◌+◌, ◌-◌, ◌*◌, ◌/◌, ◌%◌, ◌^◌, ◌<◌}
use mathlib.Core.Path.{◌≡◌, subst, ap, ◌∙◌}
use mathlib.Core.List.{List, [], ◌∷◌, ◌++◌}
use native.Mathlib.Omega.{arith}
use tmos.Base.Lists.{length, get_or}
use tmos.Base.Store.{Store}

abbrev pub load32 : Store → ℕ → ℕ
load32 m a = m a + 2 ^ 8 * m (a + 1) + 2 ^ 16 * m (a + 2) + 2 ^ 24 * m (a + 3)

abbrev pub load64 : Store → ℕ → ℕ
load64 m a = load32 m a + 2 ^ 32 * load32 m (a + 4)

-- The bytes of a word, as `load32` reads them.
abbrev pub bytes32 : ℕ → List ℕ
bytes32 x = (x % 2 ^ 8) ∷ (x / 2 ^ 8 % 2 ^ 8) ∷ (x / 2 ^ 16 % 2 ^ 8) ∷ (x / 2 ^ 24 % 2 ^ 8) ∷ []

abbrev pub bytes64 : ℕ → List ℕ
bytes64 x = bytes32 (x % 2 ^ 32) ++ bytes32 (x / 2 ^ 32)

-- The bytes of a list stand in memory from `a` on.
abbrev pub Holds : Store → ℕ → List ℕ → Type 0
Holds m a [] = Unit
Holds m a (b ∷ bs) = (m a ≡ b) × Holds m (a + 1) bs

pub Holds-append :
    (m : Store) (a : ℕ) (xs ys : List ℕ)
    → Holds m a (xs ++ ys)
    → Holds m a xs × Holds m (a + length xs) ys
Holds-append m a [] ys h = let e : a ≡ a + 0 = omega arith in (tt, subst (λ k. Holds m k ys) e h)
Holds-append m a (x ∷ xs) ys h =
    let (front, rest) = Holds-append m (a + 1) xs ys h.1 in
    let e : a + 1 + length xs ≡ a + suc (length xs) = omega arith in
    ((h.0, front), subst (λ k. Holds m k ys) e rest)

pub load32-Holds : (m : Store) (a x : ℕ) → x < 2 ^ 32 → Holds m a (bytes32 x) → load32 m a ≡ x
load32-Holds m a x small h =
    let e1 : m (a + 1) ≡ x / 2 ^ 8 % 2 ^ 8 = h.1.0 in
    let e2 : m (a + 2) ≡ x / 2 ^ 16 % 2 ^ 8 = ap m (omega arith) ∙ h.1.1.0 in
    let e3 : m (a + 3) ≡ x / 2 ^ 24 % 2 ^ 8 = ap m (omega arith) ∙ h.1.1.1.0 in
    omega (arith, h.0, e1, e2, e3)

pub load64-Holds : (m : Store) (a x : ℕ) → x < 2 ^ 64 → Holds m a (bytes64 x) → load64 m a ≡ x
load64-Holds m a x small h =
    let (low, high) = Holds-append m a (bytes32 (x % 2 ^ 32)) (bytes32 (x / 2 ^ 32)) h in
    omega (
      arith,
      load32-Holds m a (x % 2 ^ 32) (omega arith) low,
      load32-Holds m (a + 4) (x / 2 ^ 32) (omega arith) high,
    )

pub Holds-get_or :
    (m : Store) (a : ℕ) (bs : List ℕ)
    → ((i : ℕ) → i < length bs → m (a + i) ≡ get_or bs i 0)
    → Holds m a bs
Holds-get_or m a [] h = tt
Holds-get_or m a (b ∷ bs) h = (
  (let e : a ≡ a + 0 = omega arith in ap m e ∙ h 0 (omega arith)),
  Holds-get_or m (a + 1) bs
      (λ i lt. let e : a + 1 + i ≡ a + suc i = omega arith in ap m e ∙ h (suc i) (omega arith)),
)

-- Memory that holds the bytes from `a` on.
abbrev pub image : List ℕ → ℕ → Store
image bs a k = get_or bs (k - a) 0

pub Holds-image : (bs : List ℕ) (a : ℕ) → Holds (image bs a) a bs
Holds-image bs a =
    Holds-get_or (image bs a) a bs
      (λ i h. let e : a + i - a ≡ i = omega arith in ap (λ k. get_or bs k 0) e)
