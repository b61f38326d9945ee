-- ===== src/Libc/Memory.antt =====
-- The memory functions of libc/string.c over memory in bytes. An address is a number, and a range
-- that the caller passes does not wrap round the address space.
use tmos.Base.{
  ℕ, zero, suc, ◌+◌, ◌-◌, ◌%◌, ◌≤◌, ◌<◌, ◌≡◌, refl, ◌∙◌, sym, ap, ◌⊎◌, ◌&&◌, arith, ltb, leb, ◌==◌,
  if◌then◌else◌,
}
use tmos.Base.Int.{ℤ, pos, sub_ℕ}
use native.Mathlib.Decide.{ℕ_discrete}
use tmos.Base.Store.{Store, write}
use tmos.Base.Word.{u8}

-- `for (i = 0; i < n; i++) d[i] = s[i];` with `n` rounds left at index `i`.
unfoldable pub copy_up : (dest src : ℕ) → ℕ → ℕ → Store → Store
copy_up dest src zero i m = m
copy_up dest src (suc n) i m = copy_up dest src n (i + 1) (write m (dest + i) (m (src + i)))

-- `for (i = n; i > 0; i--) d[i - 1] = s[i - 1];`
unfoldable pub copy_down : (dest src : ℕ) → ℕ → Store → Store
copy_down dest src zero m = m
copy_down dest src (suc i) m = copy_down dest src i (write m (dest + i) (m (src + i)))

unfoldable pub memcpy : (dest src n : ℕ) → Store → Store
unfolding copy_up
memcpy dest src n m = copy_up dest src n 0 m

unfoldable pub memmove : (dest src n : ℕ) → Store → Store
unfolding memcpy copy_down
memmove dest src n m = if ltb dest src then memcpy dest src n m else copy_down dest src n m

unfoldable pub set_up : (dest val : ℕ) → ℕ → ℕ → Store → Store
set_up dest val zero i m = m
set_up dest val (suc n) i m = set_up dest val n (i + 1) (write m (dest + i) val)

unfoldable pub memset : (dest ival n : ℕ) → Store → Store
unfolding set_up
memset dest ival n m = set_up dest (u8 ival) n 0 m

-- The address of the first match, or NULL.
unfoldable pub chr_up : (dest val : ℕ) → ℕ → ℕ → Store → ℕ
chr_up dest val zero i m = 0
chr_up dest val (suc n) i m =
    let rest = chr_up dest val n (i + 1) m in if m (dest + i) == val then dest + i else rest

unfoldable pub memchr : (dest ival n : ℕ) → Store → ℕ
unfolding chr_up
memchr dest ival n m = chr_up dest (u8 ival) n 0 m

-- `(int) a - (int) b` for two `char`, which are signed on x86: the bytes from 128 on stand for
-- negative numbers.
unfoldable pub char_diff : ℕ → ℕ → ℤ
char_diff a b = sub_ℕ ((a + 128) % 256) ((b + 128) % 256)

unfoldable pub cmp_up : (a b : ℕ) → ℕ → ℕ → Store → ℤ
unfolding char_diff
cmp_up a b zero i m = pos 0
cmp_up a b (suc n) i m =
    let rest = cmp_up a b n (i + 1) m in
    if m (a + i) == m (b + i) then rest else char_diff (m (a + i)) (m (b + i))

unfoldable pub memcmp : (a b n : ℕ) → Store → ℤ
unfolding cmp_up
memcmp a b n m = cmp_up a b n 0 m

copy_up-eq :
    (dest src n i : ℕ) (m : Store) (q : ℕ)
    → (dest ≤ src) ⊎ (src + i + n ≤ dest)
    → copy_up dest src n i m q
      ≡ (if leb (dest + i) q && ltb q (dest + i + n) then m (src + (q - dest)) else m q)
unfolding copy_up write
copy_up-eq dest src zero i m q apart = ground arith
copy_up-eq dest src (suc n) i m q apart =
    ground (arith, copy_up-eq dest src n (i + 1) (write m (dest + i) (m (src + i))) q)

copy_down-eq :
    (dest src n : ℕ) (m : Store) (q : ℕ)
    → src ≤ dest
    → copy_down dest src n m q
      ≡ (if leb dest q && ltb q (dest + n) then m (src + (q - dest)) else m q)
unfolding copy_down write
copy_down-eq dest src zero m q h = ground arith
copy_down-eq dest src (suc i) m q h =
    ground (arith, copy_down-eq dest src i (write m (dest + i) (m (src + i))) q)

-- `memmove` leaves in the destination what the source held before the call, whether or not the two
-- ranges overlap, and changes no other byte.
pub memmove-eq :
    (dest src n : ℕ) (m : Store) (q : ℕ)
    → memmove dest src n m q
      ≡ (if leb dest q && ltb q (dest + n) then m (src + (q - dest)) else m q)
unfolding memmove memcpy
memmove-eq dest src n m q = ground (arith, copy_up-eq dest src n 0 m q, copy_down-eq dest src n m q)

-- `memcpy` does the same for ranges that do not overlap, or when the destination begins first.
memcpy-eq :
    (dest src n : ℕ) (m : Store) (q : ℕ)
    → (dest ≤ src) ⊎ (src + n ≤ dest)
    → memcpy dest src n m q ≡ (if leb dest q && ltb q (dest + n) then m (src + (q - dest)) else m q)
unfolding memcpy
memcpy-eq dest src n m q apart = ground (arith, copy_up-eq dest src n 0 m q)

set_up-eq :
    (dest val n i : ℕ) (m : Store) (q : ℕ)
    → set_up dest val n i m q ≡ (if leb (dest + i) q && ltb q (dest + i + n) then val else m q)
unfolding set_up write
set_up-eq dest val zero i m q = ground arith
set_up-eq dest val (suc n) i m q =
    ground (arith, set_up-eq dest val n (i + 1) (write m (dest + i) val) q)

-- `memset` stores the low byte of its argument in every byte of the range and changes no other.
memset-eq :
    (dest ival n : ℕ) (m : Store) (q : ℕ)
    → memset dest ival n m q ≡ (if leb dest q && ltb q (dest + n) then ival % 256 else m q)
unfolding memset
memset-eq dest ival n m q = ground (arith, set_up-eq dest (u8 ival) n 0 m q)

-- The bytes `i` to `i + n - 1` of two ranges are equal.
abbrev pub SameBytes : Store → ℕ → ℕ → ℕ → ℕ → Type 0
SameBytes m a b i n = (k : ℕ) → i ≤ k → k < i + n → m (a + k) ≡ m (b + k)

cmp_up-same : (a b n i : ℕ) (m : Store) → SameBytes m a b i n → cmp_up a b n i m ≡ pos 0
unfolding cmp_up
cmp_up-same a b zero i m h = refl
cmp_up-same a b (suc n) i m h = ground (
  arith,
  h i (omega arith) (omega arith),
  cmp_up-same a b n (i + 1) m (λ k lo up. h k (omega arith) (omega arith)),
)

pub char_diff-zero : (x y : ℕ) → x < 256 → y < 256 → char_diff x y ≡ pos 0 → x ≡ y
unfolding char_diff
char_diff-zero x y hx hy e = ground arith

cmp_up-zero :
    (a b n i : ℕ) (m : Store)
    → ((p : ℕ) → m p < 256)
    → cmp_up a b n i m ≡ pos 0
    → SameBytes m a b i n
unfolding cmp_up
cmp_up-zero a b zero i m bytes e k lo up = absurd (omega arith)
cmp_up-zero a b (suc n) i m bytes e k lo up = elim (ℕ_discrete k i) [
  | yes here ↦ ap (λ t. m (a + t)) here ∙ first.0 ∙ ap (λ t. m (b + t)) (sym here)
  | no after ↦ cmp_up-zero a b n (i + 1) m bytes first.1 k (omega arith) (omega arith)
]
  where
    first : (m (a + i) ≡ m (b + i)) × (cmp_up a b n (i + 1) m ≡ pos 0)
    first = ground (arith, e, bytes (a + i), bytes (b + i), char_diff-zero (m (a + i)) (m (b + i)))

-- `memcmp` returns 0 for two ranges of equal bytes, and for no others.
memcmp-zero :
    (a b n : ℕ) (m : Store)
    → ((p : ℕ) → m p < 256)
    → (SameBytes m a b 0 n → memcmp a b n m ≡ pos 0)
      × (memcmp a b n m ≡ pos 0 → SameBytes m a b 0 n)
unfolding memcmp
memcmp-zero a b n m bytes = (cmp_up-same a b n 0 m, cmp_up-zero a b n 0 m bytes)
