-- ===== src/DList/Laws.antt =====
-- What the list operations do to the links, read forwards from the head.
use tmos.Base.{ℕ, zero, suc, ◌+◌, ◌≡◌, ◌≢◌, List, [], ◌∷◌, true, false, arith, ◌==◌}
use tmos.Base.Store.{Store, write}
use tmos.DList.{
  null, prev_of, next_of, list_init, list_add_between, list_add_front, list_del, list_del_between,
  list_is_empty,
}

-- Nodes lie 16 bytes apart at least, at multiples of 8.
abbrev pub Apart : ℕ → ℕ → Type 0
Apart a b = (a ≢ b) × (a + 8 ≢ b) × (a ≢ b + 8)

-- The nodes met from `p` by `next` links until `head`, for `n` steps at most.
abbrev pub walk : ℕ → Store → ℕ → ℕ → List ℕ
walk zero m head p = []
walk (suc n) m head p = elim (p == head) [ true ↦ [] | false ↦ p ∷ walk n m head (next_of m p) ]

-- Both directions of one link.
abbrev pub Linked : Store → ℕ → ℕ → Type 0
Linked m a b = (next_of m a ≡ b) × (prev_of m b ≡ a)

-- A list that is initialised is empty.
list_init-empty : (node : ℕ) (m : Store) → list_is_empty (list_init node m) node ≡ true
unfolding list_init list_is_empty write
list_init-empty node m = ground arith

-- On an empty list the insertion links the head and the node both ways.
list_add_front-empty :
    (head node : ℕ) (m : Store)
    → Apart head node
    → next_of m head ≡ head
    → Linked (list_add_front head node m) head node × Linked (list_add_front head node m) node head
unfolding list_add_front list_add_between write
list_add_front-empty head node m apart empty = ground arith

-- Whatever the list held, the walk afterwards meets the new node alone.
pub list_add_front-walk :
    (head node : ℕ) (m : Store) (n : ℕ)
    → Apart head node
    → Apart (next_of m head) node
    → walk
        (suc (suc n))
        (list_add_front head node m)
        head
        (next_of (list_add_front head node m) head)
      ≡ node ∷ []
unfolding list_add_front list_add_between write
list_add_front-walk head node m n apart apart' = ground arith

-- Deleting a node between two others joins them, both ways.
pub list_del-Linked :
    (p node q : ℕ) (m : Store)
    → Linked m p node
    → Linked m node q
    → Apart p node
    → Apart q node
    → q ≢ p + 8
    → Linked (list_del node m) p q
      × (next_of (list_del node m) node ≡ null)
      × (prev_of (list_del node m) node ≡ null)
unfolding list_del list_del_between write
list_del-Linked p node q m l r pn qn sep = ground arith
