-- ===== src/DList.antt =====
-- The embedded doubly-linked list of include/tmos/ds/list.h over memory in words. A node is named by
-- its address: `prev` stands there and `next` 8 bytes behind.
pub mod Laws
mod Tests
use tmos.Base.{ℕ, ◌+◌, Bool, ◌==◌}
use tmos.Base.Store.{Store, write}

abbrev pub null : ℕ
null = 0

abbrev pub prev_of : Store → ℕ → ℕ
prev_of m node = m node

abbrev pub next_of : Store → ℕ → ℕ
next_of m node = m (node + 8)

abbrev pub set_prev : ℕ → ℕ → Store → Store
set_prev node v m = write m node v

abbrev pub set_next : ℕ → ℕ → Store → Store
set_next node v m = write m (node + 8) v

unfoldable pub list_init : ℕ → Store → Store
list_init node m = set_prev node node (set_next node node m)

-- `__list_add_between`, in the order of its assignments. The second one stores `prev`.
unfoldable pub list_add_between : ℕ → ℕ → ℕ → Store → Store
list_add_between node prev next m =
    set_next prev node (set_prev node prev (set_next node prev (set_prev next node m)))

unfoldable pub list_add_front : ℕ → ℕ → Store → Store
list_add_front head node m = list_add_between node head (next_of m head) m

unfoldable pub list_add_tail : ℕ → ℕ → Store → Store
list_add_tail head node m = list_add_between node (prev_of m head) head m

unfoldable pub list_del_between : ℕ → ℕ → Store → Store
list_del_between prev next m = set_next prev next (set_prev next prev m)

-- `node->next = node->prev = NULL` stores `prev` first.
unfoldable pub list_del : ℕ → Store → Store
list_del node m =
    set_next node null (set_prev node null (list_del_between (prev_of m node) (next_of m node) m))

unfoldable pub list_is_empty : Store → ℕ → Bool
list_is_empty m node = next_of m node == node
