-- ===== src/DList/Tests.antt =====
-- The list operations at nodes of a small memory.
use tmos.Base.{◌≡◌, refl, [], ◌∷◌, arith, ◌==◌, if◌then◌else◌}
use tmos.Base.Store.{Store}
use tmos.DList.{list_add_front, list_del, next_of, prev_of, null}
use tmos.DList.Laws.{walk, Linked, list_add_front-walk, list_del-Linked}

-- A list head at 16 with the nodes 48 and 80 on its list.
abbrev ring : Store
ring q =
    if q == 16
    then 80
    else if q == 24
    then 48
    else if q == 48
    then 16
    else if q == 56
    then 80
    else if q == 80
    then 48
    else if q == 88
    then 16
    else 0

list_add_front-walk_example :
    walk 3 (list_add_front 16 112 ring) 16 (next_of (list_add_front 16 112 ring) 16) ≡ 112 ∷ []
list_add_front-walk_example = list_add_front-walk 16 112 ring 1 (omega arith) (omega arith)

list_del-Linked_example :
    Linked (list_del 48 ring) 16 80
    × (next_of (list_del 48 ring) 48 ≡ null)
    × (prev_of (list_del 48 ring) 48 ≡ null)
list_del-Linked_example =
    list_del-Linked 16 48 80 ring (refl, refl) (refl, refl) (omega arith) (omega arith)
      (omega arith)
