-- ===== src/Examples/Nodes.antt =====
-- A list of adlist.h with the values 10 and 20.
use myprogram.Prelude.{
  ℕ, ◌≡◌, refl, false, Option, none, some, [], ◌∷◌, ◌-◌, ◌^◌, arith, fault, ◌==◌, if◌then◌else◌, ok,
  true, is_null,
}
use myprogram.AdList.{
  Heap, AdList, node, list_search_key, list_index, list_get_iterator, start_head, list_release,
}
use myprogram.AdList.Chain.{Nodes, Represents}
use myprogram.AdList.Head.{Added, list_add_node_head-Added}
use myprogram.AdList.Insertion.{Inserted, list_insert_node-Inserted}
use myprogram.AdList.Removal.{Deleted, list_del_node-Deleted}
use myprogram.AdList.Release.{Emptied, list_release-Emptied}
use myprogram.AdList.Search.{list_search_key-first_match}
use myprogram.AdList.Iteration.{list_index-in_order}
use myprogram.AdList.Purge.{purge, list_next-list_del_node}

abbrev two_nodes : Heap
two_nodes b =
    if b == 0
    then some (node none (some 1) 10)
    else (if b == 1 then some (node (some 0) none 20) else none)

abbrev two_list : AdList
two_list = record {
  head = some 0;
  tail = some 1;
  len = 2;
  dup = none;
  has_free = false;
  matches = none;
}

abbrev values : Nodes
values = (0, 10) ∷ (1, 20) ∷ []

two_list-Represents : Represents two_nodes two_list values
two_list-Represents = record {
  chain = (refl, (refl, tt));
  head = refl;
  tail = refl;
  len = refl;
  distinct = (refl, (refl, tt));
}

abbrev malloc : Heap → Option ℕ
malloc h = some 9

list_add_node_head-Added_example : Added malloc two_nodes two_list 9 5 values
list_add_node_head-Added_example =
    list_add_node_head-Added malloc two_nodes two_list 9 5 values two_list-Represents refl refl

list_search_key-first_match_example : list_search_key two_nodes two_list 20 ≡ ok (some 1)
list_search_key-first_match_example =
    list_search_key-first_match two_nodes two_list 20 values two_list-Represents

list_index-in_order_example :
    (list_index two_nodes two_list 1 ≡ ok (some 1))
    × (list_index two_nodes two_list (2 ^ 64 - 2) ≡ ok (some 0))
    × (list_index two_nodes two_list (2 ^ 63) ≡ fault)
list_index-in_order_example =
    list_index-in_order two_nodes two_list 1 2 values two_list-Represents (omega arith)
      (omega arith) (omega arith)

-- The first node is deleted.
list_next-list_del_node_example :
    (h' : Heap) × (l' : AdList) × (purge 3 two_nodes two_list
        (λ v. v == 10)
        (list_get_iterator two_list start_head)
      ≡ ok (h', l'))
    × Represents h' l' ((1, 20) ∷ [])
list_next-list_del_node_example =
    list_next-list_del_node two_nodes two_list (λ v. v == 10) values two_list-Represents

list_insert_node-Inserted_example :
    Inserted malloc two_nodes two_list [] 0 10 9 5 ((1, 20) ∷ []) true
list_insert_node-Inserted_example =
    list_insert_node-Inserted malloc two_nodes two_list [] 0 10 9 5 ((1, 20) ∷ []) true
      two_list-Represents refl refl

list_del_node-Deleted_example : Deleted two_nodes two_list ((0, 10) ∷ []) 1 20 []
list_del_node-Deleted_example =
    list_del_node-Deleted two_nodes two_list ((0, 10) ∷ []) 1 20 [] two_list-Represents

list_release-Emptied_example :
    (h' : Heap) × (list_release two_nodes two_list ≡ ok (h', []))
    × Emptied two_nodes h' (0 ∷ 1 ∷ [])
list_release-Emptied_example = list_release-Emptied two_nodes two_list values two_list-Represents

-- Memory for two nodes.
abbrev small_malloc : Heap → Option ℕ
small_malloc h = if is_null (h 8) then some 8 else (if is_null (h 9) then some 9 else none)
