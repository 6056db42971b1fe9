-- ===== src/Examples/Trees.antt =====
-- A tree of searchTree.h with the keys 10, 5 and 20, and a node beside it with the key 30.
use myprogram.Prelude.{
  ℕ, ◌≡◌, refl, Option, none, some, [], ◌∷◌, arith, ◌==◌, if◌then◌else◌, ok, true,
}
use myprogram.SearchTree.{Heap, SearchTree, tree_node, search, inorder_tree_walk}
use myprogram.SearchTree.Addition.{insert}
use myprogram.SearchTree.Shape.{Tree, leaf, node, Rep, Apart, IsOrdered, top, has_key}
use myprogram.SearchTree.Search.{Found, search-Found}
use myprogram.SearchTree.Walk.{inorder_tree_walk-preorder}
use myprogram.SearchTree.Neighbour.{tree_successor, tree_predecessor}
use myprogram.SearchTree.Beside.{tree_successor-next_in}
use myprogram.SearchTree.Deletion.{delete_node}
use myprogram.SearchTree.Delete.{without}
use myprogram.SearchTree.Deleted.{delete_node-without}
use myprogram.SearchTree.Order.{delete_node-IsOrdered}
use myprogram.SearchTree.Lost.{search-insert_lost}

abbrev three_nodes : Heap
three_nodes b =
    if b == 0
    then some (tree_node 10 none (some 1) (some 2))
    else (if b == 1
        then some (tree_node 5 (some 0) none none)
        else (if b == 2
            then some (tree_node 20 (some 0) none none)
            else (if b == 3 then some (tree_node 30 none none none) else none)))

abbrev five : Tree
five = node 1 5 leaf leaf

abbrev twenty : Tree
twenty = node 2 20 leaf leaf

abbrev three : SearchTree
three = record { heap = three_nodes; root = some 0; len = 3 }

three-Rep : Rep three_nodes none (node 0 10 five twenty)
three-Rep = (refl, (refl, tt, tt), (refl, tt, tt))

three-Apart : Apart (node 0 10 five twenty)
three-Apart = (
  refl,
  refl,
  (λ b there. ground arith),
  (refl, refl, (λ b there. ground arith), tt, tt),
  (refl, refl, (λ b there. ground arith), tt, tt),
)

three-IsOrdered : IsOrdered (node 0 10 five twenty)
three-IsOrdered = (
  (λ q there. ground arith),
  (λ q there. ground arith),
  ((λ q there. ground arith), (λ q there. ground arith), tt, tt),
  ((λ q there. ground arith), (λ q there. ground arith), tt, tt),
)

search-Found_example :
    (r : Option ℕ) × (search 3 three 20 ≡ ok r) × Found three_nodes (node 0 10 five twenty) 20 r
search-Found_example =
    search-Found 3 three (node 0 10 five twenty) 20 three-Rep refl three-IsOrdered (omega arith)

inorder_tree_walk-preorder_example : inorder_tree_walk 3 three ≡ ok (some (10 ∷ 5 ∷ 20 ∷ [], 3))
inorder_tree_walk-preorder_example =
    inorder_tree_walk-preorder 3 three 0 10 five twenty three-Rep refl (omega arith)

search-insert_lost_example :
    (s' : SearchTree) × (insert 4 three 3 ≡ ok s') × (search 4 s' 30 ≡ ok none)
search-insert_lost_example =
    search-insert_lost 4 three 3 30 0 10 five twenty three-Rep three-Apart refl refl refl
      (omega arith) refl

-- The root has two children; the node 2 takes its place.
delete_node-without_example :
    (h' : Heap) × (delete_node 3 three 10 ≡ ok (record { heap = h'; root = some 2; len = 3 }))
    × Rep h' none (without 10 (node 0 10 five twenty))
delete_node-without_example =
    delete_node-without 3 three (node 0 10 five twenty) 10 three-Rep three-Apart refl (omega arith)

delete_node-IsOrdered_example :
    (h' : Heap) × (t' : Tree) × (delete_node 3 three 10
      ≡ ok (record { heap = h'; root = top t'; len = 3 }))
    × Rep h' none t'
    × IsOrdered t'
    × (has_key 20 t' ≡ true)
delete_node-IsOrdered_example =
    delete_node-IsOrdered 3 three (node 0 10 five twenty) 10 20 three-Rep three-Apart refl
      (omega arith) three-IsOrdered (omega arith)

-- 10 stands between 5 and 20.
tree_successor-next_in_example :
    (tree_successor 3 three 10 ≡ ok (some 2)) × (tree_predecessor 3 three 10 ≡ ok (some 1))
tree_successor-next_in_example =
    tree_successor-next_in 3 three (node 0 10 five twenty) 10 three-Rep three-Apart refl
      (omega arith)
