-- ===== src/SearchTree/Lost.antt =====
-- What search of searchTree.cpp makes of a key that its insert has put into the tree.
use myprogram.Prelude.{ℕ, suc, ◌≤◌, ◌<◌, ◌≡◌, refl, sym, ap, ◌∙◌, false, none, some, arith, ok}
use myprogram.SearchTree.{SearchTree, tree_node, search, search_from}
use myprogram.SearchTree.Addition.{insert}
use myprogram.SearchTree.Shape.{Tree, leaf, node, top, height, has_key, is_in, Apart, Rep}
use myprogram.SearchTree.Search.{find, search_from-find}
use myprogram.SearchTree.Insert.{graft, insert-graft, top-graft}

find-absent : (q : ℕ) (t : Tree) → has_key q t ≡ false → find q t ≡ none
find-absent q leaf absent = refl
find-absent q (node a k l r) absent = ground (arith, find-absent q l, find-absent q r)

find-graft :
    (b q a k : ℕ) (l r : Tree)
    → has_key q (node a k l r) ≡ false
    → find q (graft b q (node a k l r)) ≡ none
find-graft b q a k leaf r absent = ground (arith, find-absent q r)
find-graft b q a k (node a' k' l' r') r absent =
    ground (arith, find-absent q r, find-graft b q a' k' l' r')

height-graft :
    (b q a k : ℕ) (l r : Tree) → height (graft b q (node a k l r)) ≤ suc (height (node a k l r))
height-graft b q a k leaf r = ground arith
height-graft b q a k (node a' k' l' r') r = omega (arith, height-graft b q a' k' l' r')

-- A key that is inserted into a tree that is not empty and does not have it is not found: insert
-- ends, and search for the key in the tree that it leaves returns NULL.
pub search-insert_lost :
    (n : ℕ) (s : SearchTree) (b q : ℕ) (a k : ℕ) (l r : Tree)
    → Rep s.heap none (node a k l r)
    → Apart (node a k l r)
    → s.root ≡ some a
    → s.heap b ≡ some (tree_node q none none none)
    → is_in b (node a k l r) ≡ false
    → suc (height (node a k l r)) < n
    → has_key q (node a k l r) ≡ false
    → (s' : SearchTree) × (insert n s b ≡ ok s') × (search n s' q ≡ ok none)
unfolding search
search-insert_lost n s b q a k l r v d root new fresh fuel absent =
    let (h', run, v') = insert-graft n s b q a k l r v d root new fresh (omega arith) in
    let t = graft b q (node a k l r) in
    let at : s.root ≡ top t = root ∙ sym (top-graft b q a k l r) in
    (
      record s { heap = h' },
      run,
      ap (search_from n h' q) at
          ∙ search_from-find n h' q none t v' (omega (arith, height-graft b q a k l r))
          ∙ ap ok (find-graft b q a k l r absent),
    )
