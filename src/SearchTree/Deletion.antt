-- ===== src/SearchTree/Deletion.antt =====
-- transplant and deleteNode of searchTree.cpp.
use myprogram.Prelude.{ℕ, Option, none, some, if◌then◌else◌, is_null, Run, ok, ◌>>=◌}
use myprogram.SearchTree.Neighbour.{points, tree_successor}
use myprogram.SearchTree.{TreeNode, Heap, SearchTree, load, store, search}

-- The link in the parent of `u`, or the root.
unfoldable pub relink : SearchTree → ℕ → TreeNode → Option ℕ → Run SearchTree
relink t u n v = elim n.parent [
  | none ↦ ok (record t { root = v })
  | some b ↦ do
    (_, p) ← load t.heap (some b)
    let p' = if points p.left u then record p { left = v } else record p { right = v }
    ok (record t { heap = store t.heap b p' })
]

-- `if (v != NULL) v->parent = p;`
unfoldable pub set_parent : Heap → Option ℕ → Option ℕ → Run Heap
set_parent h none p = ok h
set_parent h (some v) p = do (_, m) ← load h (some v); ok (store h v (record m { parent = p }))

unfoldable pub transplant : SearchTree → ℕ → Option ℕ → Run SearchTree
transplant t u v = do
  (_, n) ← load t.heap (some u)
  t1 ← relink t u n v
  (_, n1) ← load t1.heap (some u)
  h ← set_parent t1.heap v n1.parent
  ok (record t1 { heap = h })

-- `y->right = x->right; y->right->parent = y;` and the same on the left.
unfoldable pub adopt_right : Heap → ℕ → ℕ → Run Heap
adopt_right h x y = do
  (_, n) ← load h (some x)
  (_, m) ← load h (some y)
  let h1 = store h y (record m { right = n.right })
  (c, o) ← load h1 n.right
  ok (store h1 c (record o { parent = some y }))

unfoldable pub adopt_left : Heap → ℕ → ℕ → Run Heap
adopt_left h x y = do
  (_, n) ← load h (some x)
  (_, m) ← load h (some y)
  let h1 = store h y (record m { left = n.left })
  (c, o) ← load h1 n.left
  ok (store h1 c (record o { parent = some y }))

-- The branch of deleteNode for a node with two children. The successor is looked for again by key.
unfoldable pub replace : ℕ → SearchTree → ℕ → ℕ → Run SearchTree
replace k t x key = do
  y ← tree_successor k t key
  (b, m) ← load t.heap y
  let apart = (do
    t1 ← transplant t b m.right
    h ← adopt_right t1.heap x b
    ok (record t1 { heap = h }))
  t2 ← (if points m.parent x then ok t else apart)
  t3 ← transplant t2 x (some b)
  h ← adopt_left t3.heap x b
  ok (record t3 { heap = h })

-- deleteNode: the node is taken out of the tree; it is not freed, and the length stays.
unfoldable pub delete_node : ℕ → SearchTree → ℕ → Run SearchTree
delete_node k t key = do
  found ← search k t key
  elim found [
    | none ↦ ok t
    | some x ↦ do
      (_, n) ← load t.heap (some x)
      let by_right = transplant t x n.right
      let by_left = transplant t x n.left
      let by_successor = replace k t x key
      if is_null n.left then by_right else (if is_null n.right then by_left else by_successor)
  ]
