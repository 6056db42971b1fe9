-- ===== src/SearchTree.antt =====
-- tree/searchTree.h and tree/searchTree.cpp: a binary search tree of nodes on a heap. A pointer to a
-- node is an `Option ℕ`, `none` for NULL. A key is an int that is only copied and compared, so it is
-- its distance from the least int. A loop or a recursion along pointers takes fuel.
pub mod Neighbour
pub mod Addition
pub mod Deletion
pub mod Shape
pub mod Search
pub mod Ends
pub mod Walk
pub mod Insert
pub mod Lost
pub mod Context
pub mod Transplant
pub mod Least
pub mod Finish
pub mod Replace
pub mod Delete
pub mod Deleted
pub mod Order
pub mod Inorder
pub mod Beside
use myprogram.Prelude.{
  ℕ, zero, suc, ◌+◌, Bool, true, false, Option, none, some, List, [], ◌∷◌, ◌++◌, ltb, ◌==◌,
  if◌then◌else◌, is_null, Run, ok, fault, out_of_fuel, ◌>>=◌, ◌>>◌, assert, update, length,
}

-- STSearchTreeNode
pub record TreeNode : Type 0 where
  pub key : ℕ
  pub parent : Option ℕ
  pub left : Option ℕ
  pub right : Option ℕ

abbrev pub Heap : Type 0
Heap = ℕ → Option TreeNode

abbrev pub tree_node : ℕ → Option ℕ → Option ℕ → Option ℕ → TreeNode
tree_node k p l r = record { key = k; parent = p; left = l; right = r }

-- CBinarySearchTree, with the heap that its nodes are in.
pub record SearchTree : Type 0 where
  pub heap : Heap
  pub root : Option ℕ
  pub len : ℕ

-- `*p`
unfoldable pub load : Heap → Option ℕ → Run (ℕ × TreeNode)
load h none = fault
load h (some a) = elim (h a) [ none ↦ fault | some n ↦ ok (a, n) ]

abbrev pub store : Heap → ℕ → TreeNode → Heap
store h a n = update h a (some n)

-- The constructor.
unfoldable pub create : Heap → SearchTree
create h = record { heap = h; root = none; len = 0 }

-- The destructor. A node has no destructor, so the root alone is deleted.
unfoldable pub destroy : SearchTree → SearchTree
destroy t = elim t.root [
  | none ↦ record t { len = 0 }
  | some a ↦ record { heap = update t.heap a none; root = none; len = 0 }
]

-- createNode ends without a return, and its callers use the result.
unfoldable pub create_node : Heap → ℕ → Run (Heap × ℕ)
create_node h key = fault

-- The private inorder_tree_walk. `out` is what has been written to an array of `len` keys.
unfoldable pub walk : ℕ → Heap → ℕ → Option ℕ → List ℕ → Run (List ℕ)
walk zero h len p out = out_of_fuel
walk (suc k) h len none out = ok out
walk (suc k) h len (some a) out = do
  (_, n) ← load h (some a)
  assert (ltb (length out) len)
  out' ← walk k h len n.left (out ++ n.key ∷ [])
  walk k h len n.right out'

-- inorder_tree_walk: the new array and its length, or nothing for an empty tree.
unfoldable pub inorder_tree_walk : ℕ → SearchTree → Run (Option (List ℕ × ℕ))
inorder_tree_walk k t =
    let written = (do out ← walk k t.heap t.len t.root []; ok (some (out, t.len))) in
    if is_null t.root then ok none else written

-- `while (p->left) p = p->left;`
unfoldable pub leftmost : ℕ → Heap → Option ℕ → Run ℕ
leftmost zero h p = out_of_fuel
leftmost (suc k) h p = do
  (a, n) ← load h p
  let rest = leftmost k h n.left
  if is_null n.left then ok a else rest

unfoldable pub rightmost : ℕ → Heap → Option ℕ → Run ℕ
rightmost zero h p = out_of_fuel
rightmost (suc k) h p = do
  (a, n) ← load h p
  let rest = rightmost k h n.right
  if is_null n.right then ok a else rest

-- `key = pNode->left->key`, at the node where the loop ends.
unfoldable pub min_key : ℕ → SearchTree → Run (Option ℕ)
min_key k t =
    let found = (do
      a ← leftmost k t.heap t.root
      (_, n) ← load t.heap (some a)
      (_, m) ← load t.heap n.left
      ok (some m.key)) in
    if is_null t.root then ok none else found

unfoldable pub max_key : ℕ → SearchTree → Run (Option ℕ)
max_key k t =
    let found = (do
      a ← rightmost k t.heap t.root
      (_, n) ← load t.heap (some a)
      (_, m) ← load t.heap n.right
      ok (some m.key)) in
    if is_null t.root then ok none else found

-- The loop of search.
unfoldable pub search_from : ℕ → Heap → ℕ → Option ℕ → Run (Option ℕ)
search_from zero h key p = out_of_fuel
search_from (suc k) h key none = ok none
search_from (suc k) h key (some a) = do
  (_, n) ← load h (some a)
  let below = search_from k h key n.left
  let above = search_from k h key n.right
  if n.key == key then ok (some a) else (if ltb key n.key then below else above)

unfoldable pub search : ℕ → SearchTree → ℕ → Run (Option ℕ)
search k t key = search_from k t.heap key t.root
