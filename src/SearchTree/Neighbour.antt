-- ===== src/SearchTree/Neighbour.antt =====
-- treeSuccessor and treePreDecessor of searchTree.cpp.
use myprogram.Prelude.{
  ℕ, zero, suc, Bool, false, Option, none, some, ◌==◌, if◌then◌else◌, is_null, Run, ok, out_of_fuel,
  ◌>>=◌,
}
use myprogram.SearchTree.{Heap, SearchTree, load, search, leftmost, rightmost}

abbrev pub points : Option ℕ → ℕ → Bool
points none a = false
points (some b) a = b == a

-- `while (NULL != y && pNode == y->right)`: the first parent that is reached from its left.
unfoldable pub up_right : ℕ → Heap → ℕ → Option ℕ → Run (Option ℕ)
up_right zero h a y = out_of_fuel
up_right (suc k) h a none = ok none
up_right (suc k) h a (some b) = do
  (_, n) ← load h (some b)
  let rest = up_right k h b n.parent
  if points n.right a then rest else ok (some b)

unfoldable pub up_left : ℕ → Heap → ℕ → Option ℕ → Run (Option ℕ)
up_left zero h a y = out_of_fuel
up_left (suc k) h a none = ok none
up_left (suc k) h a (some b) = do
  (_, n) ← load h (some b)
  let rest = up_left k h b n.parent
  if points n.left a then rest else ok (some b)

unfoldable pub tree_successor : ℕ → SearchTree → ℕ → Run (Option ℕ)
tree_successor k t key = do
  found ← search k t key
  elim found [
    | none ↦ ok none
    | some a ↦ do
      (_, n) ← load t.heap (some a)
      let down = (do b ← leftmost k t.heap n.right; ok (some b))
      let up = up_right k t.heap a n.parent
      if is_null n.right then up else down
  ]

unfoldable pub tree_predecessor : ℕ → SearchTree → ℕ → Run (Option ℕ)
tree_predecessor k t key = do
  found ← search k t key
  elim found [
    | none ↦ ok none
    | some a ↦ do
      (_, n) ← load t.heap (some a)
      let down = (do b ← rightmost k t.heap n.left; ok (some b))
      let up = up_left k t.heap a n.parent
      if is_null n.left then up else down
  ]
