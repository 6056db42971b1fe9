-- ===== src/SearchTree/Addition.antt =====
-- insertNode and the private insert of searchTree.cpp.
use myprogram.Prelude.{
  ℕ, zero, suc, ◌+◌, Option, none, some, ltb, if◌then◌else◌, is_null, Run, ok, out_of_fuel, ◌>>=◌,
}
use myprogram.SearchTree.{Heap, SearchTree, load, store, create_node}

-- The loop of insert: the parent under which the node is put. Both branches go to the left.
unfoldable pub insertion_parent : ℕ → Heap → ℕ → Option ℕ → Option ℕ → Run (Option ℕ)
insertion_parent zero h key p parent = out_of_fuel
insertion_parent (suc k) h key none parent = ok parent
insertion_parent (suc k) h key (some a) parent = do
  (_, n) ← load h (some a)
  let below = insertion_parent k h key n.left (some a)
  let above = insertion_parent k h key n.left (some a)
  if ltb key n.key then below else above

-- The private insert of the node `a`.
unfoldable pub insert : ℕ → SearchTree → ℕ → Run SearchTree
insert k t a =
    let first = record t { root = some a; len = t.len + 1 } in
    let join = (do
      (_, n) ← load t.heap (some a)
      parent ← insertion_parent k t.heap n.key t.root none
      (b, p) ← load t.heap parent
      let p' = if ltb p.key n.key then record p { left = some a } else record p { right = some a }
      let h1 = store t.heap b p'
      (_, n1) ← load h1 (some a)
      ok (record t { heap = store h1 a (record n1 { parent = some b }) })) in
    if is_null t.root then ok first else join

unfoldable pub insert_node : ℕ → SearchTree → ℕ → Run SearchTree
insert_node k t key = do (h, a) ← create_node t.heap key; insert k (record t { heap = h }) a
