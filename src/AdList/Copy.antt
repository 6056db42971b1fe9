-- ===== src/AdList/Copy.antt =====
-- listDup of adlist.c.
use myprogram.Prelude.{ℕ, zero, suc, Option, none, some, List, [], Run, ok, out_of_fuel, ◌>>=◌}
use myprogram.AdList.{
  Heap, AdList, ListIter, start_head, load, list_create, list_release, list_add_node_tail,
  list_get_iterator, list_next,
}

-- `dup(value)`, or the same pointer.
unfoldable pub value_copy : Option (ℕ → Option ℕ) → ℕ → Option ℕ
value_copy none v = some v
value_copy (some f) v = f v

-- The copy is given up: the heap, no list, and the values that have been given to `free`.
unfoldable pub give_up : Heap → AdList → Run (Heap × Option AdList × List ℕ)
give_up h copy = do (h', vs) ← list_release h copy; ok (h', none, vs)

-- The copy of a value is put behind; NULL for it and no memory for the node end the loop alike.
unfoldable pub add_copy :
    (Heap → Option ℕ) → Heap → AdList → Option ℕ → Run (Option (Heap × AdList))
add_copy malloc h copy none = ok none
add_copy malloc h copy (some v) = list_add_node_tail malloc h copy v

-- The loop over the iterator of the original.
unfoldable pub dup_loop :
    ℕ → (Heap → Option ℕ) → Heap → AdList → ListIter → Run (Heap × Option AdList × List ℕ)
dup_loop zero malloc h copy iter = out_of_fuel
dup_loop (suc k) malloc h copy iter = do
  (iter', current) ← list_next h iter
  elim current [
    | none ↦ ok (h, some copy, [])
    | some a ↦ do
      (_, n) ← load h (some a)
      added ← add_copy malloc h copy (value_copy copy.dup n.value)
      elim added [ none ↦ give_up h copy | some (h', copy') ↦ dup_loop k malloc h' copy' iter' ]
  ]

-- listDup, once malloc has given memory for the list and the iterator. A round for each node of the
-- list, and one for its end.
unfoldable pub list_dup : (Heap → Option ℕ) → Heap → AdList → Run (Heap × Option AdList × List ℕ)
list_dup malloc h orig =
    let copy = record list_create {
      dup = orig.dup;
      has_free = orig.has_free;
      matches = orig.matches;
    } in
    dup_loop (suc orig.len) malloc h copy (list_get_iterator orig start_head)
