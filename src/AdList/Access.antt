-- ===== src/AdList/Access.antt =====
-- The macros of adlist.h: the ends and the length of a list, the neighbours and the value of a node,
-- and the methods of a list.
use myprogram.Prelude.{ℕ, ◌≡◌, refl, Bool, Option, none, some, ◌∷◌, ◌++◌, Run, ok, ◌>>=◌, length}
use myprogram.AdList.{Heap, AdList, load}
use myprogram.AdList.Chain.{Nodes, first, last_or, Represents}
use myprogram.AdList.Search.{load-at}
use myprogram.AdList.Purge.{node-within}

unfoldable pub list_length : AdList → ℕ
list_length l = l.len

unfoldable pub list_first : AdList → Option ℕ
list_first l = l.head

unfoldable pub list_last : AdList → Option ℕ
list_last l = l.tail

unfoldable pub list_prev_node : Heap → Option ℕ → Run (Option ℕ)
list_prev_node h p = do (_, n) ← load h p; ok n.prev

unfoldable pub list_next_node : Heap → Option ℕ → Run (Option ℕ)
list_next_node h p = do (_, n) ← load h p; ok n.next

unfoldable pub list_node_value : Heap → Option ℕ → Run ℕ
list_node_value h p = do (_, n) ← load h p; ok n.value

unfoldable pub list_set_dup_method : AdList → Option (ℕ → Option ℕ) → AdList
list_set_dup_method l m = record l { dup = m }

unfoldable pub list_set_free_method : AdList → Bool → AdList
list_set_free_method l m = record l { has_free = m }

unfoldable pub list_set_match_method : AdList → Option (ℕ → ℕ → Bool) → AdList
list_set_match_method l m = record l { matches = m }

-- Other methods leave the list with its values.
pub set_methods-Represents :
    (h : Heap) (l : AdList) (xs : Nodes) (dup : Option (ℕ → Option ℕ)) (has_free : Bool)
    (matches : Option (ℕ → ℕ → Bool))
    → Represents h l xs
    → Represents h
        (list_set_match_method (list_set_free_method (list_set_dup_method l dup) has_free) matches)
        xs
unfolding list_set_dup_method list_set_free_method list_set_match_method
set_methods-Represents h l xs dup has_free matches r = record {
  chain = r.chain;
  head = r.head;
  tail = r.tail;
  len = r.len;
  distinct = r.distinct;
}

-- The macros on a node of a list tell its neighbours and its value, and those on the list its ends
-- and the number of its nodes.
pub node_macros :
    (h : Heap) (l : AdList) (ys : Nodes) (a v : ℕ) (zs : Nodes)
    → Represents h l (ys ++ (a, v) ∷ zs)
    → (list_prev_node h (some a) ≡ ok (last_or none ys))
      × (list_next_node h (some a) ≡ ok (first zs))
      × (list_node_value h (some a) ≡ ok v)
      × (list_first l ≡ first (ys ++ (a, v) ∷ zs))
      × (list_last l ≡ last_or none (ys ++ (a, v) ∷ zs))
      × (list_length l ≡ length (ys ++ (a, v) ∷ zs))
unfolding list_prev_node list_next_node list_node_value list_first list_last list_length
node_macros h l ys a v zs r =
    let at = load-at h a _ (node-within h none ys a v zs r.chain) in
    (rw at refl, rw at refl, rw at refl, r.head, r.tail, r.len)
