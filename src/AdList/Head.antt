-- ===== src/AdList/Head.antt =====
-- listAddNodeHead of adlist.c.
use myprogram.Prelude.{
  ℕ, ◌+◌, ◌≡◌, ◌≢◌, refl, ap, ◌∙◌, true, false, Option, none, some, [], ◌∷◌, arith, has, ◌==◌, ok,
  apart_of_has,
}
use myprogram.AdList.{Heap, ListNode, AdList, node, load, store, list_add_node_head}
use myprogram.AdList.Chain.{Nodes, first, addresses, Represents, Chain-same}

abbrev pub Added : (Heap → Option ℕ) → Heap → AdList → ℕ → ℕ → Nodes → Type 0
Added malloc h l a value xs =
    (h' : Heap) × (l' : AdList) × (list_add_node_head malloc h l value ≡ ok (some (h', l')))
    × Represents h' l' ((a, value) ∷ xs)
    × ((b : ℕ) → b ≢ a → has b (addresses xs) ≡ false → h' b ≡ h b)

load-other :
    (h : Heap) (a b : ℕ) (m n : ListNode)
    → (b == a) ≡ false
    → h b ≡ some n
    → load (store h a m) (some b) ≡ ok (b, n)
unfolding load
load-other h a b m n apart at = rw (apart, at, load) refl

add-empty :
    (malloc : Heap → Option ℕ) {h : Heap} {l : AdList} (a value : ℕ)
    → Represents h l []
    → malloc h ≡ some a
    → Added malloc h l a value []
unfolding list_add_node_head
add-empty malloc {h} {l} a value v m =
    let empty : (l.len == 0) ≡ true = ground (arith, v.len) in
    (
      store h a (node none none value),
      record l { head = some a; tail = some a; len = l.len + 1 },
      rw (m, empty, list_add_node_head) refl,
      record {
        chain = (ground arith, tt);
        head = refl;
        tail = refl;
        len = omega (arith, v.len);
        distinct = (refl, tt);
      },
      λ b ne out. ground arith,
    )

add-front :
    (malloc : Heap → Option ℕ) {h : Heap} {l : AdList} (a value b w : ℕ) (xs : Nodes)
    → Represents h l ((b, w) ∷ xs)
    → malloc h ≡ some a
    → has a (addresses ((b, w) ∷ xs)) ≡ false
    → Added malloc h l a value ((b, w) ∷ xs)
unfolding list_add_node_head
add-front malloc {h} {l} a value b w xs v m fresh =
    let filled : (l.len == 0) ≡ false = ground (arith, v.len) in
    let apart : (b == a) ≡ false = ground arith in
    let new = node none l.head value in
    let run : load (store h a new) l.head ≡ ok (b, node none (first xs) w) =
      ap (load (store h a new)) v.head
      ∙ load-other h a b new (node none (first xs) w) apart v.chain.0 in
    let h' = store (store h a new) b (node (some a) (first xs) w) in
    let other : (c : ℕ) → has c (addresses xs) ≡ true → h' c ≡ h c =
      λ c there. ground (arith, apart_of_has c b (addresses xs), apart_of_has c a (addresses xs)) in
    (
      store (store h a new) b (node (some a) (first xs) w),
      record l { head = some a; len = l.len + 1 },
      rw (m, filled, run, list_add_node_head) refl,
      record {
        chain = (
          ground (arith, v.head),
          (
            ground arith,
            Chain-same {f = h} {g = h'} (some b) xs (λ c there. other c there) v.chain.1,
          ),
        );
        head = refl;
        tail = v.tail;
        len = omega (arith, v.len);
        distinct = (fresh, v.distinct);
      },
      λ c ne out. ground arith,
    )

-- listAddNodeHead with memory for a node at an address that the list does not use: the list is the
-- value in front of those that were there, with both pointers of every node, both ends and the
-- length right, and nothing else on the heap changes.
pub list_add_node_head-Added :
    (malloc : Heap → Option ℕ) (h : Heap) (l : AdList) (a value : ℕ) (xs : Nodes)
    → Represents h l xs
    → malloc h ≡ some a
    → has a (addresses xs) ≡ false
    → Added malloc h l a value xs
list_add_node_head-Added malloc h l a value [] v m fresh = add-empty malloc a value v m
list_add_node_head-Added malloc h l a value ((b, w) ∷ xs) v m fresh =
    add-front malloc a value b w xs v m fresh
