-- ===== src/AdList/Iteration.antt =====
-- Iterators of adlist.c in both directions, and listIndex.
use myprogram.Prelude.{
  ℕ, zero, suc, ◌+◌, ◌<◌, ◌≡◌, refl, ap, ◌∙◌, Option, none, some, List, [], ◌∷◌, arith, length, ◌-◌,
  ◌^◌, true, false, ltb, lt→ltb, drop, Run, ok, fault, out_of_fuel, ◌>>=◌,
}
use myprogram.AdList.{
  Heap, ListNode, ListIter, AdList, Direction, start_head, start_tail, neighbour, list_next,
  list_get_iterator, step_on, list_index,
}
use myprogram.AdList.Chain.{Nodes, first, last_or, addresses, Chain, Represents}
use myprogram.AdList.Search.{load-at}

-- `xs` in the opposite order, in front of `acc`.
abbrev pub onto : Nodes → Nodes → Nodes
onto acc [] = acc
onto acc (x ∷ xs) = onto (x ∷ acc) xs

-- The nodes in the order in which an iterator comes to them.
abbrev pub in_order : Direction → Nodes → Nodes
in_order start_head xs = xs
in_order start_tail xs = onto [] xs

-- Each node leads to the next one in this direction.
abbrev pub Leads : Direction → Heap → Nodes → Type 0
Leads d h [] = Unit {0}
Leads d h ((a, v) ∷ xs) =
    ((n : ListNode) × (h a ≡ some n) × (neighbour d n ≡ first xs)) × Leads d h xs

Chain-forward : (h : Heap) (p : Option ℕ) (xs : Nodes) → Chain h p xs → Leads start_head h xs
Chain-forward h p [] c = tt
Chain-forward h p ((a, v) ∷ xs) c = ((_, c.0, refl), Chain-forward h (some a) xs c.1)

Chain-back :
    (h : Heap) (acc xs : Nodes)
    → Leads start_tail h acc
    → Chain h (first acc) xs
    → Leads start_tail h (onto acc xs)
Chain-back h acc [] b c = b
Chain-back h acc ((a, v) ∷ xs) b c = Chain-back h ((a, v) ∷ acc) xs ((_, c.0, refl), b) c.1

last_or-onto : (acc xs : Nodes) → last_or (first acc) xs ≡ first (onto acc xs)
last_or-onto acc [] = refl
last_or-onto acc (x ∷ xs) = last_or-onto (x ∷ acc) xs

length-onto : (acc xs : Nodes) → length (onto acc xs) ≡ length acc + length xs
length-onto acc [] = omega arith
length-onto acc (x ∷ xs) = omega (arith, length-onto (x ∷ acc) xs)

pub Represents-Leads :
    (h : Heap) (l : AdList) (d : Direction) (xs : Nodes)
    → Represents h l xs
    → Leads d h (in_order d xs)
Represents-Leads h l start_head xs r = Chain-forward h none xs r.chain
Represents-Leads h l start_tail xs r = Chain-back h [] xs tt r.chain

step_on-Leads :
    (i : ℕ) (h : Heap) (d : Direction) (xs : Nodes)
    → Leads d h xs
    → step_on i h d (first xs) ≡ ok (first (drop i xs))
unfolding step_on
step_on-Leads zero h d xs c = refl
step_on-Leads (suc i) h d [] c = refl
step_on-Leads (suc i) h d ((a, v) ∷ xs) ((n, at, leads), c) =
    rw (load-at h a n at, leads) (step_on-Leads i h d xs c)

-- listIndex of an index from 0 on gives the node with so many in front of it; of the index -j, whose
-- 64-bit pattern is 2 ^ 64 - j, for j from 1 to 2 ^ 63 - 1, the j-th node from the end; NULL where
-- the list is too short. For the least long the negation overflows.
pub list_index-in_order :
    (h : Heap) (l : AdList) (i j : ℕ) (xs : Nodes)
    → Represents h l xs
    → i < 2 ^ 63
    → 0 < j
    → j < 2 ^ 63
    → (list_index h l i ≡ ok (first (drop i xs)))
      × (list_index h l (2 ^ 64 - j) ≡ ok (first (drop (j - 1) (in_order start_tail xs))))
      × (list_index h l (2 ^ 63) ≡ fault)
unfolding list_index
list_index-in_order h l i j xs r in_long some_back back_in_long =
    let front : ltb i (2 ^ 63) ≡ true = lt→ltb i (2 ^ 63) in_long in
    let back : ltb (2 ^ 64 - j) (2 ^ 63) ≡ false = ground arith in
    let negated : ltb (2 ^ 63) (2 ^ 64 - j) ≡ true = lt→ltb (2 ^ 63) (2 ^ 64 - j) (omega arith) in
    let same : 2 ^ 64 - (2 ^ 64 - j) - 1 ≡ j - 1 = omega arith in
    (
      rw front (
          ap (step_on i h start_head) r.head
          ∙ step_on-Leads i h start_head xs (Represents-Leads h l start_head xs r)),
      rw (back, negated, same)
          (ap (step_on (j - 1) h start_tail) (r.tail ∙ last_or-onto [] xs)
            ∙ step_on-Leads (j - 1) h start_tail (in_order start_tail xs)
                (Represents-Leads h l start_tail xs r)),
      refl,
    )

-- `while ((node = listNext(iter)) != NULL)`: the nodes that it comes to.
unfoldable pub visit : ℕ → Heap → ListIter → Run (List ℕ)
visit zero h iter = out_of_fuel
visit (suc k) h iter = do
  (iter', current) ← list_next h iter
  let rest = visit k h iter'
  elim current [ none ↦ ok [] | some a ↦ do as' ← rest; ok (a ∷ as') ]

visit-Leads :
    (k : ℕ) (h : Heap) (d : Direction) (xs : Nodes)
    → length xs < k
    → Leads d h xs
    → visit k h (record { next = first xs; direction = d }) ≡ ok (addresses xs)
unfolding visit list_next
visit-Leads zero h d xs fuel c = absurd (omega arith)
visit-Leads (suc k) h d [] fuel c = refl
visit-Leads (suc k) h d ((a, v) ∷ xs) fuel ((n, at, leads), c) =
    rw (load-at h a n at, leads, visit-Leads k h d xs (omega arith) c) refl

length-in_order : (d : Direction) (xs : Nodes) → length (in_order d xs) ≡ length xs
length-in_order start_head xs = refl
length-in_order start_tail xs = omega (arith, length-onto [] xs)

list_get_iterator-first :
    (h : Heap) (l : AdList) (d : Direction) (xs : Nodes)
    → Represents h l xs
    → list_get_iterator l d ≡ record { next = first (in_order d xs); direction = d }
unfolding list_get_iterator
list_get_iterator-first h l start_head xs r =
    ap (λ p. let i : ListIter = record { next = p; direction = start_head } in i) r.head
list_get_iterator-first h l start_tail xs r =
    ap (λ p. let i : ListIter = record { next = p; direction = start_tail } in i)
      (r.tail ∙ last_or-onto [] xs)

-- An iterator of either direction comes to each node once, in the order of its direction, and then
-- to the end.
pub visit-in_order :
    (h : Heap) (l : AdList) (d : Direction) (xs : Nodes)
    → Represents h l xs
    → visit (suc l.len) h (list_get_iterator l d) ≡ ok (addresses (in_order d xs))
visit-in_order h l d xs r =
    ap (visit (suc l.len) h) (list_get_iterator-first h l d xs r)
    ∙ visit-Leads (suc l.len) h d (in_order d xs) (omega (arith, r.len, length-in_order d xs))
        (Represents-Leads h l d xs r)
