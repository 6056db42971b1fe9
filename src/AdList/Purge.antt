-- ===== src/AdList/Purge.antt =====
-- Deleting the node that an iterator has just returned, which the comment at listNext in adlist.c
-- allows.
use myprogram.Prelude.{
  ℕ, zero, suc, ◌<◌, ◌≡◌, refl, sym, ap, subst, ◌∙◌, inl, inr, Bool, Option, none, some, [], ◌∷◌,
  ◌++◌, append_assoc, arith, length, Run, ok, out_of_fuel, ◌>>=◌, if◌then◌else◌, Bool-cases,
}
use myprogram.AdList.{
  Heap, ListIter, AdList, start_head, node, load, list_next, list_get_iterator, list_del_node,
}
use myprogram.AdList.Chain.{Nodes, first, last_or, Chain, Represents}
use myprogram.AdList.Search.{load-at}
use myprogram.AdList.Removal.{list_del_node-Deleted}

-- `while ((node = listNext(iter)) != NULL) if (doomed(listNodeValue(node))) listDelNode(list,
-- node);`
unfoldable pub purge : ℕ → Heap → AdList → (ℕ → Bool) → ListIter → Run (Heap × AdList)
purge zero h l doomed iter = out_of_fuel
purge (suc k) h l doomed iter = do
  (iter', current) ← list_next h iter
  elim current [
    | none ↦ ok (h, l)
    | some a ↦ do
      (_, n) ← load h (some a)
      let rest = purge k h l doomed iter'
      let shorter = (do (h', l', _) ← list_del_node h l a; purge k h' l' doomed iter')
      if doomed n.value then shorter else rest
  ]

-- The nodes that stay.
abbrev pub spared : (ℕ → Bool) → Nodes → Nodes
spared doomed [] = []
spared doomed ((a, v) ∷ xs) = if doomed v then spared doomed xs else (a, v) ∷ spared doomed xs

pub node-within :
    (h : Heap) (p : Option ℕ) (ys : Nodes) (a v : ℕ) (zs : Nodes)
    → Chain h p (ys ++ (a, v) ∷ zs)
    → h a ≡ some (node (last_or p ys) (first zs) v)
node-within h p [] a v zs c = c.0
node-within h p ((b, w) ∷ ys) a v zs c = node-within h (some b) ys a v zs c.1

-- In front of the iterator stand the nodes that it has spared.
purge-spared :
    (k : ℕ) (h : Heap) (l : AdList) (doomed : ℕ → Bool) (ys zs : Nodes)
    → length zs < k
    → Represents h l (ys ++ zs)
    → (h' : Heap) × (l' : AdList) × (purge k h l doomed
          (record { next = first zs; direction = start_head })
        ≡ ok (h', l'))
      × Represents h' l' (ys ++ spared doomed zs)
unfolding purge list_next
purge-spared zero h l doomed ys zs fuel r = absurd (omega arith)
purge-spared (suc k) h l doomed ys [] fuel r = (h, l, refl, r)
purge-spared (suc k) h l doomed ys ((a, v) ∷ zs) fuel r =
    let at = load-at h a _ (node-within h none ys a v zs r.chain) in
    elim (Bool-cases (doomed v)) [
      | inl yes_doomed ↦
          let (h1, l1, run1, r1, _, _) = list_del_node-Deleted h l ys a v zs r in
          let (h', l', run, r') = purge-spared k h1 l1 doomed ys zs (omega arith) r1 in
          rw yes_doomed (h', l', rw (at, at, yes_doomed, run1) run, r')
      | inr no_doom ↦
          let along : Represents h l ((ys ++ (a, v) ∷ []) ++ zs) =
            subst (Represents h l) (sym (append_assoc ys ((a, v) ∷ []) zs)) r in
          let (h', l', run, r') =
            purge-spared k h l doomed (ys ++ (a, v) ∷ []) zs (omega arith) along in
          rw no_doom (
            h',
            l',
            rw (at, at, no_doom) run,
            subst (Represents h' l') (append_assoc ys ((a, v) ∷ []) (spared doomed zs)) r',
          )
    ]

-- A loop with listNext over a list from its head, which deletes some of the nodes with listDelNode
-- as it comes to them: it ends, and leaves exactly the other nodes, in their order, with all
-- pointers, both ends and the length right.
pub list_next-list_del_node :
    (h : Heap) (l : AdList) (doomed : ℕ → Bool) (xs : Nodes)
    → Represents h l xs
    → (h' : Heap) × (l' : AdList) × (purge (suc l.len) h l doomed (list_get_iterator l start_head)
        ≡ ok (h', l'))
      × Represents h' l' (spared doomed xs)
unfolding list_get_iterator
list_next-list_del_node h l doomed xs r =
    let (h', l', run, r') = purge-spared (suc l.len) h l doomed [] xs (omega (arith, r.len)) r in
    (
      h',
      l',
      ap (λ p. purge (suc l.len) h l doomed (record { next = p; direction = start_head })) r.head
          ∙ run,
      r',
    )
