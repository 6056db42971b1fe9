-- ===== src/SearchTree/Insert.antt =====
-- The private insert of searchTree.cpp.
use myprogram.Prelude.{
  ℕ, zero, suc, ◌<◌, ◌≡◌, refl, ◌≢◌, sym, ap, ◌∙◌, inl, inr, true, false, Option, none, some, arith,
  ltb, if◌then◌else◌, ok, Bool-cases, ==_ne, ==_refl, is_null, if_same,
}
use myprogram.SearchTree.{Heap, SearchTree, TreeNode, tree_node, load, store}
use myprogram.SearchTree.Addition.{insertion_parent, insert}
use myprogram.SearchTree.Shape.{
  Tree, leaf, node, top, height, is_in, Rep, Rep-same, Apart, load-at, apart_of_is_in, outside,
}

-- The tree after the insertion: the node goes under the end of the left spine, to its left if it is
-- greater, else to its right in place of what is there.
abbrev pub graft : ℕ → ℕ → Tree → Tree
graft b q leaf = node b q leaf leaf
graft b q (node a k leaf r) =
    if ltb k q then node a k (node b q leaf leaf) r else node a k leaf (node b q leaf leaf)
graft b q (node a k (node a' k' l' r') r) = node a k (graft b q (node a' k' l' r')) r

-- The end of the left spine: its address, its key, its parent and its right subtree.
abbrev spine_end : Option ℕ → ℕ → ℕ → Tree → Tree → ℕ × ℕ × Option ℕ × Tree
spine_end p a k leaf r = (a, k, p, r)
spine_end p a k (node a' k' l' r') r = spine_end (some a) a' k' l' r'

pub top-graft : (b q a k : ℕ) (l r : Tree) → top (graft b q (node a k l r)) ≡ some a
top-graft b q a k leaf r = ground arith
top-graft b q a k (node a' k' l' r') r = refl

insertion_parent-end :
    (n : ℕ) (h : Heap) (q : ℕ) (p g : Option ℕ) (a k : ℕ) (l r : Tree)
    → Rep h p (node a k l r)
    → height (node a k l r) < n
    → insertion_parent n h q (some a) g ≡ ok (some (spine_end p a k l r).0)
unfolding insertion_parent
insertion_parent-end zero h q p g a k l r v fuel = absurd (omega arith)
insertion_parent-end (suc zero) h q p g a k l r v fuel = absurd (omega arith)
insertion_parent-end (suc (suc n)) h q p g a k leaf r v fuel =
    rw (load-at h a _ v.0) (if_same (ltb q k) _)
insertion_parent-end (suc (suc n)) h q p g a k (node a' k' l' r') r v fuel =
    rw
      (
        load-at h a _ v.0,
        insertion_parent-end (suc n) h q (some a) (some a) a' k' l' r' v.1 (omega arith),
      )
      (if_same (ltb q k) _)

end-at :
    (h : Heap) (p : Option ℕ) (a k : ℕ) (l r : Tree)
    → Rep h p (node a k l r)
    → let (e, ke, pe, re) = spine_end p a k l r in h e ≡ some (tree_node ke pe none (top re))
end-at h p a k leaf r v = v.0
end-at h p a k (node a' k' l' r') r v = end-at h (some a) a' k' l' r' v.1

end-is_in :
    (p : Option ℕ) (a k : ℕ) (l r : Tree) → is_in (spine_end p a k l r).0 (node a k l r) ≡ true
end-is_in p a k leaf r = ground (arith, ==_refl a)
end-is_in p a k (node a' k' l' r') r = ground (arith, end-is_in (some a) a' k' l' r')

-- The heap after the insertion differs from the one in front of it in two nodes: the end of the
-- spine, and the new node `b`.
abbrev Grafted : Heap → Heap → ℕ → ℕ → ℕ → ℕ → Option ℕ → Tree → Type 0
Grafted h h' b q e ke pe re =
    ((c : ℕ) → c ≢ e → c ≢ b → h' c ≡ h c)
    × (h' e
        ≡ some
            (if ltb ke q then tree_node ke pe (some b) (top re) else tree_node ke pe none (some b)))
    × (h' b ≡ some (tree_node q (some e) none none))

graft-Rep :
    (h h' : Heap) (b q : ℕ) (p : Option ℕ) (a k : ℕ) (l r : Tree)
    → Rep h p (node a k l r)
    → Apart (node a k l r)
    → is_in b (node a k l r) ≡ false
    → let (e, ke, pe, re) = spine_end p a k l r in
      Grafted h h' b q e ke pe re → Rep h' p (graft b q (node a k l r))
graft-Rep h h' b q p a k leaf r v d fresh (same, at, new) =
    let (ab, _, out) = outside b a k leaf r fresh in
    let right =
      Rep-same {f = h} {g = h'} (some a) r
        (λ c there. same c (apart_of_is_in c a r there d.1) (apart_of_is_in c b r there out)) v.2 in
    elim (Bool-cases (ltb k q)) [
      | inl lt ↦
          let at' : h' a ≡ some (tree_node k p (some b) (top r)) = rw lt at at in
          rw lt (at', (new, tt, tt), right)
      | inr ge ↦
          let at' : h' a ≡ some (tree_node k p none (some b)) = rw ge at at in
          rw ge (at', tt, (new, tt, tt))
    ]
graft-Rep h h' b q p a k (node a' k' l' r') r v d fresh (same, at, new) =
    let (ab, out_left, out) = outside b a k (node a' k' l' r') r fresh in
    let e = (spine_end (some a) a' k' l' r').0 in
    let inside : is_in e (node a' k' l' r') ≡ true = end-is_in (some a) a' k' l' r' in
    let head : a ≢ e = λ q. apart_of_is_in e a (node a' k' l' r') inside d.0 (sym q) in
    let below : is_in e r ≡ false = d.2 e inside in
    (
      same a head ab
          ∙ v.0
          ∙ ap (λ q. some (tree_node k p q (top r))) (sym (top-graft b q a' k' l' r')),
      graft-Rep h h' b q (some a) a' k' l' r' v.1 d.3 out_left (same, at, new),
      Rep-same {f = h} {g = h'} (some a) r
          (λ c there. same c (apart_of_is_in c e r there below) (apart_of_is_in c b r there out))
          v.2,
    )

load-other :
    (h : Heap) (a b : ℕ) (m n : TreeNode)
    → b ≢ a
    → h b ≡ some n
    → load (store h a m) (some b) ≡ ok (b, n)
load-other h a b m n apart at = load-at (store h a m) b n (rw (==_ne b a apart) at)

-- insert of a node `b` with the key `q` and no children, into a tree that is not empty and does not
-- hold it: it ends with a heap that holds the tree `graft`, and the root and the count of nodes are
-- those from before.
pub insert-graft :
    (n : ℕ) (s : SearchTree) (b q : ℕ) (a k : ℕ) (l r : Tree)
    → Rep s.heap none (node a k l r)
    → Apart (node a k l r)
    → s.root ≡ some a
    → s.heap b ≡ some (tree_node q none none none)
    → is_in b (node a k l r) ≡ false
    → height (node a k l r) < n
    → (h' : Heap) × (insert n s b ≡ ok (record s { heap = h' }))
      × Rep h' none (graft b q (node a k l r))
unfolding insert
insert-graft n s b q a k l r v d root new fresh fuel =
    let h = s.heap in
    let (e, ke, pe, re) = spine_end none a k l r in
    let apart : b ≢ e =
      λ eq. apart_of_is_in e b (node a k l r) (end-is_in none a k l r) fresh (sym eq) in
    let filled : is_null s.root ≡ false = rw root refl in
    let parent =
      ap (λ p. insertion_parent n h q p none) root
      ∙ insertion_parent-end n h q none none a k l r v fuel in
    let old = tree_node ke pe none (top re) in
    let p' = if ltb ke q then record old { left = some b } else record old { right = some b } in
    let h1 = store h e p' in
    let h2 = store h1 b (tree_node q (some e) none none) in
    (
      h2,
      rw
          (
            filled,
            load-at h b _ new,
            parent,
            load-at h e old (end-at h none a k l r v),
            load-other h e b p' _ apart new,
          )
          refl,
      graft-Rep h h2 b q none a k l r v d fresh (
        (λ c ne nb. rw (==_ne c b nb, ==_ne c e ne) refl),
        rw (==_ne e b (λ eq. apart (sym eq)), ==_refl e) refl,
        rw (==_refl b) refl,
      ),
    )
