-- ===== src/SearchTree/Transplant.antt =====
-- transplant of searchTree.cpp.
use myprogram.Prelude.{
  ℕ, ◌≡◌, refl, ◌≢◌, sym, ap, ◌∙◌, inl, inr, Bool, true, false, ◌||◌, Option, some, arith, ◌==◌,
  ==_refl, ==_ne, ne_of_==, Bool-cases, ok,
}
use myprogram.SearchTree.{Heap, SearchTree, TreeNode, tree_node, store}
use myprogram.SearchTree.Neighbour.{points}
use myprogram.SearchTree.Deletion.{relink, set_parent, transplant}
use myprogram.SearchTree.Shape.{
  Tree, leaf, node, top, is_in, Rep, Rep-same, Apart, load-at, outside,
}
use myprogram.SearchTree.Context.{
  Context, around, on_left, on_right, above, root_of, is_around, Holds, Holds-same, IsApart,
  Disjoint,
}

-- The top of a tree gets another parent; nothing else changes.
set_parent-Rep :
    (h : Heap) (p q : Option ℕ) (t : Tree)
    → Rep h q t
    → Apart t
    → (h' : Heap) × (set_parent h (top t) p ≡ ok h')
      × Rep h' p t
      × ((b : ℕ) → is_in b t ≡ false → h' b ≡ h b)
unfolding set_parent
set_parent-Rep h p q leaf v d = (h, refl, tt, λ b out. refl)
set_parent-Rep h p q (node a k l r) (at, left, right) (out_l, out_r, apart, dl, dr) =
    let h' = store h a (tree_node k p (top l) (top r)) in
    let other : (b : ℕ) → b ≢ a → h' b ≡ h b = λ b ne. rw (==_ne b a ne) refl in
    (
      h',
      rw (load-at h a _ at) refl,
      (
        rw (==_refl a) refl,
        Rep-same {f = h} {g = h'} (some a) l (λ b there. other b (λ e. cc (e, there, out_l))) left,
        Rep-same {f = h} {g = h'} (some a) r (λ b there. other b (λ e. cc (e, there, out_r))) right,
      ),
      λ b out. other b (λ e. (outside b a k l r out).0 (sym e)),
    )

points_other : (l : Tree) (u : ℕ) → is_in u l ≡ false → points (top l) u ≡ false
points_other leaf u out = refl
points_other (node a k l r) u out = ==_ne a u (λ e. cc (e, out, ==_refl u))

three_false : (x y z : Bool) → (x || (y || z)) ≡ false → (x ≡ false) × (y ≡ false) × (z ≡ false)
three_false x y z e = ground (arith, e)

above_out :
    (b a : ℕ) (t : Tree) (c : Context) → ((b == a) || (is_in b t || is_around b c)) ≡ false → b ≢ a
above_out b a t c o = ne_of_== b a (three_false (b == a) (is_in b t) (is_around b c) o).0

side_out :
    (b a : ℕ) (t : Tree) (c : Context)
    → ((b == a) || (is_in b t || is_around b c)) ≡ false
    → is_in b t ≡ false
side_out b a t c o = (three_false (b == a) (is_in b t) (is_around b c) o).1

context_out :
    (t : Tree) (c : Context) → Disjoint t c → (b : ℕ) → is_around b c ≡ true → is_in b t ≡ false
context_out t c free b there = elim (Bool-cases (is_in b t)) [
  | inl held ↦ absurd (cc (there, free b held))
  | inr o ↦ o
]

-- The link in the parent of `u`, or the root, leads to `v`.
relink-Holds :
    (s : SearchTree) (u : ℕ) (n : TreeNode) (v : Option ℕ) (c : Context)
    → Holds s.heap c (some u)
    → n.parent ≡ above c
    → IsApart c
    → is_around u c ≡ false
    → s.root ≡ root_of c (some u)
    → (h' : Heap) × (relink s u n v ≡ ok (record s { heap = h'; root = root_of c v }))
      × Holds h' c v
      × ((b : ℕ) → is_around b c ≡ false → h' b ≡ s.heap b)
unfolding relink
relink-Holds s u n v around out parent d fresh root =
    (s.heap, rw (parent, relink) refl, tt, λ b o. refl)
relink-Holds s u n v (on_left a k r c) (at, side, out) parent (not_r, not_c, apart, dr, dc) fresh
      root =
    let h = s.heap in
    let h' = store h a (tree_node k (above c) v (top r)) in
    let other : (b : ℕ) → b ≢ a → h' b ≡ h b = λ b ne. rw (==_ne b a ne) refl in
    let run : relink s u n v ≡ ok (record s { heap = h' }) =
      rw (parent, load-at h a _ at, ==_refl u, relink) refl in
    (
      h',
      run ∙ ap (λ q. ok (record s { heap = h'; root = q })) root,
      (
        rw (==_refl a) refl,
        Rep-same {f = h} {g = h'} (some a) r (λ b there. other b (λ e. cc (e, there, not_r))) side,
        Holds-same {f = h} {g = h'} c (some a) (λ b there. other b (λ e. cc (e, there, not_c))) out,
      ),
      λ b o. other b (above_out b a r c o),
    )
relink-Holds s u n v (on_right a k l c) (at, side, out) parent (not_l, not_c, apart, dl, dc) fresh
      root =
    let h = s.heap in
    let h' = store h a (tree_node k (above c) (top l) v) in
    let other : (b : ℕ) → b ≢ a → h' b ≡ h b = λ b ne. rw (==_ne b a ne) refl in
    let right : points (top l) u ≡ false = points_other l u (side_out u a l c fresh) in
    let run : relink s u n v ≡ ok (record s { heap = h' }) =
      rw (parent, load-at h a _ at, right, relink) refl in
    (
      h',
      run ∙ ap (λ q. ok (record s { heap = h'; root = q })) root,
      (
        rw (==_refl a) refl,
        Rep-same {f = h} {g = h'} (some a) l (λ b there. other b (λ e. cc (e, there, not_l))) side,
        Holds-same {f = h} {g = h'} c (some a) (λ b there. other b (λ e. cc (e, there, not_c))) out,
      ),
      λ b o. other b (above_out b a l c o),
    )

-- transplant of a tree `t` to the place of the node `u`, where `t` shares no node with what is
-- around `u`: the tree comes to stand in the context of `u`, with the pointers up and down and the
-- root right, and nothing else on the heap changes.
pub transplant-Holds :
    (s : SearchTree) (c : Context) (u : ℕ) (n : TreeNode) (t : Tree) (q : Option ℕ)
    → Holds s.heap c (some u)
    → s.heap u ≡ some n
    → n.parent ≡ above c
    → IsApart c
    → is_around u c ≡ false
    → s.root ≡ root_of c (some u)
    → Rep s.heap q t
    → Apart t
    → Disjoint t c
    → (h' : Heap) × (transplant s u (top t) ≡ ok (record s { heap = h'; root = root_of c (top t) }))
      × Holds h' c (top t)
      × Rep h' (above c) t
      × ((b : ℕ) → is_around b c ≡ false → is_in b t ≡ false → h' b ≡ s.heap b)
unfolding transplant
transplant-Holds s c u n t q out at parent d fresh root v dt free =
    let h = s.heap in
    let (h1, run1, out1, same1) = relink-Holds s u n (top t) c out parent d fresh root in
    let v1 = Rep-same {f = h} {g = h1} q t (λ b there. same1 b (free b there)) v in
    let (h2, run2', v2, same2) = set_parent-Rep h1 (above c) q t v1 dt in
    let run2 : set_parent h1 (top t) n.parent ≡ ok h2 = ap (set_parent h1 (top t)) parent ∙ run2' in
    let out2 =
      Holds-same {f = h1} {g = h2} c (top t) (λ b there. same2 b (context_out t c free b there))
        out1 in
    (
      h2,
      rw (load-at h u n at, run1, load-at h1 u n (same1 u fresh ∙ at), run2) refl,
      out2,
      v2,
      λ b o1 o2. same2 b o2 ∙ same1 b o1,
    )
