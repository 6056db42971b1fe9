-- ===== src/SearchTree/Finish.antt =====
-- The end of deleteNode of searchTree.cpp for a node with two children: its successor, with all that
-- is to be on its right, takes its place and its left subtree.
use myprogram.Prelude.{
  ℕ, ◌≡◌, refl, ◌≢◌, sym, ◌∙◌, true, false, Option, none, some, arith, ==_refl, ==_ne, ok,
}
use myprogram.SearchTree.{Heap, SearchTree, TreeNode, tree_node, store}
use myprogram.SearchTree.Deletion.{transplant, adopt_left, adopt_right}
use myprogram.SearchTree.Shape.{
  Tree, leaf, node, top, is_in, Rep, Rep-same, Apart, load-at, outside,
}
use myprogram.SearchTree.Context.{
  Context, above, root_of, is_around, Holds, Holds-same, IsApart, Disjoint,
}
use myprogram.SearchTree.Transplant.{transplant-Holds}

-- `y->left = x->left; y->left->parent = y;` where `x` has a left subtree and `y` none.
adopt_left-Rep :
    (h : Heap) (p q : Option ℕ) (x y : ℕ) (n : TreeNode) (j a k : ℕ) (l r rest : Tree)
    → h x ≡ some n
    → n.left ≡ some a
    → Rep h q (node a k l r)
    → Apart (node a k l r)
    → Rep h p (node y j leaf rest)
    → is_in y rest ≡ false
    → ((b : ℕ) → is_in b (node a k l r) ≡ true → is_in b (node y j leaf rest) ≡ false)
    → (h' : Heap) × (adopt_left h x y ≡ ok h')
      × Rep h' p (node y j (node a k l r) rest)
      × ((b : ℕ) → b ≢ y → b ≢ a → h' b ≡ h b)
unfolding adopt_left
adopt_left-Rep h p q x y n j a k l r rest at_x left (at, rep_l, rep_r)
      (out_l, out_r, apart_lr, dl, dr) (at_y, none_l, rep_rest) out_y apart =
    let m = tree_node j p (some a) (top rest) in
    let h1 = store h y m in
    let a_y : a ≢ y = λ e. (outside a y j leaf rest (apart a (rw (==_refl a) refl))).0 (sym e) in
    let h' = store h1 a (tree_node k (some y) (top l) (top r)) in
    let at1 : h1 a ≡ some (tree_node k q (top l) (top r)) = rw (==_ne a y a_y) at in
    let other : (b : ℕ) → b ≢ y → b ≢ a → h' b ≡ h b =
      λ b ny na. rw (==_ne b a na, ==_ne b y ny) refl in
    let apart_l : (b : ℕ) → is_in b l ≡ true → b ≢ y =
      λ b there e. (outside b y j leaf rest (apart b (ground (arith, there)))).0 (sym e) in
    let apart_r : (b : ℕ) → is_in b r ≡ true → b ≢ y =
      λ b there e. (outside b y j leaf rest (apart b (ground (arith, there)))).0 (sym e) in
    let a_rest : is_in a rest ≡ false =
      (outside a y j leaf rest (apart a (rw (==_refl a) refl))).2 in
    (
      h',
      rw (load-at h x n at_x, load-at h y _ at_y, left, load-at h1 a _ at1) refl,
      (
        rw (==_ne y a (λ e. a_y (sym e)), ==_refl y) refl,
        (
          rw (==_refl a) refl,
          Rep-same {f = h} {g = h'} (some a) l
              (λ b there. other b (apart_l b there) (λ e. cc (e, there, out_l))) rep_l,
          Rep-same {f = h} {g = h'} (some a) r
              (λ b there. other b (apart_r b there) (λ e. cc (e, there, out_r))) rep_r,
        ),
        Rep-same {f = h} {g = h'} (some y) rest
            (λ b there. other b (λ e. cc (e, there, out_y)) (λ e. cc (e, there, a_rest))) rep_rest,
      ),
      other,
    )

-- `y->right = x->right; y->right->parent = y;` where `x` has a right subtree and `y` has no left
-- one.
pub adopt_right-Rep :
    (h : Heap) (p q s : Option ℕ) (x y : ℕ) (n : TreeNode) (j a k : ℕ) (l r : Tree)
    → h x ≡ some n
    → n.right ≡ some a
    → Rep h q (node a k l r)
    → Apart (node a k l r)
    → h y ≡ some (tree_node j p none s)
    → is_in y (node a k l r) ≡ false
    → (h' : Heap) × (adopt_right h x y ≡ ok h')
      × Rep h' p (node y j leaf (node a k l r))
      × ((b : ℕ) → b ≢ y → b ≢ a → h' b ≡ h b)
unfolding adopt_right
adopt_right-Rep h p q s x y n j a k l r at_x right (at, rep_l, rep_r) (out_l, out_r, apart, dl, dr)
      at_y fresh =
    let m = tree_node j p none (some a) in
    let h1 = store h y m in
    let (a_y, y_l, y_r) = outside y a k l r fresh in
    let h' = store h1 a (tree_node k (some y) (top l) (top r)) in
    let at1 : h1 a ≡ some (tree_node k q (top l) (top r)) = rw (==_ne a y a_y) at in
    let other : (b : ℕ) → b ≢ y → b ≢ a → h' b ≡ h b =
      λ b ny na. rw (==_ne b a na, ==_ne b y ny) refl in
    (
      h',
      rw (load-at h x n at_x, load-at h y _ at_y, right, load-at h1 a _ at1) refl,
      (
        rw (==_ne y a (λ e. a_y (sym e)), ==_refl y) refl,
        tt,
        (
          rw (==_refl a) refl,
          Rep-same {f = h} {g = h'} (some a) l
              (λ b there. other b (λ e. cc (e, there, y_l)) (λ e. cc (e, there, out_l))) rep_l,
          Rep-same {f = h} {g = h'} (some a) r
              (λ b there. other b (λ e. cc (e, there, y_r)) (λ e. cc (e, there, out_r))) rep_r,
        ),
      ),
      other,
    )

-- transplant of the successor `y` with its right subtree `rest` to the place of `x`, and its left
-- subtree.
pub finish-Holds :
    (s : SearchTree) (c : Context) (x y j a k : ℕ) (n : TreeNode) (l r rest : Tree) (q : Option ℕ)
    → Holds s.heap c (some x)
    → s.heap x ≡ some n
    → n.parent ≡ above c
    → n.left ≡ some a
    → Rep s.heap (some x) (node a k l r)
    → Rep s.heap q (node y j leaf rest)
    → IsApart c
    → Apart (node a k l r)
    → Apart (node y j leaf rest)
    → is_around x c ≡ false
    → is_in x (node y j leaf rest) ≡ false
    → Disjoint (node a k l r) c
    → Disjoint (node y j leaf rest) c
    → ((b : ℕ) → is_in b (node a k l r) ≡ true → is_in b (node y j leaf rest) ≡ false)
    → s.root ≡ root_of c (some x)
    → (h1 : Heap) × (h2 : Heap) × (transplant s x (some y)
        ≡ ok (record s { heap = h1; root = root_of c (some y) }))
      × (adopt_left h1 x y ≡ ok h2)
      × Holds h2 c (some y)
      × Rep h2 (above c) (node y j (node a k l r) rest)
finish-Holds s c x y j a k n l r rest q out at parent left rep_left rep_y d d_left d_y x_c x_y
      free_left free_y apart root =
    let h = s.heap in
    let (h1, run1, out1, v1, same) =
      transplant-Holds s c x n (node y j leaf rest) q out at parent d x_c root rep_y d_y free_y in
    let left1 =
      Rep-same {f = h} {g = h1} (some x) (node a k l r)
        (λ b there. same b (free_left b there) (apart b there)) rep_left in
    let at1 : h1 x ≡ some n = same x x_c x_y ∙ at in
    let (h2, run2, v2, same2) =
      adopt_left-Rep h1 (above c) (some x) x y n j a k l r rest at1 left left1 d_left v1 d_y.1
        apart in
    (
      h1,
      h2,
      run1,
      run2,
      Holds-same {f = h1} {g = h2} c (some y)
          (λ b there.
            same2 b (λ e. cc (e, there, free_y y (rw (==_refl y) refl)))
              (λ e. cc (e, there, free_left a (rw (==_refl a) refl))))
          out1,
      v2,
    )
