-- ===== src/SearchTree/Replace.antt =====
-- deleteNode of searchTree.cpp at a node with two children.
use myprogram.Prelude.{
  ℕ, ◌≡◌, refl, sym, ap, ◌∙◌, inl, inr, true, false, none, some, ◌==◌, ==_refl, ==_ne, eq_of_==,
  Bool-cases, ok, subst,
}
use myprogram.SearchTree.{Heap, SearchTree, TreeNode, tree_node, search, leftmost}
use myprogram.SearchTree.Neighbour.{points, tree_successor}
use myprogram.SearchTree.Deletion.{transplant, replace}
use myprogram.SearchTree.Shape.{Tree, leaf, node, top, is_in, Rep, Rep-same, Apart, load-at}
use myprogram.SearchTree.Context.{
  Context, on_left, on_right, plug, above, root_of, is_around, Holds, Holds-same, plug-Holds,
  plug-Rep, top-plug, plug-IsApart,
}
use myprogram.SearchTree.Transplant.{transplant-Holds}
use myprogram.SearchTree.Least.{
  least, around_least, without_least, plug-least, plug-without_least, above-least, least-Taken,
  not_in_part,
}
use myprogram.SearchTree.Search.{in_left, in_right}
use myprogram.SearchTree.Finish.{adopt_right-Rep, finish-Holds}

-- The tree with the least node of the right subtree in place of its top.
abbrev pub lifted : Tree → ℕ → ℕ → Tree → Tree → Tree
lifted l a k l' r' = let (b, j, rb) = least a k l' r' in node b j l (without_least a k l' r')

pub successor-leftmost :
    (n : ℕ) (s : SearchTree) (q x a b : ℕ) (m : TreeNode)
    → search n s q ≡ ok (some x)
    → s.heap x ≡ some m
    → m.right ≡ some a
    → leftmost n s.heap (some a) ≡ ok b
    → tree_successor n s q ≡ ok (some b)
unfolding tree_successor
successor-leftmost n s q x a b m found at right down =
    let run = load-at s.heap x m at in rw (found, run, right, down, tree_successor) refl

abbrev pub Replaced : ℕ → SearchTree → Context → ℕ → ℕ → Tree → ℕ → ℕ → Tree → Tree → Type 0
Replaced n s c x q l a k l' r' =
    (h' : Heap) × (replace n s x q
      ≡ ok (record s { heap = h'; root = root_of c (top (lifted l a k l' r')) }))
    × Holds h' c (top (lifted l a k l' r'))
    × Rep h' (above c) (lifted l a k l' r')

-- The successor is the right child.
pub replace-child :
    (n : ℕ) (s : SearchTree) (c : Context) (x q al kl : ℕ) (ll lr : Tree) (a k : ℕ) (r' : Tree)
    → Rep s.heap none (plug c (node x q (node al kl ll lr) (node a k leaf r')))
    → Apart (plug c (node x q (node al kl ll lr) (node a k leaf r')))
    → s.root ≡ root_of c (some x)
    → tree_successor n s q ≡ ok (some a)
    → Replaced n s c x q (node al kl ll lr) a k leaf r'
unfolding replace
replace-child n s c x q al kl ll lr a k r' v d root next =
    let l = node al kl ll lr in
    let r = node a k leaf r' in
    let (out, (at, rep_l, rep_r)) = plug-Holds s.heap c (node x q l r) v in
    let (dc, (x_l, x_r, l_r, dl, dr), free) = plug-IsApart c (node x q l r) d in
    let (h1, h2, run1, run2, out2, v2) =
      finish-Holds s c x a k al kl _ ll lr r' (some x) out at refl refl rep_l rep_r dc dl dr
        (free x (rw (==_refl x) refl)) x_r (λ b there. free b (in_left b x q l r there))
        (λ b there. free b (in_right b x q l r there)) l_r root in
    (h2, rw (next, load-at s.heap a _ rep_r.0, ==_refl x, run1, run2, replace) refl, out2, v2)

part_of_right :
    (b j : ℕ) (r rest : Tree)
    → is_in b r ≡ true
    → ((e : ℕ) → is_in e rest ≡ true → is_in e r ≡ true)
    → (e : ℕ) → is_in e (node b j leaf rest) ≡ true
    → is_in e r ≡ true
part_of_right b j r rest b_r part e there = elim (Bool-cases (e == b)) [
  | inl same ↦ ap (λ t. is_in t r) (eq_of_== e b same) ∙ b_r
  | inr ne ↦ part e (sym (rw ne refl) ∙ there)
]

not_both :
    (e : ℕ) (r : Tree) (c : Context)
    → ((f : ℕ) → is_in f r ≡ true → is_around f c ≡ false)
    → is_around e c ≡ true
    → is_in e r ≡ false
not_both e r c free there = elim (Bool-cases (is_in e r)) [
  | inl held ↦ absurd (cc (there, free e held))
  | inr o ↦ o
]

module _ (s : SearchTree) (c : Context) (x q : ℕ) (l : Tree) (a k a2 k2 : ℕ) (l2 r2 r' : Tree)
    (v : Rep s.heap none (plug c (node x q l (node a k (node a2 k2 l2 r2) r'))))
    (d : Apart (plug c (node x q l (node a k (node a2 k2 l2 r2) r'))))
    (root : s.root ≡ root_of c (some x)) where
  -- What is around the successor, and the successor.
  abbrev around_next : Context
  around_next = around_least a k (node a2 k2 l2 r2) r' (on_right x q l c)

  abbrev next_node : TreeNode
  next_node = let (b, j, rb) = least a2 k2 l2 r2 in tree_node j (above around_next) none (top rb)

  abbrev remains : Tree
  remains = without_least a k (node a2 k2 l2 r2) r'

  -- The successor is taken out of the right subtree.
  extracted :
      let (b, j, rb) = least a2 k2 l2 r2 in
      (h1 : Heap) × (s.heap b ≡ some next_node)
      × (transplant s b (top rb) ≡ ok (record s { heap = h1; root = root_of c (some x) }))
      × (h1 b ≡ some next_node)
      × (h1 x ≡ some (tree_node q (above c) (top l) (some a)))
      × Rep h1 (some x) l
      × Holds h1 c (some x)
      × Rep h1 (some x) remains
  extracted =
      let h = s.heap in
      let c0 = on_right x q l c in
      let cl = around_next in
      let (b, j, rb) = least a2 k2 l2 r2 in
      let t_b = sym (plug-least a k (node a2 k2 l2 r2) r' c0) in
      let t_rest = plug-without_least a k (node a2 k2 l2 r2) r' c0 in
      let (out_b, (at_b, leaf_b, rep_rb)) =
        plug-Holds h cl (node b j leaf rb) (subst (Rep h none) t_b v) in
      let (d_cl, (_, b_rb, _, _, d_rb), free_b) =
        plug-IsApart cl (node b j leaf rb) (subst Apart t_b d) in
      let b_cl = free_b b (rw (==_refl b) refl) in
      let root_b : s.root ≡ root_of cl (some b) =
        root
        ∙ sym (top-plug c (node x q l (node a k (node a2 k2 l2 r2) r')))
        ∙ ap top t_b
        ∙ top-plug cl (node b j leaf rb) in
      let (h1, run1, out1, v1, same1) =
        transplant-Holds s cl b _ rb (some b) out_b at_b refl d_cl b_cl root_b rep_rb d_rb
          (λ e there. free_b e (in_right e b j leaf rb there)) in
      let whole : Rep h1 none (plug c0 remains) =
        subst (Rep h1 none) t_rest (plug-Rep h1 cl rb out1 v1) in
      let ((at_x, rep_l, out_c), rep_rest) = plug-Holds h1 c0 remains whole in
      let root1 : root_of cl (top rb) ≡ root_of c (some x) =
        sym (top-plug cl rb) ∙ ap top t_rest ∙ top-plug c0 remains in
      (
        h1,
        at_b,
        run1 ∙ ap (λ p. ok (record s { heap = h1; root = p })) root1,
        same1 b b_cl b_rb ∙ at_b,
        at_x,
        rep_l,
        out_c,
        rep_rest,
      )

-- The successor is further down.
pub replace-deep :
    (n : ℕ) (s : SearchTree) (c : Context) (x q al kl : ℕ) (ll lr : Tree) (a k a2 k2 : ℕ)
    (l2 r2 r' : Tree)
    → Rep s.heap none (plug c (node x q (node al kl ll lr) (node a k (node a2 k2 l2 r2) r')))
    → Apart (plug c (node x q (node al kl ll lr) (node a k (node a2 k2 l2 r2) r')))
    → s.root ≡ root_of c (some x)
    → tree_successor n s q ≡ ok (some (least a2 k2 l2 r2).0)
    → Replaced n s c x q (node al kl ll lr) a k (node a2 k2 l2 r2) r'
unfolding replace
replace-deep n s c x q al kl ll lr a k a2 k2 l2 r2 r' v d root next =
    let l = node al kl ll lr in
    let r = node a k (node a2 k2 l2 r2) r' in
    let (b, j, rb) = least a2 k2 l2 r2 in
    let rest = without_least a2 k2 l2 r2 in
    let (h1, at_b, run1, at_b1, at_x1, rep_l1, out1, rep_rest1) =
      extracted s c x q l a k a2 k2 l2 r2 r' v d root in
    let (dc, (x_l, x_r, l_r, dl, dr), free) = plug-IsApart c (node x q l r) d in
    let (b_r, b_rest, part, d_rest) = least-Taken a k (node a2 k2 l2 r2) r' dr in
    let (p, above_b, p_r) = above-least a k a2 k2 l2 r2 r' (on_right x q l c) in
    let elsewhere : points (above (around_least a2 k2 l2 r2 (on_left a k r' (on_right x q l c)))) x
        ≡ false =
      ap (λ o. points o x) above_b ∙ ==_ne p x (λ e. cc (e, p_r, x_r)) in
    let (h2, run2, v2, same2) =
      adopt_right-Rep h1 _ (some x) _ x b _ j a k rest r' at_x1 refl rep_rest1 d_rest at_b1
        b_rest in
    let sub = part_of_right b j r (node a k rest r') b_r part in
    let a_r : is_in a r ≡ true = rw (==_refl a) refl in
    let other : (e : ℕ) → is_in e r ≡ false → h2 e ≡ h1 e =
      λ e o. same2 e (λ f. cc (f, o, b_r)) (λ f. cc (f, o, a_r)) in
    let free_r : (e : ℕ) → is_in e r ≡ true → is_around e c ≡ false =
      λ e there. free e (in_right e x q l r there) in
    let out2 =
      Holds-same {f = h1} {g = h2} c (some x) (λ e there. other e (not_both e r c free_r there))
        out1 in
    let rep_l2 = Rep-same {f = h1} {g = h2} (some x) l (λ e there. other e (l_r e there)) rep_l1 in
    let (h3, h4, run3, run4, out4, v4) =
      finish-Holds (record s { heap = h2; root = root_of c (some x) }) c x b j al kl _ ll lr
        (node a k rest r') _ out2 (other x x_r ∙ at_x1) refl refl rep_l2 v2 dc dl
        (refl, b_rest, (λ e there. absurd (cc there)), tt, d_rest) (free x (rw (==_refl x) refl))
        (not_in_part r (node b j leaf (node a k rest r')) x sub x_r)
        (λ e there. free e (in_left e x q l r there)) (λ e there. free_r e (sub e there))
        (λ e there. not_in_part r (node b j leaf (node a k rest r')) e sub (l_r e there)) refl in
    (
      h4,
      rw (next, load-at s.heap b _ at_b, elsewhere, run1, run2, run3, run4, replace) refl,
      out4,
      v4,
    )
