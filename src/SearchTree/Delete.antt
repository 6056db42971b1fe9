-- ===== src/SearchTree/Delete.antt =====
-- deleteNode of searchTree.cpp.
use myprogram.Prelude.{
  ℕ, ◌<◌, ◌≡◌, refl, sym, ap, ◌∙◌, inl, inr, true, none, some, arith, ltb, ◌==◌, if◌then◌else◌,
  ==_refl, ==_ne, ==-cases, Bool-cases, ok,
}
use myprogram.SearchTree.{Heap, SearchTree, search}
use myprogram.SearchTree.Deletion.{delete_node}
use myprogram.SearchTree.Shape.{Tree, leaf, node, top, height, Rep, Apart, load-at}
use myprogram.SearchTree.Search.{find, in_left, in_right}
use myprogram.SearchTree.Context.{
  Context, on_left, on_right, plug, root_of, plug-Holds, plug-Rep, plug-IsApart,
}
use myprogram.SearchTree.Transplant.{transplant-Holds}
use myprogram.SearchTree.Least.{leftmost-least}
use myprogram.SearchTree.Replace.{lifted, successor-leftmost, replace-child, replace-deep}

-- Two subtrees in one.
abbrev pub joined : Tree → Tree → Tree
joined leaf r = r
joined (node b j l r) leaf = node b j l r
joined (node b j l r) (node a k l' r') = lifted (node b j l r) a k l' r'

-- The tree without the node with a key.
abbrev pub without : ℕ → Tree → Tree
without q leaf = leaf
without q (node a k l r) =
    if k == q
    then joined l r
    else (if ltb q k then node a k (without q l) r else node a k l (without q r))

pub without-absent : (q : ℕ) (t : Tree) → find q t ≡ none → without q t ≡ t
without-absent q leaf e = refl
without-absent q (node a k l r) e = elim (Bool-cases (k == q)) [
  | inl same ↦ let bad : some a ≡ none = sym (rw same refl) ∙ e in absurd (cc bad)
  | inr ne ↦ elim (Bool-cases (ltb q k)) [
    | inl lt ↦
        rw (ne, lt) (ap (λ s. node a k s r) (without-absent q l (sym (rw (ne, lt) refl) ∙ e)))
    | inr ge ↦
        rw (ne, ge) (ap (λ s. node a k l s) (without-absent q r (sym (rw (ne, ge) refl) ∙ e)))
  ]
]

-- Where the node with a key is.
abbrev pub Located : ℕ → ℕ → Tree → Context → Type 0
Located q x t c0 =
    (c : Context) × (l : Tree) × (r : Tree) × (plug c0 t ≡ plug c (node x q l r))
    × (plug c (joined l r) ≡ plug c0 (without q t))
    × (height r < height t)

pub locate : (q x : ℕ) (t : Tree) (c0 : Context) → find q t ≡ some x → Located q x t c0
locate q x leaf c0 e = absurd (cc e)
locate q x (node a k l r) c0 e = elim (==-cases k q) [
  | inl same ↦
      let at : (k == q) ≡ true = ground (arith, same) in
      let hit : some a ≡ some x = sym (rw at refl) ∙ e in
      let here : a ≡ x = cc hit in
      (
        c0,
        l,
        r,
        ap (λ y. plug c0 (node y k l r)) here ∙ ap (λ p. plug c0 (node x p l r)) same,
        rw at refl,
        omega arith,
      )
  | inr nq ↦
      let ne = ==_ne k q nq in
      elim (Bool-cases (ltb q k)) [
        | inl lt ↦
            let (c, l', r', split, after, less) =
              locate q x l (on_left a k r c0) (sym (rw (ne, lt) refl) ∙ e) in
            (c, l', r', split, rw (ne, lt) after, omega (arith, less))
        | inr ge ↦
            let (c, l', r', split, after, less) =
              locate q x r (on_right a k l c0) (sym (rw (ne, ge) refl) ∙ e) in
            (c, l', r', split, rw (ne, ge) after, omega (arith, less))
      ]
]

abbrev pub Deleted : ℕ → SearchTree → ℕ → Context → Tree → Type 0
Deleted n s q c t =
    (h' : Heap) × (delete_node n s q ≡ ok (record s { heap = h'; root = root_of c (top t) }))
    × Rep h' none (plug c t)

-- The three branches.
pub delete-at :
    (n : ℕ) (s : SearchTree) (c : Context) (x q : ℕ) (l r : Tree)
    → Rep s.heap none (plug c (node x q l r))
    → Apart (plug c (node x q l r))
    → s.root ≡ root_of c (some x)
    → search n s q ≡ ok (some x)
    → height r < n
    → Deleted n s q c (joined l r)
unfolding delete_node
delete-at n s c x q leaf r v d root found fuel =
    let (out, (at, rep_l, rep_r)) = plug-Holds s.heap c (node x q leaf r) v in
    let (dc, (x_l, x_r, l_r, dl, dr), free) = plug-IsApart c (node x q leaf r) d in
    let (h', run, out', v', same) =
      transplant-Holds s c x _ r (some x) out at refl dc (free x (rw (==_refl x) refl)) root rep_r
        dr (λ b there. free b (in_right b x q leaf r there)) in
    (h', rw (found, load-at s.heap x _ at, run, delete_node) refl, plug-Rep h' c r out' v')
delete-at n s c x q (node al kl ll lr) leaf v d root found fuel =
    let l = node al kl ll lr in
    let (out, (at, rep_l, rep_r)) = plug-Holds s.heap c (node x q l leaf) v in
    let (dc, (x_l, x_r, l_r, dl, dr), free) = plug-IsApart c (node x q l leaf) d in
    let (h', run, out', v', same) =
      transplant-Holds s c x _ l (some x) out at refl dc (free x (rw (==_refl x) refl)) root rep_l
        dl (λ b there. free b (in_left b x q l leaf there)) in
    (h', rw (found, load-at s.heap x _ at, run, delete_node) refl, plug-Rep h' c l out' v')
delete-at n s c x q (node al kl ll lr) (node a k leaf r') v d root found fuel =
    let l = node al kl ll lr in
    let (out, (at, rep_l, rep_r)) = plug-Holds s.heap c (node x q l (node a k leaf r')) v in
    let next =
      successor-leftmost n s q x a a _ found at refl
        (leftmost-least n s.heap (some x) a k leaf r' rep_r fuel) in
    let (h', run, out', v') = replace-child n s c x q al kl ll lr a k r' v d root next in
    (
      h',
      rw (found, load-at s.heap x _ at, run, delete_node) refl,
      plug-Rep h' c (lifted l a k leaf r') out' v',
    )
delete-at n s c x q (node al kl ll lr) (node a k (node a2 k2 l2 r2) r') v d root found fuel =
    let l = node al kl ll lr in
    let l' = node a2 k2 l2 r2 in
    let (out, (at, rep_l, rep_r)) = plug-Holds s.heap c (node x q l (node a k l' r')) v in
    let next =
      successor-leftmost n s q x a _ _ found at refl
        (leftmost-least n s.heap (some x) a k l' r' rep_r fuel) in
    let (h', run, out', v') = replace-deep n s c x q al kl ll lr a k a2 k2 l2 r2 r' v d root next in
    (
      h',
      rw (found, load-at s.heap x _ at, run, delete_node) refl,
      plug-Rep h' c (lifted l a k l' r') out' v',
    )
