-- ===== src/SearchTree/Deleted.antt =====
-- What deleteNode of searchTree.cpp makes of a tree.
use myprogram.Prelude.{
  ◌<◌, ◌≡◌, ℕ, refl, sym, ap, ◌∙◌, inl, inr, none, arith, Option-cases, ok, subst,
}
use myprogram.SearchTree.{Heap, SearchTree, search, search_from}
use myprogram.SearchTree.Deletion.{delete_node}
use myprogram.SearchTree.Shape.{Tree, node, top, height, Rep, Apart}
use myprogram.SearchTree.Search.{find, search_from-find}
use myprogram.SearchTree.Context.{around, top-plug}
use myprogram.SearchTree.Delete.{joined, without, without-absent, locate, delete-at}

pub search-find :
    (n : ℕ) (s : SearchTree) (t : Tree) (q : ℕ)
    → Rep s.heap none t
    → s.root ≡ top t
    → height t < n
    → search n s q ≡ ok (find q t)
unfolding search
search-find n s t q v root fuel =
    ap (λ p. search_from n s.heap q p) root ∙ search_from-find n s.heap q none t v fuel

delete-nothing :
    (n : ℕ) (s : SearchTree) (q : ℕ) → search n s q ≡ ok none → delete_node n s q ≡ ok s
unfolding delete_node
delete-nothing n s q e = rw (e, delete_node) refl

-- deleteNode in a tree whose nodes have addresses of their own: it ends, and the heap holds the tree
-- without the first node with the key that a search comes to, where a node with two children is
-- replaced by the least one on its right; the root is right, and the count of nodes stays.
pub delete_node-without :
    (n : ℕ) (s : SearchTree) (t : Tree) (q : ℕ)
    → Rep s.heap none t
    → Apart t
    → s.root ≡ top t
    → height t < n
    → (h' : Heap) × (delete_node n s q ≡ ok (record s { heap = h'; root = top (without q t) }))
      × Rep h' none (without q t)
delete_node-without n s t q v d root fuel =
    let looked = search-find n s t q v root fuel in
    elim (Option-cases (find q t)) [
      | inl e ↦
          let same = without-absent q t e in
          (
            s.heap,
            delete-nothing n s q (looked ∙ ap ok e)
                ∙ ap (λ p. ok (record s { root = p })) (root ∙ ap top (sym same)),
            subst (Rep s.heap none) (sym same) v,
          )
      | inr (x, e) ↦
          let (c, l, r, split, after, less) = locate q x t around e in
          let (h', run, v') =
            delete-at n s c x q l r (subst (Rep s.heap none) split v) (subst Apart split d)
              (root ∙ ap top split ∙ top-plug c (node x q l r)) (looked ∙ ap ok e) (omega arith) in
          (
            h',
            run
                ∙ ap (λ p. ok (record s { heap = h'; root = p }))
                    (sym (top-plug c (joined l r)) ∙ ap top after),
            subst (Rep h' none) after v',
          )
    ]
