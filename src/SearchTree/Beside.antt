-- ===== src/SearchTree/Beside.antt =====
-- What treeSuccessor and treePreDecessor of searchTree.cpp return.
use myprogram.Prelude.{
  ℕ, zero, suc, ◌+◌, ◌≤◌, ◌<◌, ◌≡◌, refl, sym, ap, ◌∙◌, inl, inr, false, Option, none, some, [],
  ◌∷◌, ◌++◌, arith, ==_refl, ==_ne, Option-cases, append_assoc, head?, has, has-append, ok, subst,
}
use myprogram.SearchTree.{Heap, SearchTree, search, rightmost}
use myprogram.SearchTree.Neighbour.{points, up_right, up_left, tree_successor, tree_predecessor}
use myprogram.SearchTree.Shape.{Tree, leaf, node, top, height, is_in, Rep, Apart, load-at}
use myprogram.SearchTree.Search.{find}
use myprogram.SearchTree.Context.{
  Context, around, on_left, on_right, plug, above, is_around, Holds, plug-Holds, IsApart,
  plug-IsApart,
}
use myprogram.SearchTree.Least.{leftmost-least}
use myprogram.SearchTree.Delete.{locate}
use myprogram.SearchTree.Deleted.{search-find}
use myprogram.SearchTree.Inorder.{
  inorder, front, back, inorder-plug, next_in, previous_in, last_of, next_in-split,
  previous_in-split, last_of-append, head-least, greatest, last-greatest, has-inorder, has-front,
}

abbrev depth : Context → ℕ
depth around = 0
depth (on_left a k t c) = suc (depth c)
depth (on_right a k t c) = suc (depth c)

depth-le : (c : Context) (t : Tree) → depth c + height t ≤ height (plug c t)
depth-le around t = omega arith
depth-le (on_left a k r c) t = omega (arith, depth-le c (node a k t r))
depth-le (on_right a k l c) t = omega (arith, depth-le c (node a k l t))

side_out :
    (u a k : ℕ) (t : Tree) (c : Context) → is_around u (on_left a k t c) ≡ false → is_in u t ≡ false
side_out u a k t c out = ground arith

points_other : (t : Tree) (u : ℕ) → is_in u t ≡ false → points (top t) u ≡ false
points_other leaf u out = refl
points_other (node a k l r) u out = ==_ne a u (λ e. cc (e, out, ==_refl u))

-- The way up from the top `u` of what is in the hole.
up_right-back :
    (n : ℕ) (h : Heap) (c : Context) (u : ℕ)
    → Holds h c (some u)
    → IsApart c
    → is_around u c ≡ false
    → depth c < n
    → up_right n h u (above c) ≡ ok (head? (back c))
unfolding up_right
up_right-back zero h c u v d out fuel = absurd (omega arith)
up_right-back (suc n) h around u v d out fuel = refl
up_right-back (suc n) h (on_left a k r c) u (at, side, v) d out fuel =
    rw (load-at h a _ at, points_other r u (side_out u a k r c out)) refl
up_right-back (suc n) h (on_right a k l c) u (at, side, v) (_, a_c, _, _, d) out fuel =
    rw (load-at h a _ at, ==_refl u) (up_right-back n h c a v d a_c (omega arith))

up_left-front :
    (n : ℕ) (h : Heap) (c : Context) (u : ℕ)
    → Holds h c (some u)
    → IsApart c
    → is_around u c ≡ false
    → depth c < n
    → up_left n h u (above c) ≡ ok (last_of none (front c))
unfolding up_left
up_left-front zero h c u v d out fuel = absurd (omega arith)
up_left-front (suc n) h around u v d out fuel = refl
up_left-front (suc n) h (on_left a k r c) u (at, side, v) (_, a_c, _, _, d) out fuel =
    rw (load-at h a _ at, ==_refl u) (up_left-front n h c a v d a_c (omega arith))
up_left-front (suc n) h (on_right a k l c) u (at, side, v) d out fuel =
    rw (load-at h a _ at, points_other l u (side_out u a k l c out))
      (ap ok (
        sym (
          last_of-append none (front c) (inorder l ++ a ∷ [])
          ∙ last_of-append (last_of none (front c)) (inorder l) (a ∷ []))))

rightmost-greatest :
    (n : ℕ) (h : Heap) (p : Option ℕ) (a k : ℕ) (l r : Tree)
    → Rep h p (node a k l r)
    → height (node a k l r) < n
    → rightmost n h (some a) ≡ ok (greatest a r)
unfolding rightmost
rightmost-greatest zero h p a k l r v fuel = absurd (omega arith)
rightmost-greatest (suc n) h p a k l leaf v fuel = rw (load-at h a _ v.0) refl
rightmost-greatest (suc n) h p a k l (node b j l' r') v fuel =
    rw (load-at h a _ v.0) (rightmost-greatest n h (some a) b j l' r' v.2 (omega arith))

-- What stands behind a node `x`, and in front of it.
successor-at :
    (n : ℕ) (s : SearchTree) (c : Context) (x q : ℕ) (l r : Tree)
    → Rep s.heap none (plug c (node x q l r))
    → Apart (plug c (node x q l r))
    → search n s q ≡ ok (some x)
    → height (plug c (node x q l r)) < n
    → tree_successor n s q ≡ ok (head? (inorder r ++ back c))
unfolding tree_successor
successor-at n s c x q l leaf v d found fuel =
    let (out, (at, left, right)) = plug-Holds s.heap c (node x q l leaf) v in
    let (dc, dx, free) = plug-IsApart c (node x q l leaf) d in
    let deep = depth-le c (node x q l leaf) in
    let up =
      up_right-back n s.heap c x out dc (free x (rw (==_refl x) refl)) (omega (arith, deep)) in
    rw (found, load-at s.heap x _ at, up, tree_successor) refl
successor-at n s c x q l (node a k l' r') v d found fuel =
    let (out, (at, left, right)) = plug-Holds s.heap c (node x q l (node a k l' r')) v in
    let deep = depth-le c (node x q l (node a k l' r')) in
    let down = leftmost-least n s.heap (some x) a k l' r' right (omega (arith, deep)) in
    rw (found, load-at s.heap x _ at, down, tree_successor)
      (ap ok (sym (head-least a k l' r' (back c))))

predecessor-at :
    (n : ℕ) (s : SearchTree) (c : Context) (x q : ℕ) (l r : Tree)
    → Rep s.heap none (plug c (node x q l r))
    → Apart (plug c (node x q l r))
    → search n s q ≡ ok (some x)
    → height (plug c (node x q l r)) < n
    → tree_predecessor n s q ≡ ok (last_of none (front c ++ inorder l))
unfolding tree_predecessor
predecessor-at n s c x q leaf r v d found fuel =
    let (out, (at, left, right)) = plug-Holds s.heap c (node x q leaf r) v in
    let (dc, dx, free) = plug-IsApart c (node x q leaf r) d in
    let deep = depth-le c (node x q leaf r) in
    let up =
      up_left-front n s.heap c x out dc (free x (rw (==_refl x) refl)) (omega (arith, deep)) in
    rw (found, load-at s.heap x _ at, up, tree_predecessor)
      (ap ok (sym (last_of-append none (front c) [])))
predecessor-at n s c x q (node a k l' r') r v d found fuel =
    let (out, (at, left, right)) = plug-Holds s.heap c (node x q (node a k l' r') r) v in
    let deep = depth-le c (node x q (node a k l' r') r) in
    let down = rightmost-greatest n s.heap (some x) a k l' r' left (omega (arith, deep)) in
    rw (found, load-at s.heap x _ at, down, tree_predecessor)
      (ap ok (
        sym (
          last_of-append none (front c) (inorder (node a k l' r'))
          ∙ last-greatest a k l' r' (last_of none (front c)))))

-- What is found for the key, then what `beside` tells of it.
abbrev pub beside_found : (ℕ → Option ℕ) → Option ℕ → Option ℕ
beside_found beside none = none
beside_found beside (some x) = beside x

not_found :
    (n : ℕ) (s : SearchTree) (q : ℕ)
    → search n s q ≡ ok none
    → (tree_successor n s q ≡ ok none) × (tree_predecessor n s q ≡ ok none)
unfolding tree_successor tree_predecessor
not_found n s q e = (rw (e, tree_successor) refl, rw (e, tree_predecessor) refl)

-- treeSuccessor and treePreDecessor of a key, in a tree whose nodes have addresses of their own:
-- they end, and return the nodes right behind and right in front of the node that a search for the
-- key comes to, as the nodes stand from left to right; NULL for the last and the first one, and if
-- the search finds none.
pub tree_successor-next_in :
    (n : ℕ) (s : SearchTree) (t : Tree) (q : ℕ)
    → Rep s.heap none t
    → Apart t
    → s.root ≡ top t
    → height t < n
    → (tree_successor n s q ≡ ok (beside_found (λ x. next_in x (inorder t)) (find q t)))
      × (tree_predecessor n s q
          ≡ ok (beside_found (λ x. previous_in none x (inorder t)) (find q t)))
tree_successor-next_in n s t q v d root fuel =
    let looked = search-find n s t q v root fuel in
    elim (Option-cases (find q t)) [
      | inl e ↦ let (a, b) = not_found n s q (looked ∙ ap ok e) in rw e (a, b)
      | inr (x, e) ↦
          let (c, l, r, split, _, _) = locate q x t around e in
          let v' = subst (Rep s.heap none) split v in
          let d' = subst Apart split d in
          let fuel' : height (plug c (node x q l r)) < n = subst (λ u. height u < n) split fuel in
          let (dc, (x_l, x_r, _, _, _), free) = plug-IsApart c (node x q l r) d' in
          let order : inorder t ≡ (front c ++ inorder l) ++ x ∷ (inorder r ++ back c) =
            ap inorder split
            ∙ inorder-plug c (node x q l r)
            ∙ ap (λ xs. front c ++ xs) (append_assoc (inorder l) (x ∷ inorder r) (back c))
            ∙ sym (append_assoc (front c) (inorder l) (x ∷ (inorder r ++ back c))) in
          let out : has x (front c ++ inorder l) ≡ false =
            has-append x (front c) (inorder l)
            ∙ rw (has-front x c (free x (rw (==_refl x) refl)), has-inorder x l x_l) refl in
          let next =
            ap (next_in x) order
            ∙ next_in-split x (front c ++ inorder l) (inorder r ++ back c) out in
          let previous =
            ap (previous_in none x) order
            ∙ previous_in-split none x (front c ++ inorder l) (inorder r ++ back c) out in
          let found = looked ∙ ap ok e in
          rw (e, next, previous)
            (
              successor-at n s c x q l r v' d' found fuel',
              predecessor-at n s c x q l r v' d' found fuel',
            )
    ]
