-- ===== src/SearchTree/Least.antt =====
-- The least node of a tree of searchTree.h, at the end of its left spine, and the tree without it.
use myprogram.Prelude.{
  ℕ, zero, suc, ◌<◌, ◌≡◌, refl, inl, inr, Bool, true, false, ◌||◌, Option, some, arith, ◌==◌,
  ==_refl, ==_ne, Bool-cases, ok,
}
use myprogram.SearchTree.{Heap, leftmost}
use myprogram.SearchTree.Shape.{Tree, leaf, node, height, is_in, Rep, Apart, load-at}
use myprogram.SearchTree.Context.{Context, on_left, plug, above}

-- Its address, its key and its right subtree; what is around it; the tree without it.
abbrev pub least : ℕ → ℕ → Tree → Tree → ℕ × ℕ × Tree
least a k leaf r = (a, k, r)
least a k (node b j l' r') r = least b j l' r'

abbrev pub around_least : ℕ → ℕ → Tree → Tree → Context → Context
around_least a k leaf r c = c
around_least a k (node b j l' r') r c = around_least b j l' r' (on_left a k r c)

abbrev pub without_least : ℕ → ℕ → Tree → Tree → Tree
without_least a k leaf r = r
without_least a k (node b j l' r') r = node a k (without_least b j l' r') r

pub plug-least :
    (a k : ℕ) (l r : Tree) (c : Context)
    → let (b, j, rb) = least a k l r in
      plug (around_least a k l r c) (node b j leaf rb) ≡ plug c (node a k l r)
plug-least a k leaf r c = refl
plug-least a k (node b j l' r') r c = plug-least b j l' r' (on_left a k r c)

pub plug-without_least :
    (a k : ℕ) (l r : Tree) (c : Context)
    → let (b, j, rb) = least a k l r in
      plug (around_least a k l r c) rb ≡ plug c (without_least a k l r)
plug-without_least a k leaf r c = refl
plug-without_least a k (node b j l' r') r c = plug-without_least b j l' r' (on_left a k r c)

pub leftmost-least :
    (n : ℕ) (h : Heap) (p : Option ℕ) (a k : ℕ) (l r : Tree)
    → Rep h p (node a k l r)
    → height (node a k l r) < n
    → leftmost n h (some a) ≡ ok (least a k l r).0
unfolding leftmost
leftmost-least zero h p a k l r v fuel = absurd (omega arith)
leftmost-least (suc n) h p a k leaf r v fuel = rw (load-at h a _ v.0) refl
leftmost-least (suc n) h p a k (node b j l' r') r v fuel =
    rw (load-at h a _ v.0) (leftmost-least n h (some a) b j l' r' v.1 (omega arith))

-- Above the least node, if it is not the top, is a node of the tree.
pub above-least :
    (a k b j : ℕ) (l r r' : Tree) (c : Context)
    → (p : ℕ) × (above (around_least b j l r (on_left a k r' c)) ≡ some p)
      × (is_in p (node a k (node b j l r) r') ≡ true)
above-least a k b j leaf r r' c = (a, refl, rw (==_refl a) refl)
above-least a k b j (node d i l' r'') r r' c =
    let (p, e, there) = above-least b j d i l' r'' r (on_left a k r' c) in
    (p, e, ground (arith, there))

-- The least node is in the tree, and not in what is left, which is a part of it.
abbrev pub Taken : ℕ → Tree → Tree → Type 0
Taken b t rest =
    (is_in b t ≡ true)
    × (is_in b rest ≡ false)
    × ((e : ℕ) → is_in e rest ≡ true → is_in e t ≡ true)
    × Apart rest

or_true : (x : Bool) → (x || true) ≡ true
or_true true = refl
or_true false = refl

middle_true :
    (x y y' z : Bool) → (y ≡ true → y' ≡ true) → (x || (y || z)) ≡ true → (x || (y' || z)) ≡ true
middle_true x true y' z f e = rw (f refl) (or_true x)
middle_true true false y' z f e = refl
middle_true false false true z f e = refl
middle_true false false false z f e = e

pub not_in_part :
    (t rest : Tree) (a : ℕ)
    → ((e : ℕ) → is_in e rest ≡ true → is_in e t ≡ true)
    → is_in a t ≡ false
    → is_in a rest ≡ false
not_in_part t rest a part out = elim (Bool-cases (is_in a rest)) [
  | inl held ↦ absurd (cc (out, part a held))
  | inr o ↦ o
]

pub least-Taken :
    (a k : ℕ) (l r : Tree)
    → Apart (node a k l r)
    → Taken (least a k l r).0 (node a k l r) (without_least a k l r)
least-Taken a k leaf r (_, out, apart, dl, dr) =
    (rw (==_refl a) refl, out, (λ e there. ground (arith, there)), dr)
least-Taken a k (node b j l' r') r (out_l, out_r, apart, dl, dr) =
    let (there, gone, part, d) = least-Taken b j l' r' dl in
    let b0 = (least b j l' r').0 in
    (
      ground (arith, there),
      rw (==_ne b0 a (λ e. cc (e, there, out_l)), gone, apart b0 there) refl,
      (λ e held.
          middle_true (e == a) (is_in e (without_least b j l' r')) (is_in e (node b j l' r'))
            (is_in e r) (part e) held),
      (
        not_in_part (node b j l' r') (without_least b j l' r') a part out_l,
        out_r,
        (λ e held. apart e (part e held)),
        d,
        dr,
      ),
    )
