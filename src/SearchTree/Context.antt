-- ===== src/SearchTree/Context.antt =====
-- A tree of searchTree.h around one of its subtrees.
use myprogram.Prelude.{
  ℕ, ◌≡◌, refl, inl, inr, Bool, true, false, ◌||◌, Option, none, some, arith, ◌==◌, ==_refl, ==_ne,
  Bool-cases,
}
use myprogram.SearchTree.{Heap, tree_node}
use myprogram.SearchTree.Shape.{Tree, node, top, is_in, Rep, Rep-same, Apart}

-- From the hole up: the node above it, the subtree on the other side, and what is around that.
pub data Context : Type 0 where
  around : Context
  on_left on_right : ℕ → ℕ → Tree → Context → Context

abbrev pub plug : Context → Tree → Tree
plug around t = t
plug (on_left a k r c) t = plug c (node a k t r)
plug (on_right a k l c) t = plug c (node a k l t)

-- The parent of what is in the hole.
abbrev pub above : Context → Option ℕ
above around = none
above (on_left a k r c) = some a
above (on_right a k l c) = some a

-- The root, when `q` is the top of what is in the hole.
abbrev pub root_of : Context → Option ℕ → Option ℕ
root_of around q = q
root_of (on_left a k r c) q = root_of c (some a)
root_of (on_right a k l c) q = root_of c (some a)

abbrev pub is_around : ℕ → Context → Bool
is_around b around = false
is_around b (on_left a k t c) = (b == a) || (is_in b t || is_around b c)
is_around b (on_right a k t c) = (b == a) || (is_in b t || is_around b c)

-- The heap holds the context, with `q` in the hole.
abbrev pub Holds : Heap → Context → Option ℕ → Type 0
Holds h around q = Unit {0}
Holds h (on_left a k r c) q =
    (h a ≡ some (tree_node k (above c) q (top r))) × Rep h (some a) r × Holds h c (some a)
Holds h (on_right a k l c) q =
    (h a ≡ some (tree_node k (above c) (top l) q)) × Rep h (some a) l × Holds h c (some a)

pub top-plug : (c : Context) (t : Tree) → top (plug c t) ≡ root_of c (top t)
top-plug around t = refl
top-plug (on_left a k r c) t = top-plug c (node a k t r)
top-plug (on_right a k l c) t = top-plug c (node a k l t)

pub plug-Holds :
    (h : Heap) (c : Context) (t : Tree)
    → Rep h none (plug c t)
    → Holds h c (top t) × Rep h (above c) t
plug-Holds h around t v = (tt, v)
plug-Holds h (on_left a k r c) t v =
    let (out, (at, left, right)) = plug-Holds h c (node a k t r) v in ((at, right, out), left)
plug-Holds h (on_right a k l c) t v =
    let (out, (at, left, right)) = plug-Holds h c (node a k l t) v in ((at, left, out), right)

pub plug-Rep :
    (h : Heap) (c : Context) (t : Tree)
    → Holds h c (top t)
    → Rep h (above c) t
    → Rep h none (plug c t)
plug-Rep h around t out v = v
plug-Rep h (on_left a k r c) t (at, right, out) v = plug-Rep h c (node a k t r) out (at, v, right)
plug-Rep h (on_right a k l c) t (at, left, out) v = plug-Rep h c (node a k l t) out (at, left, v)

pub Holds-same :
    {f g : Heap} (c : Context) (q : Option ℕ)
    → ((b : ℕ) → is_around b c ≡ true → g b ≡ f b)
    → Holds f c q
    → Holds g c q
Holds-same around q same v = tt
Holds-same {f} {g} (on_left a k t c) q same (at, side, out) = (
  ground (arith, same a, at),
  Rep-same {f = f} {g = g} (some a) t (λ b there. same b (ground arith)) side,
  Holds-same {f = f} {g = g} c (some a) (λ b there. same b (ground arith)) out,
)
Holds-same {f} {g} (on_right a k t c) q same (at, side, out) = (
  ground (arith, same a, at),
  Rep-same {f = f} {g = g} (some a) t (λ b there. same b (ground arith)) side,
  Holds-same {f = f} {g = g} c (some a) (λ b there. same b (ground arith)) out,
)

-- No address of the context twice: a node above the hole is not on its other side, nor further up.
abbrev pub IsApart : Context → Type 0
IsApart around = Unit {0}
IsApart (on_left a k t c) =
    (is_in a t ≡ false)
    × (is_around a c ≡ false)
    × ((b : ℕ) → is_in b t ≡ true → is_around b c ≡ false)
    × Apart t
    × IsApart c
IsApart (on_right a k t c) =
    (is_in a t ≡ false)
    × (is_around a c ≡ false)
    × ((b : ℕ) → is_in b t ≡ true → is_around b c ≡ false)
    × Apart t
    × IsApart c

abbrev pub Disjoint : Tree → Context → Type 0
Disjoint t c = (b : ℕ) → is_in b t ≡ true → is_around b c ≡ false

other_side :
    (l r : Tree)
    → ((b : ℕ) → is_in b l ≡ true → is_in b r ≡ false)
    → (b : ℕ) → is_in b r ≡ true
    → is_in b l ≡ false
other_side l r apart b there = elim (Bool-cases (is_in b l)) [
  | inl held ↦ absurd (cc (there, apart b held))
  | inr out ↦ out
]

pub plug-IsApart : (c : Context) (t : Tree) → Apart (plug c t) → IsApart c × Apart t × Disjoint t c
plug-IsApart around t d = (tt, d, λ b there. refl)
plug-IsApart (on_left a k r c) t d =
    let (dc, (out_t, out_r, apart, dt, dr), free) = plug-IsApart c (node a k t r) d in
    (
      (out_r, free a (rw (==_refl a) refl), (λ b there. free b (ground (arith, there))), dr, dc),
      dt,
      λ b there.
          rw (==_ne b a (λ e. cc (e, there, out_t)), apart b there, free b (ground (arith, there)))
            refl,
    )
plug-IsApart (on_right a k l c) t d =
    let (dc, (out_l, out_t, apart, dl, dt), free) = plug-IsApart c (node a k l t) d in
    (
      (out_l, free a (rw (==_refl a) refl), (λ b there. free b (ground (arith, there))), dl, dc),
      dt,
      λ b there.
          rw
            (
              ==_ne b a (λ e. cc (e, there, out_t)),
              other_side l t apart b there,
              free b (ground (arith, there)),
            )
            refl,
    )
