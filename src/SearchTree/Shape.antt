-- ===== src/SearchTree/Shape.antt =====
-- The tree that the pointers of searchTree.h make, and what order it is in.
use myprogram.Prelude.{
  ℕ, suc, ◌+◌, ◌≤◌, ◌<◌, ◌≡◌, refl, ◌≢◌, Bool, true, false, ◌||◌, Option, none, some, arith, ◌==◌,
  ok,
}
use Prim.Native.Nat.{max}
use myprogram.SearchTree.{Heap, TreeNode, tree_node, load}

-- A node has its address, its key and its two subtrees.
pub data Tree : Type 0 where
  leaf : Tree
  node : ℕ → ℕ → Tree → Tree → Tree

abbrev pub top : Tree → Option ℕ
top leaf = none
top (node a k l r) = some a

abbrev pub height : Tree → ℕ
height leaf = 0
height (node a k l r) = suc (max (height l) (height r))

abbrev pub size : Tree → ℕ
size leaf = 0
size (node a k l r) = suc (size l + size r)

abbrev pub is_in : ℕ → Tree → Bool
is_in b leaf = false
is_in b (node a k l r) = (b == a) || (is_in b l || is_in b r)

abbrev pub has_key : ℕ → Tree → Bool
has_key q leaf = false
has_key q (node a k l r) = (q == k) || (has_key q l || has_key q r)

-- No address twice.
abbrev pub Apart : Tree → Type 0
Apart leaf = Unit {0}
Apart (node a k l r) =
    (is_in a l ≡ false)
    × (is_in a r ≡ false)
    × ((b : ℕ) → is_in b l ≡ true → is_in b r ≡ false)
    × Apart l
    × Apart r

-- The heap holds the tree, whose top has the parent `p`.
abbrev pub Rep : Heap → Option ℕ → Tree → Type 0
Rep h p leaf = Unit {0}
Rep h p (node a k l r) =
    (h a ≡ some (tree_node k p (top l) (top r))) × Rep h (some a) l × Rep h (some a) r

-- Less on the left, not less on the right.
abbrev pub IsOrdered : Tree → Type 0
IsOrdered leaf = Unit {0}
IsOrdered (node a k l r) =
    ((q : ℕ) → has_key q l ≡ true → q < k)
    × ((q : ℕ) → has_key q r ≡ true → k ≤ q)
    × IsOrdered l
    × IsOrdered r

pub load-at : (h : Heap) (a : ℕ) (n : TreeNode) → h a ≡ some n → load h (some a) ≡ ok (a, n)
unfolding load
load-at h a n at = rw (at, load) refl

pub Rep-same :
    {f g : Heap} (p : Option ℕ) (t : Tree)
    → ((b : ℕ) → is_in b t ≡ true → g b ≡ f b)
    → Rep f p t
    → Rep g p t
Rep-same p leaf same v = tt
Rep-same {f} {g} p (node a k l r) same v = (
  ground (arith, same a),
  Rep-same {f = f} {g = g} (some a) l (λ b there. same b (ground arith)) v.1,
  Rep-same {f = f} {g = g} (some a) r (λ b there. same b (ground arith)) v.2,
)

-- An address that is in a tree, and one that is not.
pub apart_of_is_in : (b c : ℕ) (t : Tree) → is_in b t ≡ true → is_in c t ≡ false → b ≢ c
apart_of_is_in b c t there out = λ e. cc

pub outside :
    (b a k : ℕ) (l r : Tree)
    → is_in b (node a k l r) ≡ false
    → (a ≢ b) × (is_in b l ≡ false) × (is_in b r ≡ false)
outside b a k l r out = ground arith
