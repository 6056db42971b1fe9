-- ===== src/SearchTree/Ends.antt =====
-- minKey and maxKey of searchTree.cpp.
use myprogram.Prelude.{
  ℕ, zero, suc, ◌<◌, ◌≡◌, refl, ap, ◌∙◌, false, Option, none, some, arith, ok, fault, is_null,
}
use myprogram.SearchTree.{
  Heap, SearchTree, TreeNode, tree_node, load, leftmost, rightmost, min_key, max_key,
}
use myprogram.SearchTree.Shape.{Tree, leaf, node, top, height, Rep, load-at}

-- A node of the heap.
abbrev pub Node : Heap → ℕ → TreeNode → Type 0
Node h a n = h a ≡ some n

pub leftmost-end :
    (n : ℕ) (h : Heap) (p : Option ℕ) (a k : ℕ) (l r : Tree)
    → Rep h p (node a k l r)
    → height (node a k l r) < n
    → (b : ℕ) × (m : TreeNode) × (leftmost n h (some a) ≡ ok b) × Node h b m × (m.left ≡ none)
unfolding leftmost
leftmost-end zero h p a k l r v fuel = absurd (omega arith)
leftmost-end (suc n) h p a k leaf r v fuel =
    (a, tree_node k p none (top r), rw (load-at h a _ v.0) refl, v.0, refl)
leftmost-end (suc n) h p a k (node a' k' l' r') r v fuel =
    let (b, m, run, at, last) = leftmost-end n h (some a) a' k' l' r' v.1 (omega arith) in
    (b, m, rw (load-at h a _ v.0) run, at, last)

pub rightmost-end :
    (n : ℕ) (h : Heap) (p : Option ℕ) (a k : ℕ) (l r : Tree)
    → Rep h p (node a k l r)
    → height (node a k l r) < n
    → (b : ℕ) × (m : TreeNode) × (rightmost n h (some a) ≡ ok b) × Node h b m × (m.right ≡ none)
unfolding rightmost
rightmost-end zero h p a k l r v fuel = absurd (omega arith)
rightmost-end (suc n) h p a k l leaf v fuel =
    (a, tree_node k p (top l) none, rw (load-at h a _ v.0) refl, v.0, refl)
rightmost-end (suc n) h p a k l (node a' k' l' r') v fuel =
    let (b, m, run, at, last) = rightmost-end n h (some a) a' k' l' r' v.2 (omega arith) in
    (b, m, rw (load-at h a _ v.0) run, at, last)

load-none : (h : Heap) → load h none ≡ fault
unfolding load
load-none h = refl

-- minKey and maxKey of a tree that is not empty read through a null pointer: the loop ends at the
-- node that has the key, and the code then takes the key of that node's missing child.
pub min_key-max_key_fault :
    (n : ℕ) (b : SearchTree) (a k : ℕ) (l r : Tree)
    → Rep b.heap none (node a k l r)
    → b.root ≡ some a
    → height (node a k l r) < n
    → (min_key n b ≡ fault) × (max_key n b ≡ fault)
unfolding min_key max_key
min_key-max_key_fault n b a k l r v root fuel =
    let (c, m, run, at, last) = leftmost-end n b.heap none a k l r v fuel in
    let (d, o, run', at', last') = rightmost-end n b.heap none a k l r v fuel in
    let low = ap (leftmost n b.heap) root ∙ run in
    let high = ap (rightmost n b.heap) root ∙ run' in
    let filled : is_null b.root ≡ false = rw root refl in
    (
      rw (filled, low, load-at b.heap c m at, last, load-none b.heap) refl,
      rw (filled, high, load-at b.heap d o at', last', load-none b.heap) refl,
    )
