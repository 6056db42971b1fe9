-- ===== src/SearchTree/Search.antt =====
-- search of searchTree.cpp.
use myprogram.Prelude.{
  ℕ, zero, suc, ◌≤◌, ◌<◌, ◌≡◌, refl, ◌≢◌, ap, ◌∙◌, inl, inr, true, false, Option, none, some, arith,
  ltb, ◌==◌, if◌then◌else◌, ok, Bool-cases, ==-cases, ==_ne, ==_refl,
}
use myprogram.SearchTree.{Heap, SearchTree, TreeNode, tree_node, search_from, search}
use myprogram.SearchTree.Shape.{
  Tree, leaf, node, top, height, has_key, is_in, Rep, IsOrdered, load-at,
}

-- The walk down one branch.
abbrev pub find : ℕ → Tree → Option ℕ
find q leaf = none
find q (node a k l r) = if k == q then some a else (if ltb q k then find q l else find q r)

pub search_from-find :
    (n : ℕ) (h : Heap) (q : ℕ) (p : Option ℕ) (t : Tree)
    → Rep h p t
    → height t < n
    → search_from n h q (top t) ≡ ok (find q t)
unfolding search_from
search_from-find zero h q p t v fuel = absurd (omega arith)
search_from-find (suc n) h q p leaf v fuel = refl
search_from-find (suc n) h q p (node a k l r) v fuel =
    let below = search_from-find n h q (some a) l v.1 (omega arith) in
    let above = search_from-find n h q (some a) r v.2 (omega arith) in
    rw (load-at h a _ v.0, below, above) (ground arith)

-- What search tells of a key: the address of a node that has it, or that no node has.
abbrev pub Found : Heap → Tree → ℕ → Option ℕ → Type 0
Found h t q none = has_key q t ≡ false
Found h t q (some a) = (is_in a t ≡ true) × (n : TreeNode) × (h a ≡ some n) × (n.key ≡ q)

Found-up :
    (h : Heap) (q a k : ℕ) (l r s : Tree) (b : Option ℕ)
    → Found h s q b
    → ((c : ℕ) → is_in c s ≡ true → is_in c (node a k l r) ≡ true)
    → (has_key q s ≡ false → has_key q (node a k l r) ≡ false)
    → Found h (node a k l r) q b
Found-up h q a k l r s none found inside absent = absent found
Found-up h q a k l r s (some b) (there, n, at, same) inside absent = (inside b there, n, at, same)

pub in_left : (c a k : ℕ) (l r : Tree) → is_in c l ≡ true → is_in c (node a k l r) ≡ true
in_left c a k l r there = ground arith

pub in_right : (c a k : ℕ) (l r : Tree) → is_in c r ≡ true → is_in c (node a k l r) ≡ true
in_right c a k l r there = ground arith

absent_left :
    (q a k : ℕ) (l r : Tree)
    → k ≢ q
    → ltb q k ≡ true
    → ((p : ℕ) → has_key p r ≡ true → k ≤ p)
    → has_key q l ≡ false
    → has_key q (node a k l r) ≡ false
absent_left q a k l r ne lt not_less absent =
    let other : has_key q r ≡ false = ground (arith, not_less q) in
    let apart : (q == k) ≡ false = ground arith in rw (apart, absent, other) refl

absent_right :
    (q a k : ℕ) (l r : Tree)
    → k ≢ q
    → ltb q k ≡ false
    → ((p : ℕ) → has_key p l ≡ true → p < k)
    → has_key q r ≡ false
    → has_key q (node a k l r) ≡ false
absent_right q a k l r ne ge less absent =
    let other : has_key q l ≡ false = ground (arith, less q) in
    let apart : (q == k) ≡ false = ground arith in rw (apart, absent, other) refl

find-Found :
    (h : Heap) (q : ℕ) (p : Option ℕ) (t : Tree) → Rep h p t → IsOrdered t → Found h t q (find q t)
find-Found h q p leaf v o = refl
find-Found h q p (node a k l r) v (less, not_less, ol, or) = elim (==-cases k q) [
  | inl same ↦ rw (same, ==_refl q) (ground arith, tree_node k p (top l) (top r), v.0, same)
  | inr ne ↦ elim (Bool-cases (ltb q k)) [
    | inl lt ↦
        rw (==_ne k q ne, lt)
          (Found-up h q a k l r l (find q l) (find-Found h q (some a) l v.1 ol)
            (λ c there. in_left c a k l r there) (absent_left q a k l r ne lt not_less))
    | inr ge ↦
        rw (==_ne k q ne, ge)
          (Found-up h q a k l r r (find q r) (find-Found h q (some a) r v.2 or)
            (λ c there. in_right c a k l r there) (absent_right q a k l r ne ge less))
  ]
]

-- search in an ordered tree ends, and returns a node that has the key, or NULL if none has it.
pub search-Found :
    (n : ℕ) (b : SearchTree) (t : Tree) (q : ℕ)
    → Rep b.heap none t
    → b.root ≡ top t
    → IsOrdered t
    → height t < n
    → (r : Option ℕ) × (search n b q ≡ ok r) × Found b.heap t q r
unfolding search
search-Found n b t q v root o fuel = (
  find q t,
  ap (search_from n b.heap q) root ∙ search_from-find n b.heap q none t v fuel,
  find-Found b.heap q none t v o,
)
