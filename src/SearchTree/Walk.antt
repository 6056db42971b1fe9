-- ===== src/SearchTree/Walk.antt =====
-- inorder_tree_walk of searchTree.cpp.
use myprogram.Prelude.{
  ℕ, zero, suc, ◌+◌, ◌≤◌, ◌<◌, ◌≡◌, refl, ap, ◌∙◌, inl, inr, true, false, Option, none, some, List,
  [], ◌∷◌, ◌++◌, arith, ltb, leb, if◌then◌else◌, Run, ok, fault, Bool-cases, length, length-append,
  append_assoc, append-nil, is_null,
}
use myprogram.SearchTree.{Heap, SearchTree, walk, inorder_tree_walk}
use myprogram.SearchTree.Shape.{Tree, leaf, node, top, height, size, Rep, load-at}

abbrev pub preorder : Tree → List ℕ
preorder leaf = []
preorder (node a k l r) = k ∷ preorder l ++ preorder r

-- What a walk of `t` makes of an array of `len` keys with `out` in front.
abbrev pub Written : ℕ → List ℕ → Tree → Run (List ℕ)
Written len out t = if leb (length out + size t) len then ok (out ++ preorder t) else fault

length-preorder : (t : Tree) → length (preorder t) ≡ size t
length-preorder leaf = refl
length-preorder (node a k l r) =
    omega (arith, length-append (preorder l) (preorder r), length-preorder l, length-preorder r)

-- The keys of a node, its left and its right subtree in the order of the walk.
walked :
    (k a : ℕ) (l r : Tree) (out : List ℕ)
    → ((out ++ k ∷ []) ++ preorder l) ++ preorder r ≡ out ++ preorder (node a k l r)
walked k a l r out =
    append_assoc (out ++ k ∷ []) (preorder l) (preorder r)
    ∙ append_assoc out (k ∷ []) (preorder l ++ preorder r)

leb-true : (a b : ℕ) → a ≤ b → leb a b ≡ true
leb-true a b h = ground arith

leb-false : (a b : ℕ) → b < a → leb a b ≡ false
leb-false a b h = ground arith

le_of_leb : (a b : ℕ) → leb a b ≡ true → a ≤ b
le_of_leb a b h = ground arith

lt_of_leb : (a b : ℕ) → leb a b ≡ false → b < a
lt_of_leb a b h = ground arith

Written-fits :
    (len : ℕ) (out : List ℕ) (t : Tree)
    → length out + size t ≤ len
    → Written len out t ≡ ok (out ++ preorder t)
Written-fits len out t fits = rw (leb-true (length out + size t) len fits) refl

Written-over :
    (len : ℕ) (out : List ℕ) (t : Tree) → len < length out + size t → Written len out t ≡ fault
Written-over len out t over = rw (leb-false (length out + size t) len over) refl

-- The left subtree has been written; then the right one.
Written-node :
    (len k a : ℕ) (l r : Tree) (out : List ℕ)
    → Written len ((out ++ k ∷ []) ++ preorder l) r ≡ Written len out (node a k l r)
Written-node len k a l r out =
    let one = length-append out (k ∷ []) in
    let two = length-append (out ++ k ∷ []) (preorder l) in
    elim (Bool-cases (leb (length out + size (node a k l r)) len)) [
      | inl all ↦
          let all' = le_of_leb (length out + size (node a k l r)) len all in
          rw
            (
              all,
              Written-fits len ((out ++ k ∷ []) ++ preorder l) r
                  (omega (arith, one, two, length-preorder l)),
            )
            (ap ok (walked k a l r out))
      | inr over ↦
          let over' = lt_of_leb (length out + size (node a k l r)) len over in
          rw
            (
              over,
              Written-over len ((out ++ k ∷ []) ++ preorder l) r
                  (omega (arith, one, two, length-preorder l)),
            )
            refl
    ]

length_over : (m n len : ℕ) → ltb m len ≡ false → len < m + suc n
length_over m n len over = ground arith

longer : (len k : ℕ) (out : List ℕ) → ltb (length out) len ≡ true → length (out ++ k ∷ []) ≤ len
longer len k out more = ground (arith, length-append out (k ∷ []))

written_room :
    (len : ℕ) (out : List ℕ) (t : Tree)
    → leb (length out + size t) len ≡ true
    → length (out ++ preorder t) ≤ len
written_room len out t fits =
    omega (arith, length-append out (preorder t), length-preorder t, le_of_leb _ _ fits)

node_over :
    (len k a : ℕ) (l r : Tree) (out : List ℕ)
    → leb (length (out ++ k ∷ []) + size l) len ≡ false
    → len < length out + size (node a k l r)
node_over len k a l r out over = omega (arith, length-append out (k ∷ []), lt_of_leb _ _ over)

walk-Written :
    (n : ℕ) (h : Heap) (len : ℕ) (p : Option ℕ) (t : Tree) (out : List ℕ)
    → Rep h p t
    → height t < n
    → length out ≤ len
    → walk n h len (top t) out ≡ Written len out t
unfolding walk
walk-Written zero h len p t out v fuel room = absurd (omega arith)
walk-Written (suc n) h len p leaf out v fuel room =
    let fits : leb (length out + 0) len ≡ true = leb-true (length out + 0) len (omega arith) in
    rw (fits, append-nil out) refl
walk-Written (suc n) h len p (node a k l r) out v fuel room =
    elim (Bool-cases (ltb (length out) len)) [
      | inr over ↦
          rw
            (
              load-at h a _ v.0,
              over,
              Written-over len out (node a k l r)
                  (length_over (length out) (size l + size r) len over),
            )
            refl
      | inl more ↦
          let one : length (out ++ k ∷ []) ≤ len = longer len k out more in
          let left = walk-Written n h len (some a) l (out ++ k ∷ []) v.1 (omega arith) one in
          elim (Bool-cases (leb (length (out ++ k ∷ []) + size l) len)) [
            | inl fits ↦
                let two : length ((out ++ k ∷ []) ++ preorder l) ≤ len =
                  written_room len (out ++ k ∷ []) l fits in
                let right =
                  walk-Written n h len (some a) r ((out ++ k ∷ []) ++ preorder l) v.2 (omega arith)
                    two in
                rw (load-at h a _ v.0, more, left, fits, right) (Written-node len k a l r out)
            | inr over ↦
                rw
                  (
                    load-at h a _ v.0,
                    more,
                    left,
                    over,
                    Written-over len out (node a k l r) (node_over len k a l r out over),
                  )
                  refl
          ]
    ]

-- inorder_tree_walk of a tree that is not empty writes the keys in the order node, left, right, and
-- hands out the count of nodes that the object keeps as their number: if that count is not below the
-- size of the tree. If it is, the walk writes past the end of the array.
pub inorder_tree_walk-preorder :
    (n : ℕ) (b : SearchTree) (a k : ℕ) (l r : Tree)
    → Rep b.heap none (node a k l r)
    → b.root ≡ some a
    → height (node a k l r) < n
    → inorder_tree_walk n b ≡ (
        if leb (size (node a k l r)) b.len
        then ok (some (preorder (node a k l r), b.len))
        else fault)
unfolding inorder_tree_walk
inorder_tree_walk-preorder n b a k l r v root fuel =
    let run =
      ap (λ p. walk n b.heap b.len p []) root
      ∙ walk-Written n b.heap b.len none (node a k l r) [] v fuel (omega arith) in
    let filled : is_null b.root ≡ false = rw root refl in
    elim (Bool-cases (leb (size (node a k l r)) b.len)) [
      | inl fits ↦
          rw
            (
              filled,
              run,
              fits,
              Written-fits b.len [] (node a k l r)
                  (omega (arith, le_of_leb (size (node a k l r)) b.len fits)),
            )
            refl
      | inr over ↦
          rw
            (
              filled,
              run,
              over,
              Written-over b.len [] (node a k l r)
                  (omega (arith, lt_of_leb (size (node a k l r)) b.len over)),
            )
            refl
    ]
