-- ===== src/SearchTree/Order.antt =====
-- The order and the keys of the tree that deleteNode of searchTree.cpp leaves.
use myprogram.Prelude.{
  ℕ, ◌≤◌, ◌<◌, ◌≡◌, refl, ◌≢◌, sym, ap, ◌∙◌, inl, inr, Bool, true, false, ◌||◌, ◌⊎◌, none, arith,
  ltb, ◌==◌, ==_refl, ==_ne, eq_of_==, ==-cases, Bool-cases, ok,
}
use myprogram.SearchTree.{Heap, SearchTree}
use myprogram.SearchTree.Deletion.{delete_node}
use myprogram.SearchTree.Shape.{Tree, leaf, node, top, height, has_key, Rep, Apart, IsOrdered}
use myprogram.SearchTree.Least.{least, without_least}
use myprogram.SearchTree.Delete.{joined, without}
use myprogram.SearchTree.Deleted.{delete_node-without}

shift : (x j y r : Bool) → (x || ((j || y) || r)) ≡ (j || (x || (y || r)))
shift true true y r = refl
shift true false y r = refl
shift false true y r = refl
shift false false y r = refl

move : (x j y : Bool) → (j || (x || y)) ≡ (x || (j || y))
move true true y = refl
move true false y = refl
move false true y = refl
move false false y = refl

or_nothing : (x : Bool) → (x || false) ≡ x
or_nothing true = refl
or_nothing false = refl

has_key-least :
    (p a k : ℕ) (l r : Tree)
    → has_key p (node a k l r) ≡ ((p == (least a k l r).1) || has_key p (without_least a k l r))
has_key-least p a k leaf r = refl
has_key-least p a k (node b j l' r') r =
    ap (λ x. (p == k) || (x || has_key p r)) (has_key-least p b j l' r')
    ∙ shift (p == k) (p == (least b j l' r').1) (has_key p (without_least b j l' r')) (has_key p r)

has_key-joined : (p : ℕ) (l r : Tree) → has_key p (joined l r) ≡ (has_key p l || has_key p r)
has_key-joined p leaf r = refl
has_key-joined p (node b j ll lr) leaf = sym (or_nothing (has_key p (node b j ll lr)))
has_key-joined p (node b j ll lr) (node a k l' r') =
    move (has_key p (node b j ll lr)) (p == (least a k l' r').1)
      (has_key p (without_least a k l' r'))
    ∙ ap (λ x. has_key p (node b j ll lr) || x) (sym (has_key-least p a k l' r'))

-- Every other key stays.
has_key-without : (p q : ℕ) (t : Tree) → p ≢ q → has_key p (without q t) ≡ has_key p t
has_key-without p q leaf ne = refl
has_key-without p q (node a k l r) ne = elim (==-cases k q) [
  | inl same ↦
      let at : (k == q) ≡ true = ground (arith, same) in
      let other : (p == k) ≡ false = ==_ne p k (λ e. ne (e ∙ same)) in
      rw (at, other) (has_key-joined p l r)
  | inr nq ↦ elim (Bool-cases (ltb q k)) [
    | inl lt ↦
        rw (==_ne k q nq, lt) (ap (λ x. (p == k) || (x || has_key p r)) (has_key-without p q l ne))
    | inr ge ↦
        rw (==_ne k q nq, ge) (ap (λ x. (p == k) || (has_key p l || x)) (has_key-without p q r ne))
  ]
]

either : (x y : Bool) → (x || y) ≡ true → (x ≡ true) ⊎ (y ≡ true)
either true y e = inl refl
either false y e = inr e

or_left : (x y : Bool) → x ≡ true → (x || y) ≡ true
or_left x y e = rw e refl

or_right : (x y : Bool) → y ≡ true → (x || y) ≡ true
or_right true y e = refl
or_right false y e = e

-- No key comes in.
key_before : (p q : ℕ) (t : Tree) → has_key p (without q t) ≡ true → has_key p t ≡ true
key_before p q leaf there = there
key_before p q (node a k l r) there = elim (==-cases k q) [
  | inl same ↦
      let at : (k == q) ≡ true = ground (arith, same) in
      let held : has_key p (joined l r) ≡ true = sym (rw at refl) ∙ there in
      or_right (p == k) _ (sym (has_key-joined p l r) ∙ held)
  | inr nq ↦ elim (Bool-cases (ltb q k)) [
    | inl lt ↦
        let held : has_key p (node a k (without q l) r) ≡ true =
          sym (rw (==_ne k q nq, lt) refl) ∙ there in
        elim (either (p == k) _ held) [
          | inl e ↦ or_left (p == k) _ e
          | inr f ↦ or_right (p == k) _ (elim (either (has_key p (without q l)) _ f) [
            | inl g ↦ or_left (has_key p l) _ (key_before p q l g)
            | inr g ↦ or_right (has_key p l) _ g
          ])
        ]
    | inr ge ↦
        let held : has_key p (node a k l (without q r)) ≡ true =
          sym (rw (==_ne k q nq, ge) refl) ∙ there in
        elim (either (p == k) _ held) [
          | inl e ↦ or_left (p == k) _ e
          | inr f ↦ or_right (p == k) _ (elim (either (has_key p l) _ f) [
            | inl g ↦ or_left (has_key p l) _ g
            | inr g ↦ or_right (has_key p l) _ (key_before p q r g)
          ])
        ]
  ]
]

least_key : (a k : ℕ) (l r : Tree) → has_key (least a k l r).1 (node a k l r) ≡ true
least_key a k l r = has_key-least (least a k l r).1 a k l r ∙ rw (==_refl (least a k l r).1) refl

kept_key :
    (p a k : ℕ) (l r : Tree)
    → has_key p (without_least a k l r) ≡ true
    → has_key p (node a k l r) ≡ true
kept_key p a k l r there = has_key-least p a k l r ∙ or_right (p == (least a k l r).1) _ there

-- The least key is not above the others, and they stay in order.
least-IsOrdered :
    (a k : ℕ) (l r : Tree)
    → IsOrdered (node a k l r)
    → ((p : ℕ) → has_key p (without_least a k l r) ≡ true → (least a k l r).1 ≤ p)
      × IsOrdered (without_least a k l r)
least-IsOrdered a k leaf r (less, not_less, ol, or) = (not_less, or)
least-IsOrdered a k (node b j l' r') r (less, not_less, ol, or) =
    let (low, o) = least-IsOrdered b j l' r' ol in
    let m = (least b j l' r').1 in
    let m_k : m < k = less m (least_key b j l' r') in
    (
      λ p there. elim (either (p == k) _ there) [
        | inl e ↦ omega (arith, m_k, eq_of_== p k e)
        | inr f ↦ elim (either (has_key p (without_least b j l' r')) _ f) [
          | inl g ↦ low p g
          | inr g ↦ omega (arith, m_k, not_less p g)
        ]
      ],
      ((λ p there. less p (kept_key p b j l' r' there)), not_less, o, or),
    )

joined-IsOrdered :
    (k : ℕ) (l r : Tree)
    → ((p : ℕ) → has_key p l ≡ true → p < k)
    → ((p : ℕ) → has_key p r ≡ true → k ≤ p)
    → IsOrdered l
    → IsOrdered r
    → IsOrdered (joined l r)
joined-IsOrdered k leaf r less not_less ol or = or
joined-IsOrdered k (node b j ll lr) leaf less not_less ol or = ol
joined-IsOrdered k (node b j ll lr) (node a i l' r') less not_less ol or =
    let (low, o) = least-IsOrdered a i l' r' or in
    let above = not_less (least a i l' r').1 (least_key a i l' r') in
    ((λ p there. omega (arith, less p there, above)), low, ol, o)

without-IsOrdered : (q : ℕ) (t : Tree) → IsOrdered t → IsOrdered (without q t)
without-IsOrdered q leaf o = tt
without-IsOrdered q (node a k l r) (less, not_less, ol, or) = elim (Bool-cases (k == q)) [
  | inl same ↦ rw same (joined-IsOrdered k l r less not_less ol or)
  | inr ne ↦ elim (Bool-cases (ltb q k)) [
    | inl lt ↦
        rw (ne, lt)
          ((λ p there. less p (key_before p q l there)), not_less, without-IsOrdered q l ol, or)
    | inr ge ↦
        rw (ne, ge)
          (less, (λ p there. not_less p (key_before p q r there)), ol, without-IsOrdered q r or)
  ]
]

-- deleteNode of a key `q` in an ordered tree: it ends, and the heap holds a tree, with the root
-- right, that is ordered and has each other key `p` exactly if that was there before.
pub delete_node-IsOrdered :
    (n : ℕ) (s : SearchTree) (t : Tree) (q p : ℕ)
    → Rep s.heap none t
    → Apart t
    → s.root ≡ top t
    → height t < n
    → IsOrdered t
    → p ≢ q
    → (h' : Heap) × (t' : Tree) × (delete_node n s q ≡ ok (record s { heap = h'; root = top t' }))
      × Rep h' none t'
      × IsOrdered t'
      × (has_key p t' ≡ has_key p t)
delete_node-IsOrdered n s t q p v d root fuel o ne =
    let (h', run, v') = delete_node-without n s t q v d root fuel in
    (h', without q t, run, v', without-IsOrdered q t o, has_key-without p q t ne)
