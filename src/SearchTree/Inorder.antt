-- ===== src/SearchTree/Inorder.antt =====
-- The nodes of a tree of searchTree.h from left to right, and what stands beside one of them.
use myprogram.Prelude.{
  ℕ, ◌≡◌, refl, sym, ap, ◌∙◌, false, Option, none, some, List, [], ◌∷◌, ◌++◌, arith, ◌==◌,
  if◌then◌else◌, ==_refl, append_assoc, append-nil, head?, has, has-append,
}
use myprogram.SearchTree.Shape.{Tree, leaf, node, is_in}
use myprogram.SearchTree.Context.{Context, around, on_left, on_right, plug, is_around}
use myprogram.SearchTree.Least.{least}

abbrev pub inorder : Tree → List ℕ
inorder leaf = []
inorder (node a k l r) = inorder l ++ a ∷ inorder r

-- What stands in front of the hole of a context, and behind it.
abbrev pub front : Context → List ℕ
front around = []
front (on_left a k r c) = front c
front (on_right a k l c) = front c ++ (inorder l ++ a ∷ [])

abbrev pub back : Context → List ℕ
back around = []
back (on_left a k r c) = a ∷ (inorder r ++ back c)
back (on_right a k l c) = back c

pub inorder-plug : (c : Context) (t : Tree) → inorder (plug c t) ≡ front c ++ (inorder t ++ back c)
inorder-plug around t = sym (append-nil (inorder t))
inorder-plug (on_left a k r c) t =
    inorder-plug c (node a k t r)
    ∙ ap (λ xs. front c ++ xs) (append_assoc (inorder t) (a ∷ inorder r) (back c))
inorder-plug (on_right a k l c) t =
    inorder-plug c (node a k l t)
    ∙ ap (λ xs. front c ++ xs)
        (append_assoc (inorder l) (a ∷ inorder t) (back c)
          ∙ sym (append_assoc (inorder l) (a ∷ []) (inorder t ++ back c)))
    ∙ sym (append_assoc (front c) (inorder l ++ a ∷ []) (inorder t ++ back c))

-- The number behind `x`, and the one in front of it, `p` if it is the first.
abbrev pub next_in : ℕ → List ℕ → Option ℕ
next_in x [] = none
next_in x (y ∷ ys) = if y == x then head? ys else next_in x ys

abbrev pub previous_in : Option ℕ → ℕ → List ℕ → Option ℕ
previous_in p x [] = none
previous_in p x (y ∷ ys) = if y == x then p else previous_in (some y) x ys

abbrev pub last_of : Option ℕ → List ℕ → Option ℕ
last_of p [] = p
last_of p (x ∷ xs) = last_of (some x) xs

pub next_in-split :
    (x : ℕ) (xs ys : List ℕ) → has x xs ≡ false → next_in x (xs ++ x ∷ ys) ≡ head? ys
next_in-split x [] ys out = rw (==_refl x) refl
next_in-split x (y ∷ xs) ys out =
    let ne : (y == x) ≡ false = ground arith in rw ne (next_in-split x xs ys (ground arith))

pub previous_in-split :
    (p : Option ℕ) (x : ℕ) (xs ys : List ℕ)
    → has x xs ≡ false
    → previous_in p x (xs ++ x ∷ ys) ≡ last_of p xs
previous_in-split p x [] ys out = rw (==_refl x) refl
previous_in-split p x (y ∷ xs) ys out =
    let ne : (y == x) ≡ false = ground arith in
    rw ne (previous_in-split (some y) x xs ys (ground arith))

pub last_of-append :
    (p : Option ℕ) (xs ys : List ℕ) → last_of p (xs ++ ys) ≡ last_of (last_of p xs) ys
last_of-append p [] ys = refl
last_of-append p (x ∷ xs) ys = last_of-append (some x) xs ys

-- The first node, and the last one.
pub head-least :
    (a k : ℕ) (l r : Tree) (xs : List ℕ)
    → head? (inorder (node a k l r) ++ xs) ≡ some (least a k l r).0
head-least a k leaf r xs = refl
head-least a k (node b j l' r') r xs =
    ap head? (append_assoc (inorder (node b j l' r')) (a ∷ inorder r) xs)
    ∙ head-least b j l' r' (a ∷ inorder r ++ xs)

abbrev pub greatest : ℕ → Tree → ℕ
greatest a leaf = a
greatest a (node b j l r) = greatest b r

pub last-greatest :
    (a k : ℕ) (l r : Tree) (p : Option ℕ) → last_of p (inorder (node a k l r)) ≡ some (greatest a r)
last-greatest a k l leaf p = last_of-append p (inorder l) (a ∷ [])
last-greatest a k l (node b j l' r') p =
    last_of-append p (inorder l) (a ∷ inorder (node b j l' r')) ∙ last-greatest b j l' r' (some a)

-- A node of the list is a node of the tree.
pub has-inorder : (b : ℕ) (t : Tree) → is_in b t ≡ false → has b (inorder t) ≡ false
has-inorder b leaf out = refl
has-inorder b (node a k l r) out =
    has-append b (inorder l) (a ∷ inorder r) ∙ ground (arith, has-inorder b l, has-inorder b r)

pub has-front : (b : ℕ) (c : Context) → is_around b c ≡ false → has b (front c) ≡ false
has-front b around out = refl
has-front b (on_left a k r c) out = has-front b c (ground arith)
has-front b (on_right a k l c) out =
    has-append b (front c) (inorder l ++ a ∷ [])
    ∙ ground (arith, has-front b c, has-append b (inorder l) (a ∷ []), has-inorder b l)
