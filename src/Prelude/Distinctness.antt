-- ===== src/Prelude/Distinctness.antt =====
-- Lists of distinct numbers: removal, and the bound on their length.
use Prim.Native.Nat.{ℕ, zero, suc, ◌≤◌, ◌<◌}
use mathlib.Core.Path.{◌≡◌, refl}
use mathlib.Core.Logic.{inl, inr}
use mathlib.Core.Bool.{true, false, ◌||◌}
use mathlib.Core.List.{List, [], ◌∷◌, ◌++◌}
use native.Mathlib.Omega.{arith}
use myprogram.Prelude.Tests.{◌==◌, if◌then◌else◌, Bool-cases, ==_ne}
use myprogram.Prelude.Lists.{length, has}

abbrev pub Distinct : List ℕ → Type 0
Distinct [] = Unit {0}
Distinct (x ∷ xs) = (has x xs ≡ false) × Distinct xs

abbrev pub Below : ℕ → List ℕ → Type 0
Below n [] = Unit {0}
Below n (x ∷ xs) = (x < n) × Below n xs

abbrev pub erase : ℕ → List ℕ → List ℕ
erase a [] = []
erase a (x ∷ xs) = if a == x then xs else x ∷ erase a xs

pub has-erase :
    (a b : ℕ) (xs : List ℕ)
    → Distinct xs
    → has b (erase a xs) ≡ (if b == a then false else has b xs)
has-erase a b [] d = ground arith
has-erase a b (x ∷ xs) d = ground (arith, has-erase a b xs d.1)

pub erase-Distinct : (a : ℕ) (xs : List ℕ) → Distinct xs → Distinct (erase a xs)
erase-Distinct a [] d = tt
erase-Distinct a (x ∷ xs) d = ground (arith, erase-Distinct a xs d.1, has-erase a x xs d.1)

pub length-erase : (a : ℕ) (xs : List ℕ) → has a xs ≡ true → length xs ≡ suc (length (erase a xs))
length-erase a [] h = ground arith
length-erase a (x ∷ xs) h = ground (arith, length-erase a xs)

erase-Below : (a n : ℕ) (xs : List ℕ) → Below n xs → Below n (erase a xs)
erase-Below a n [] b = tt
erase-Below a n (x ∷ xs) b = ground (arith, erase-Below a n xs b.1)

Below-pred : (n : ℕ) (xs : List ℕ) → Below (suc n) xs → has n xs ≡ false → Below n xs
Below-pred n [] b h = tt
Below-pred n (x ∷ xs) b h = ground (arith, Below-pred n xs b.1)

-- Distinct numbers below `n` are at most `n`.
pub length-le_of_Below : (n : ℕ) (xs : List ℕ) → Distinct xs → Below n xs → length xs ≤ n
length-le_of_Below zero [] d b = omega arith
length-le_of_Below zero (x ∷ xs) d b = absurd (omega arith)
length-le_of_Below (suc n) xs d b = elim (Bool-cases (has n xs)) [
  | inl hit ↦
      let below =
        Below-pred n (erase n xs) (erase-Below n (suc n) xs b)
          (ground (arith, has-erase n n xs d)) in
      omega (
        arith,
        length-erase n xs hit,
        length-le_of_Below n (erase n xs) (erase-Distinct n xs d) below,
      )
  | inr miss ↦ omega (arith, length-le_of_Below n xs d (Below-pred n xs b miss))
]

pub Below-of_has : (n : ℕ) (xs : List ℕ) → ((i : ℕ) → has i xs ≡ true → i < n) → Below n xs
Below-of_has n [] h = tt
Below-of_has n (x ∷ xs) h = (h x (ground arith), Below-of_has n xs (λ i e. h i (ground arith)))

pub has-append : (a : ℕ) (xs ys : List ℕ) → has a (xs ++ ys) ≡ (has a xs || has a ys)
has-append a [] ys = refl
has-append a (x ∷ xs) ys = ground (arith, has-append a xs ys)

pub apart_of_has : (a b : ℕ) (xs : List ℕ) → has a xs ≡ false → has b xs ≡ true → (a == b) ≡ false
apart_of_has a b xs p q = ==_ne a b (λ e. cc)

pub Distinct-split :
    (xs ys : List ℕ)
    → Distinct (xs ++ ys)
    → Distinct xs × Distinct ys × ((b : ℕ) → has b xs ≡ true → has b ys ≡ false)
Distinct-split [] ys d = (tt, d, λ b there. ground arith)
Distinct-split (x ∷ xs) ys (out, d) =
    let (dx, dy, apart) = Distinct-split xs ys d in
    let both = has-append x xs ys in ((ground arith, dx), dy, λ b there. ground (arith, apart b))

pub Distinct-join :
    (xs ys : List ℕ)
    → Distinct xs
    → Distinct ys
    → ((b : ℕ) → has b xs ≡ true → has b ys ≡ false)
    → Distinct (xs ++ ys)
Distinct-join [] ys dx dy apart = dy
Distinct-join (x ∷ xs) ys (out, dx) dy apart = (
  ground (arith, has-append x xs ys, apart x),
  Distinct-join xs ys dx dy (λ b there. apart b (ground arith)),
)
