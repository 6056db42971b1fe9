-- ===== src/AdList/Chain.antt =====
-- The sequence of values that the nodes of adlist.h make.
use myprogram.Prelude.{
  ℕ, ◌≡◌, true, Option, none, some, List, [], ◌∷◌, arith, has, length, Distinct,
}
use myprogram.AdList.{Heap, AdList, node}

-- A node: its address, and its value.
abbrev pub Nodes : Type 0
Nodes = List (ℕ × ℕ)

abbrev pub first : Nodes → Option ℕ
first [] = none
first ((a, _) ∷ xs) = some a

abbrev pub last_or : Option ℕ → Nodes → Option ℕ
last_or d [] = d
last_or d ((a, _) ∷ xs) = last_or (some a) xs

abbrev pub addresses : Nodes → List ℕ
addresses [] = []
addresses ((a, _) ∷ xs) = a ∷ addresses xs

-- From the node behind `p` on, each node points to both of its neighbours.
abbrev pub Chain : Heap → Option ℕ → Nodes → Type 0
Chain h p [] = Unit {0}
Chain h p ((a, v) ∷ xs) = (h a ≡ some (node p (first xs) v)) × Chain h (some a) xs

pub record Represents (h : Heap) (l : AdList) (xs : Nodes) : Type 0 where
  pub chain : Chain h none xs
  pub head : l.head ≡ first xs
  pub tail : l.tail ≡ last_or none xs
  pub len : l.len ≡ length xs
  pub distinct : Distinct (addresses xs)

pub Chain-same :
    {f g : Heap} (p : Option ℕ) (xs : Nodes)
    → ((b : ℕ) → has b (addresses xs) ≡ true → g b ≡ f b)
    → Chain f p xs
    → Chain g p xs
Chain-same p [] same c = tt
Chain-same p ((a, v) ∷ xs) same c =
    (ground (arith, same a), Chain-same (some a) xs (λ b h. same b (ground arith)) c.1)
