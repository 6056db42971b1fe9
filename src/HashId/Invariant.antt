-- ===== src/HashId/Invariant.antt =====
-- The invariant of the id table of hashid.h. `chain h` is the list of the slots that the pointers
-- lead through from `hash[h]`.
use myprogram.Prelude.{
  ℕ, zero, suc, ◌+◌, ◌≤◌, ◌<◌, ◌≡◌, refl, ◌≢◌, true, Option, none, some, List, [], ◌∷◌, arith, ◌==◌,
  if◌then◌else◌, head?, has, Distinct, ==-cases, inl, inr,
}
use myprogram.HashId.{HashId, Node, minus_one, bucket}

abbrev pub Nexts : (ℕ → Node) → List ℕ → Type 0
Nexts f [] = Unit {0}
Nexts f (i ∷ is) = ((f i).next ≡ head? is) × Nexts f is

-- The number of nodes below `n` that hold an id.
abbrev pub used : ℕ → (ℕ → Node) → ℕ
used zero f = 0
used (suc n) f = used n f + (if (f n).id == minus_one then 0 else 1)

pub record Inv (t : HashId) (chain : ℕ → List ℕ) : Type 0 where
  pub id_len : t.id.len ≡ t.cap
  pub hash_len : t.hash.len ≡ suc t.hashmod
  pub heads : (h : ℕ) → h < suc t.hashmod → t.hash.cell h ≡ head? (chain h)
  pub nexts : (h : ℕ) → Nexts t.id.cell (chain h)
  pub distinct : (h : ℕ) → Distinct (chain h)
  pub sound :
      (h i : ℕ)
      → has i (chain h) ≡ true
      → (i < t.cap) × ((t.id.cell i).id ≢ minus_one) × (bucket t.hashmod (t.id.cell i).id ≡ h)
  pub complete :
      (i : ℕ)
      → i < t.cap
      → (t.id.cell i).id ≢ minus_one
      → has i (chain (bucket t.hashmod (t.id.cell i).id)) ≡ true
  pub idle : (i : ℕ) → i < t.cap → (t.id.cell i).id ≡ minus_one → (t.id.cell i).next ≡ none
  pub count : t.count ≡ used t.cap t.id.cell
  pub unique :
      (i j : ℕ)
      → i < t.cap
      → j < t.cap
      → (t.id.cell i).id ≢ minus_one
      → (t.id.cell i).id ≡ (t.id.cell j).id
      → i ≡ j

-- What the table says of an id: the slot that holds it, or that no slot does.
abbrev pub Located : HashId → ℕ → Option ℕ → Type 0
Located t id none = (i : ℕ) → i < t.cap → (t.id.cell i).id ≢ minus_one → (t.id.cell i).id ≢ id
Located t id (some i) = (i < t.cap) × ((t.id.cell i).id ≢ minus_one) × ((t.id.cell i).id ≡ id)

pub Located-unique :
    {t : HashId} {chain : ℕ → List ℕ} (id : ℕ) (r s : Option ℕ)
    → Inv t chain
    → Located t id r
    → Located t id s
    → r ≡ s
Located-unique id none none v p q = refl
Located-unique id none (some j) v p q = absurd (p j q.0 q.1 q.2)
Located-unique id (some i) none v p q = absurd (q i p.0 p.1 p.2)
Located-unique id (some i) (some j) v p q = ground (arith, v.unique i j p.0 q.0 p.1)

-- A change of other nodes leaves a chain as it is.
pub Nexts-same :
    {f g : ℕ → Node} (xs : List ℕ)
    → ((i : ℕ) → has i xs ≡ true → g i ≡ f i)
    → Nexts f xs
    → Nexts g xs
Nexts-same [] same n = tt
Nexts-same (x ∷ xs) same n =
    (ground (arith, same x), Nexts-same xs (λ i h. same i (ground arith)) n.1)

pub used-same :
    (n : ℕ) (f g : ℕ → Node) → ((i : ℕ) → i < n → (g i).id ≡ (f i).id) → used n g ≡ used n f
used-same zero f g same = refl
used-same (suc n) f g same = ground (arith, used-same n f g (λ i h. same i (omega arith)), same n)

-- A node that is filled, while the ids of the others stay, adds one.
pub used-suc :
    (n c : ℕ) (f g : ℕ → Node)
    → c < n
    → (f c).id ≡ minus_one
    → (g c).id ≢ minus_one
    → ((i : ℕ) → i ≢ c → (g i).id ≡ (f i).id)
    → used n g ≡ suc (used n f)
used-suc zero c f g h p q same = absurd (omega arith)
used-suc (suc n) c f g h p q same = elim (==-cases n c) [
  | inl e ↦ ground (arith, used-same n f g (λ i l. same i (omega arith)))
  | inr ne ↦ ground (arith, used-suc n c f g (omega arith) p q same, same n ne)
]

-- With fewer used nodes than `n` one of them is free.
pub free_of_used :
    (n : ℕ) (f : ℕ → Node) → used n f < n → (i : ℕ) × (i < n) × ((f i).id ≡ minus_one)
free_of_used zero f h = absurd (omega arith)
free_of_used (suc n) f h = elim (==-cases (f n).id minus_one) [
  | inl e ↦ (n, omega arith, e)
  | inr ne ↦ let (i, below, free) = free_of_used n f (ground arith) in (i, omega arith, free)
]

pub used-full : (n : ℕ) (f : ℕ → Node) → ((i : ℕ) → i < n → (f i).id ≢ minus_one) → used n f ≡ n
used-full zero f h = refl
used-full (suc n) f h = ground (arith, used-full n f (λ i l. h i (omega arith)), h n (omega arith))

pub used-le : (n : ℕ) (f : ℕ → Node) → used n f ≤ n
used-le zero f = omega arith
used-le (suc n) f = ground (arith, used-le n f)

pub used-zero : (n : ℕ) (f : ℕ → Node) → ((i : ℕ) → i < n → (f i).id ≡ minus_one) → used n f ≡ 0
used-zero zero f h = refl
used-zero (suc n) f h = ground (arith, used-zero n f (λ i l. h i (omega arith)), h n (omega arith))
