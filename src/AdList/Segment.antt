-- ===== src/AdList/Segment.antt =====
-- Runs of nodes of adlist.h between two neighbours, and what a change of one pointer makes of them.
use myprogram.Prelude.{
  ℕ, ◌≡◌, refl, sym, ap, ◌∙◌, true, false, Option, none, some, List, [], ◌∷◌, ◌++◌, arith, has,
  Distinct, ok, ==_refl, apart_of_has,
}
use myprogram.AdList.{Heap, node, store, set_prev, set_next}
use myprogram.AdList.Chain.{Nodes, first, last_or, addresses, Chain}
use myprogram.AdList.Search.{load-at}

abbrev pub first_or : Option ℕ → Nodes → Option ℕ
first_or q [] = q
first_or q ((a, _) ∷ xs) = some a

-- The nodes between `p` and `q`, each pointing to both of its neighbours.
abbrev pub Segment : Heap → Option ℕ → Nodes → Option ℕ → Type 0
Segment h p [] q = Unit {0}
Segment h p ((a, v) ∷ xs) q = (h a ≡ some (node p (first_or q xs) v)) × Segment h (some a) xs q

pub first_or-none : (xs : Nodes) → first_or none xs ≡ first xs
first_or-none [] = refl
first_or-none (x ∷ xs) = refl

pub Chain-Segment : (h : Heap) (p : Option ℕ) (xs : Nodes) → Chain h p xs → Segment h p xs none
Chain-Segment h p [] c = tt
Chain-Segment h p ((a, v) ∷ xs) c =
    (c.0 ∙ ap (λ q. some (node p q v)) (sym (first_or-none xs)), Chain-Segment h (some a) xs c.1)

pub Segment-Chain : (h : Heap) (p : Option ℕ) (xs : Nodes) → Segment h p xs none → Chain h p xs
Segment-Chain h p [] c = tt
Segment-Chain h p ((a, v) ∷ xs) c =
    (c.0 ∙ ap (λ q. some (node p q v)) (first_or-none xs), Segment-Chain h (some a) xs c.1)

pub Segment-same :
    {f g : Heap} (p : Option ℕ) (xs : Nodes) (q : Option ℕ)
    → ((b : ℕ) → has b (addresses xs) ≡ true → g b ≡ f b)
    → Segment f p xs q
    → Segment g p xs q
Segment-same p [] q same c = tt
Segment-same {f} {g} p ((a, v) ∷ xs) q same c = (
  ground (arith, same a),
  Segment-same {f = f} {g = g} (some a) xs q (λ b h. same b (ground arith)) c.1,
)

pub first_or-append :
    (q : Option ℕ) (xs ys : Nodes) → first_or q (xs ++ ys) ≡ first_or (first_or q ys) xs
first_or-append q [] ys = refl
first_or-append q (x ∷ xs) ys = refl

pub last_or-append :
    (p : Option ℕ) (xs ys : Nodes) → last_or p (xs ++ ys) ≡ last_or (last_or p xs) ys
last_or-append p [] ys = refl
last_or-append p ((a, v) ∷ xs) ys = last_or-append (some a) xs ys

pub Segment-split :
    (h : Heap) (p : Option ℕ) (xs ys : Nodes) (q : Option ℕ)
    → Segment h p (xs ++ ys) q
    → Segment h p xs (first_or q ys) × Segment h (last_or p xs) ys q
Segment-split h p [] ys q c = (tt, c)
Segment-split h p ((a, v) ∷ xs) ys q c =
    let (left, right) = Segment-split h (some a) xs ys q c.1 in
    ((c.0 ∙ ap (λ r. some (node p r v)) (first_or-append q xs ys), left), right)

pub Segment-join :
    (h : Heap) (p : Option ℕ) (xs ys : Nodes) (q : Option ℕ)
    → Segment h p xs (first_or q ys)
    → Segment h (last_or p xs) ys q
    → Segment h p (xs ++ ys) q
Segment-join h p [] ys q c d = d
Segment-join h p ((a, v) ∷ xs) ys q c d = (
  c.0 ∙ ap (λ r. some (node p r v)) (sym (first_or-append q xs ys)),
  Segment-join h (some a) xs ys q c.1 d,
)

pub addresses-append : (xs ys : Nodes) → addresses (xs ++ ys) ≡ addresses xs ++ addresses ys
addresses-append [] ys = refl
addresses-append ((a, v) ∷ xs) ys = ap (λ t. a ∷ t) (addresses-append xs ys)

-- A heap that differs from another one in nodes of `as` alone.
abbrev pub Only : Heap → Heap → List ℕ → Type 0
Only h h' near = (b : ℕ) → has b near ≡ false → h' b ≡ h b

-- The first node of a run, or none, gets another neighbour in front.
pub set_prev-Segment :
    (h : Heap) (p p' q : Option ℕ) (xs : Nodes)
    → Segment h p xs q
    → Distinct (addresses xs)
    → (h' : Heap) × (set_prev h (first_or none xs) p' ≡ ok h')
      × Segment h' p' xs q
      × Only h h' (addresses xs)
unfolding set_prev
set_prev-Segment h p p' q [] c d = (h, refl, tt, λ b out. refl)
set_prev-Segment h p p' q ((a, v) ∷ xs) c d =
    let h' = store h a (node p' (first_or q xs) v) in
    (
      h',
      rw (load-at h a _ c.0) refl,
      (
        rw (==_refl a) refl,
        Segment-same {f = h} {g = h'} (some a) xs q
            (λ b there. ground (arith, apart_of_has a b (addresses xs))) c.1,
      ),
      λ b out. ground arith,
    )

-- The last node of a run, or none, gets another neighbour behind.
pub set_next-Segment :
    (h : Heap) (p q q' : Option ℕ) (xs : Nodes)
    → Segment h p xs q
    → Distinct (addresses xs)
    → (h' : Heap) × (set_next h (last_or none xs) q' ≡ ok h')
      × Segment h' p xs q'
      × Only h h' (addresses xs)
unfolding set_next
set_next-Segment h p q q' [] c d = (h, refl, tt, λ b out. refl)
set_next-Segment h p q q' ((a, v) ∷ []) c d =
    let h' = store h a (node p q' v) in
    (h', rw (load-at h a _ c.0) refl, (rw (==_refl a) refl, tt), λ b out. ground arith)
set_next-Segment h p q q' ((a, v) ∷ (b, w) ∷ xs) c d =
    let (h', run, seg, only) = set_next-Segment h (some a) q q' ((b, w) ∷ xs) c.1 d.1 in
    (h', run, (only a d.0 ∙ c.0, seg), λ e out. only e (ground arith))
