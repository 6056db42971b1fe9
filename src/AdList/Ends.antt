-- ===== src/AdList/Ends.antt =====
-- The two ends of a list of adlist.h.
use myprogram.Prelude.{
  ℕ, ◌≡◌, refl, sym, ◌∙◌, inl, inr, true, false, Option, none, some, [], ◌∷◌, ◌++◌, arith, has,
  ◌==◌, if◌then◌else◌, ok, fault, Option-cases, ==_refl, ==_ne,
}
use myprogram.AdList.{Heap, ListNode, load, store, set_prev, set_next, points, or_else}
use myprogram.AdList.Chain.{Nodes, first, last_or, addresses}
use myprogram.AdList.Segment.{first_or, last_or-append}

pub first-append : (xs ys : Nodes) → first (xs ++ ys) ≡ first_or (first ys) xs
first-append [] ys = refl
first-append (x ∷ xs) ys = refl

-- The last node of a run that starts with `a` is one of its nodes.
pub last_or-some :
    (a : ℕ) (xs : Nodes)
    → (e : ℕ) × (last_or (some a) xs ≡ some e) × (has e (a ∷ addresses xs) ≡ true)
last_or-some a [] = (a, refl, ground (arith, ==_refl a))
last_or-some a ((b, v) ∷ xs) =
    let (e, same, there) = last_or-some b xs in (e, same, ground (arith, there))

points_ne : (p : Option ℕ) (a e : ℕ) → p ≡ some e → (e == a) ≡ false → points p a ≡ false
points_ne p a e same ne = rw same ne

-- The end behind a new node `a` that comes after `old`.
pub end_after :
    (old a : ℕ) (zs : Nodes)
    → has old (addresses zs) ≡ false
    → (if points (last_or (some old) zs) old then some a else last_or (some old) zs)
      ≡ last_or (some a) zs
end_after old a [] out = rw (==_refl old) refl
end_after old a ((c, v) ∷ zs) out =
    let (e, same, there) = last_or-some c zs in
    let ne : (e == old) ≡ false = ==_ne e old (λ q. cc (q, there, out)) in
    rw (points_ne (last_or (some c) zs) old e same ne) refl

-- The end in front of a new node `a` that comes before `old`.
pub end_before :
    (old w a v : ℕ) (ys zs : Nodes)
    → has old (addresses ys) ≡ false
    → (if points (first (ys ++ (old, w) ∷ zs)) old then some a else first (ys ++ (old, w) ∷ zs))
      ≡ first (ys ++ (a, v) ∷ (old, w) ∷ zs)
end_before old w a v [] zs out = rw (==_refl old) refl
end_before old w a v ((b, u) ∷ ys) zs out = let ne : (b == old) ≡ false = ground arith in rw ne refl

-- The ends of a list that a node is taken out of.
pub end_without_front :
    (a v : ℕ) (ys zs : Nodes)
    → or_else (last_or none ys) (first_or none zs) (first (ys ++ (a, v) ∷ zs)) ≡ first (ys ++ zs)
end_without_front a v [] [] = refl
end_without_front a v [] (z ∷ zs) = refl
end_without_front a v ((b, u) ∷ ys) zs = let (e, same, there) = last_or-some b ys in rw same refl

pub end_without_back :
    (a v : ℕ) (ys zs : Nodes)
    → or_else (first_or none zs) (last_or none ys) (last_or none (ys ++ (a, v) ∷ zs))
      ≡ last_or none (ys ++ zs)
end_without_back a v ys [] = sym (last_or-append none ys [])
end_without_back a v ys ((c, w) ∷ zs) =
    last_or-append none ys ((a, v) ∷ (c, w) ∷ zs) ∙ sym (last_or-append none ys ((c, w) ∷ zs))

-- What a pointer is set in, when it is.
pub set_next-store :
    (h : Heap) (t : ℕ) (q : Option ℕ) (h' : Heap)
    → set_next h (some t) q ≡ ok h'
    → (n : ListNode) × (load h (some t) ≡ ok (t, n)) × (h' ≡ store h t (record n { next = q }))
unfolding set_next load
set_next-store h t q h' run = elim (Option-cases (h t)) [
  | inl e ↦ let bad : fault ≡ ok h' = sym (rw (load, e) refl) ∙ run in absurd (cc bad)
  | inr (n, e) ↦
      let good : ok (store h t (record n { next = q })) ≡ ok h' = sym (rw (load, e) refl) ∙ run in
      (n, rw (load, e) refl, cc good)
]

pub set_prev-store :
    (h : Heap) (t : ℕ) (q : Option ℕ) (h' : Heap)
    → set_prev h (some t) q ≡ ok h'
    → (n : ListNode) × (load h (some t) ≡ ok (t, n)) × (h' ≡ store h t (record n { prev = q }))
unfolding set_prev load
set_prev-store h t q h' run = elim (Option-cases (h t)) [
  | inl e ↦ let bad : fault ≡ ok h' = sym (rw (load, e) refl) ∙ run in absurd (cc bad)
  | inr (n, e) ↦
      let good : ok (store h t (record n { prev = q })) ≡ ok h' = sym (rw (load, e) refl) ∙ run in
      (n, rw (load, e) refl, cc good)
]
