-- ===== src/HashId/Lookup.antt =====
-- hashid_lookup against the slots of the table.
use myprogram.Prelude.{
  ℕ, zero, suc, ◌<◌, ◌≡◌, refl, ◌≢◌, ap, subst, ◌∙◌, true, Option, none, some, List, [], ◌∷◌, arith,
  ◌==◌, if◌then◌else◌, head?, has, length, ok, Array, get-ok, length-le_of_Below, Below-of_has,
  Bool-cases, Option-cases, inl, inr,
}
use myprogram.HashId.{HashId, Node, bucket, walk, lookup}
use myprogram.HashId.Bucket.{bucket-lt}
use myprogram.HashId.Invariant.{Nexts, Inv, Located, Located-unique}

-- The first slot of a chain that holds the id.
abbrev pub first_with : (ℕ → Node) → ℕ → List ℕ → Option ℕ
first_with f id [] = none
first_with f id (i ∷ is) = if (f i).id == id then some i else first_with f id is

pub walk-first_with :
    (k : ℕ) (nodes : Array Node) (id : ℕ) (xs : List ℕ)
    → length xs < k
    → Nexts nodes.cell xs
    → ((i : ℕ) → has i xs ≡ true → i < nodes.len)
    → walk k nodes id (head? xs) ≡ ok (first_with nodes.cell id xs)
unfolding walk
walk-first_with zero nodes id xs fuel n b = absurd (omega arith)
walk-first_with (suc k) nodes id [] fuel n b = refl
walk-first_with (suc k) nodes id (x ∷ xs) fuel n b =
    rw (get-ok nodes x (b x (ground arith))) (elim (Bool-cases ((nodes.cell x).id == id)) [
      | inl hit ↦ rw hit
      | inr miss ↦
          rw (miss, n.0)
            (walk-first_with k nodes id xs (omega arith) n.1 (λ i h. b i (ground arith)))
    ])

pub first_with-some :
    (f : ℕ → Node) (id i : ℕ) (xs : List ℕ)
    → first_with f id xs ≡ some i
    → (has i xs ≡ true) × ((f i).id ≡ id)
first_with-some f id i [] h = cc
first_with-some f id i (x ∷ xs) h = ground (arith, first_with-some f id i xs)

pub first_with-none :
    (f : ℕ → Node) (id i : ℕ) (xs : List ℕ)
    → first_with f id xs ≡ none
    → has i xs ≡ true
    → (f i).id ≢ id
first_with-none f id i [] h m = cc
first_with-none f id i (x ∷ xs) h m = ground (arith, first_with-none f id i xs)

module _ {t : HashId} {chain : ℕ → List ℕ} (v : Inv t chain) where
  pub chain_length : (h : ℕ) → length (chain h) < suc t.cap
  chain_length h = omega (
    arith,
    length-le_of_Below t.cap (chain h) (v.distinct h)
        (Below-of_has t.cap (chain h) (λ i e. (v.sound h i e).0)),
  )

  pub lookup-chain :
      (id : ℕ) → lookup t id ≡ ok (first_with t.id.cell id (chain (bucket t.hashmod id)))
  unfolding lookup
  lookup-chain id =
      let h = bucket t.hashmod id in
      rw
        (
          get-ok t.hash h (ground (arith, v.hash_len, bucket-lt t.hashmod id)),
          v.heads h (bucket-lt t.hashmod id),
        )
        (walk-first_with (suc t.cap) t.id id (chain h) (chain_length h) (v.nexts h)
          (λ i e. ground (arith, v.id_len, v.sound h i e)))

  pub first_with-Located :
      (id : ℕ) → Located t id (first_with t.id.cell id (chain (bucket t.hashmod id)))
  first_with-Located id =
      let xs = chain (bucket t.hashmod id) in
      elim (Option-cases (first_with t.id.cell id xs)) [
        | inl e ↦ rw e (λ i l filled same.
            first_with-none t.id.cell id i xs e
              (let there = v.complete i l filled in rw same at there) same)
        | inr (i, e) ↦
            let (m, same) = first_with-some t.id.cell id i xs e in
            let (l, filled, _) = v.sound (bucket t.hashmod id) i m in rw e (l, filled, same)
      ]

  -- hashid_lookup ends, and returns the slot that holds the id, or -1 if no slot does.
  pub lookup-Located : (id : ℕ) → (r : Option ℕ) × (lookup t id ≡ ok r) × Located t id r
  lookup-Located id = (
    first_with t.id.cell id (chain (bucket t.hashmod id)),
    lookup-chain id,
    first_with-Located id,
  )

  pub lookup_of_Located : (id : ℕ) (r : Option ℕ) → Located t id r → lookup t id ≡ ok r
  lookup_of_Located id r p =
      lookup-chain id ∙ ap ok (Located-unique id _ r v (first_with-Located id) p)

  pub Located-of_lookup : (id : ℕ) (r : Option ℕ) → lookup t id ≡ ok r → Located t id r
  Located-of_lookup id r e =
      let (s, run, there) = lookup-Located id in
      let same : s ≡ r = cc in subst (Located t id) same there
