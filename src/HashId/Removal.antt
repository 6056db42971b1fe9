-- ===== src/HashId/Removal.antt =====
-- hashid_remove: the run, and the invariant of the table that it leaves.
use myprogram.Prelude.{
  ℕ, suc, ◌+◌, ◌<◌, ◌≡◌, refl, sym, ap, subst, ◌∙◌, ◌≢◌, inl, inr, true, false, Option, none, some,
  List, [], ◌∷◌, arith, ◌==◌, if◌then◌else◌, head?, has, length, ok, get-ok, put-ok, update,
  ==-cases, ==_ne, Distinct, erase,
}
use myprogram.HashId.{HashId, Node, empty_node, bucket, unlink, release, remove, lookup}
use myprogram.HashId.Bucket.{bucket-lt}
use myprogram.HashId.Invariant.{Nexts, Inv, Nexts-same, used-suc}
use myprogram.HashId.Lookup.{
  first_with, first_with-some, lookup-chain, chain_length, lookup_of_Located, Located-of_lookup,
}
use myprogram.HashId.Remove.{Unlinked, Loop, unlink-Loop}
use myprogram.HashId.Removed.{removed, removed-Inv, removed-Located}

-- What the call comes to, by what the chain holds.
abbrev Outcome : HashId → (ℕ → List ℕ) → ℕ → List ℕ → Option ℕ → Type 0
Outcome t chain id xs none = remove t id ≡ ok (t, none)
Outcome t chain id xs (some c) =
    (g : ℕ → Node) × (heads : ℕ → Option ℕ) × (remove t id ≡ ok (removed t g heads, some c))
    × Unlinked t.id.cell g c xs
    × ((h : ℕ)
        → h < suc t.hashmod
        → heads h ≡ head? (if h == bucket t.hashmod id then erase c xs else chain h))

module _ {t : HashId} {chain : ℕ → List ℕ} (v : Inv t chain) (id : ℕ) where
  abbrev h : ℕ
  h = bucket t.hashmod id

  in_hash : h < t.hash.len
  in_hash = omega (arith, bucket-lt t.hashmod id, v.hash_len)

  hash_head : (xs : List ℕ) → chain h ≡ xs → t.hash.cell h ≡ head? xs
  hash_head xs e = v.heads h (bucket-lt t.hashmod id) ∙ ap head? e

  in_id : (i : ℕ) (xs : List ℕ) → chain h ≡ xs → has i xs ≡ true → i < t.id.len
  in_id i xs e m = rw v.id_len (v.sound h i (rw e m)).0

  remove-head :
      (c : ℕ) (xs : List ℕ)
      → chain h ≡ c ∷ xs
      → (t.id.cell c).id ≡ id
      → Outcome t chain id (c ∷ xs) (some c)
  unfolding remove release
  remove-head c xs e hit =
      let below = in_id c (c ∷ xs) e (ground arith) in
      let same : ((t.id.cell c).id == id) ≡ true = ground arith in
      let self : (c == c) ≡ true = ground arith in
      let d = subst Distinct e (v.distinct h) in
      let n = subst (Nexts t.id.cell) e (v.nexts h) in
      (
        update t.id.cell c empty_node,
        update t.hash.cell h (t.id.cell c).next,
        rw (
          get-ok t.hash h in_hash,
          hash_head (c ∷ xs) e,
          get-ok t.id c below,
          same,
          put-ok t.hash h (t.id.cell c).next in_hash,
          put-ok t.id c empty_node below,
        ),
        record {
          nexts = rw self (
              Nexts-same {f = t.id.cell} {g = update t.id.cell c empty_node} xs
                (λ i m. ground arith) n.1);
          emptied = ground arith;
          ids = λ i ne. ground arith;
          outside = λ i m. ground arith;
        },
        λ g l. ground (arith, n.0, v.heads g l),
      )

  remove-tail :
      (c : ℕ) (xs : List ℕ) (r : Option ℕ)
      → chain h ≡ c ∷ xs
      → (t.id.cell c).id ≢ id
      → ((i : ℕ) → r ≡ some i → has i xs ≡ true)
      → Loop t id (unlink (suc t.cap) t id c) c xs r
      → Outcome t chain id (c ∷ xs) r
  unfolding remove
  remove-tail c xs none e other inside l =
      let below = in_id c (c ∷ xs) e (ground arith) in
      rw
        (
          get-ok t.hash h in_hash,
          hash_head (c ∷ xs) e,
          get-ok t.id c below,
          ==_ne (t.id.cell c).id id other,
        )
        l
  remove-tail c xs (some i) e other inside (g, run, u) =
      let below = in_id c (c ∷ xs) e (ground arith) in
      let d = subst Distinct e (v.distinct h) in
      let apart : (i == c) ≡ false = ground (arith, inside i refl) in
      (
        g,
        t.hash.cell,
        rw
            (
              get-ok t.hash h in_hash,
              hash_head (c ∷ xs) e,
              get-ok t.id c below,
              ==_ne (t.id.cell c).id id other,
            )
            run,
        u,
        λ k l. elim (==-cases k h) [
          | inl same ↦ ground (arith, v.heads k l)
          | inr ne ↦ rw (==_ne k h ne) (v.heads k l)
        ],
      )

  remove-Outcome : (xs : List ℕ) → chain h ≡ xs → Outcome t chain id xs (first_with t.id.cell id xs)
  remove-Outcome [] e = unfold remove in rw (get-ok t.hash h in_hash, hash_head [] e) refl
  remove-Outcome (c ∷ xs) e = elim (==-cases (t.id.cell c).id id) [
    | inl hit ↦
        let same : ((t.id.cell c).id == id) ≡ true = ground arith in
        rw same (remove-head c xs e hit)
    | inr other ↦ rw (==_ne _ _ other) (
        remove-tail c xs (first_with t.id.cell id xs) e other
          (λ i m. (first_with-some t.id.cell id i xs m).0)
          (unlink-Loop (suc t.cap) t id c xs (omega (arith, chain_length v h, ap length e))
            (subst Distinct e (v.distinct h)) (subst (Nexts t.id.cell) e (v.nexts h))
            (λ i m. in_id i (c ∷ xs) e m)))
  ]

abbrev pub taken_count : Option ℕ → ℕ
taken_count none = 0
taken_count (some _) = 1

abbrev pub Kept : HashId → ℕ → (HashId × Option ℕ) → Type 0
Kept t id (t', r) =
    (chain' : ℕ → List ℕ) × Inv t' chain'
    × (lookup t id ≡ ok r)
    × (t'.cap ≡ t.cap)
    × (t.count ≡ taken_count r + t'.count)
    × ((j : ℕ) (s : Option ℕ) → lookup t j ≡ ok s → lookup t' j ≡ ok (if j == id then none else s))

module _ {t : HashId} {chain : ℕ → List ℕ} (v : Inv t chain) (id : ℕ) where
  Kept-none : lookup t id ≡ ok none → Kept t id (t, none)
  Kept-none e = (
    chain,
    v,
    e,
    refl,
    omega arith,
    λ j s there. elim (==-cases j id) [
      | inl same ↦ let hit : (j == id) ≡ true = ground arith in rw (hit, same) e
      | inr ne ↦ rw (==_ne j id ne) there
    ],
  )

  Kept-some :
      (c : ℕ) (g : ℕ → Node) (heads : ℕ → Option ℕ)
      → lookup t id ≡ ok (some c)
      → has c (chain (bucket t.hashmod id)) ≡ true
      → Unlinked t.id.cell g c (chain (bucket t.hashmod id))
      → ((k : ℕ)
          → k < suc t.hashmod
          → heads k
            ≡ head? (
                if k == bucket t.hashmod id
                then erase c (chain (bucket t.hashmod id))
                else chain k))
      → Kept t id (removed t g heads, some c)
  Kept-some c g heads e held u pointed =
      let (below, filled, is_id) = Located-of_lookup v id (some c) e in
      let v' = removed-Inv v id c g heads held is_id u pointed in
      (
        _,
        v',
        e,
        refl,
        omega (
          arith,
          v.count,
          used-suc t.cap c g t.id.cell below (ground (arith, u.emptied)) filled
              (λ i ne. sym (u.ids i ne)),
        ),
        λ j s there. lookup_of_Located v' j _ (
            removed-Located v id c g heads held is_id u pointed j s
              (Located-of_lookup v j s there)),
      )

  Kept-of_Outcome :
      (r : Option ℕ)
      → first_with t.id.cell id (chain (bucket t.hashmod id)) ≡ r
      → Outcome t chain id (chain (bucket t.hashmod id)) r
      → (out : HashId × Option ℕ) × (remove t id ≡ ok out) × Kept t id out
  Kept-of_Outcome none e run = ((t, none), run, Kept-none (lookup-chain v id ∙ ap ok e))
  Kept-of_Outcome (some c) e (g, heads, run, u, pointed) =
      let held = (first_with-some t.id.cell id c (chain (bucket t.hashmod id)) e).0 in
      (
        (removed t g heads, some c),
        run,
        Kept-some c g heads (lookup-chain v id ∙ ap ok e) held u pointed,
      )

  -- hashid_remove ends and keeps the invariant. It returns what a lookup of the id returns; after
  -- it a lookup of the id finds nothing, and a lookup of another what it found before. The count
  -- falls by one if the id was there, and stays otherwise.
  pub remove-Inv : (out : HashId × Option ℕ) × (remove t id ≡ ok out) × Kept t id out
  remove-Inv = Kept-of_Outcome _ refl (remove-Outcome v id _ refl)
