-- ===== src/HashId/Insert.antt =====
-- hashid_insert: the search for a free node ends, and the table keeps its invariant.
use native.Mathlib.Nat.{mod-lt, mod-eq_of_lt, add-mod-mod, add-mod_right}
use myprogram.Prelude.{
  ℕ, zero, suc, ◌+◌, ◌-◌, ◌%◌, ◌^◌, ◌≤◌, ◌<◌, ◌≡◌, refl, sym, ap, ◌∙◌, ◌≢◌, ◌⊎◌, inl, inr, false,
  none, some, List, ◌∷◌, arith, ltb, ok, get, get-ok, put-ok, update, written, ==-cases, Bool-cases,
  ==_ne,
}
use myprogram.HashId.{HashId, minus_one, bucket, probe, free_node, insert, full}
use myprogram.HashId.Bucket.{bucket-lt}
use myprogram.HashId.Invariant.{Inv, free_of_used, used-le}

probe-ok : (i id size : ℕ) → i + id < 2 ^ 31 → probe i id size ≡ ok ((i + id) % size)
unfolding probe
probe-ok i id size h = ground arith

-- Every slot is probed in one of the `cap` rounds.
slot_round : (s size id : ℕ) → s < size → (j : ℕ) × (j < size) × ((j + id) % size ≡ s)
slot_round s size id h = elim (Bool-cases (ltb s (id % size))) [
  | inl below ↦
      let j = s + size - id % size in
      (
        j,
        ground arith,
        sym (add-mod-mod j id size)
            ∙ ap (λ (x : ℕ). x % size) (omega (arith, mod-lt id {m = size}))
            ∙ add-mod_right s size
            ∙ mod-eq_of_lt h,
      )
  | inr above ↦
      let j = s - id % size in
      (
        j,
        ground arith,
        sym (add-mod-mod j id size) ∙ ap (λ (x : ℕ). x % size) (ground arith) ∙ mod-eq_of_lt h,
      )
]

abbrev pub inserted : HashId → ℕ → ℕ → HashId
inserted t id s = record t {
  count = t.count + 1;
  id = written t.id s (record { id = id; next = t.hash.cell (bucket t.hashmod id) });
  hash = written t.hash (bucket t.hashmod id) (some s);
}

abbrev pub chain_after : HashId → (ℕ → List ℕ) → ℕ → ℕ → ℕ → List ℕ
chain_after t chain id s = update chain (bucket t.hashmod id) (s ∷ chain (bucket t.hashmod id))

-- What the search comes to.
abbrev pub Searched : HashId → ℕ → ℕ → ℕ → Type 0
Searched t id n i =
    ((free_node n t id i ≡ ok none)
      × ((j : ℕ) → i ≤ j → j < i + n → (t.id.cell ((j + id) % t.cap)).id ≢ minus_one))
    ⊎ ((s : ℕ) × (free_node n t id i ≡ ok (some s)) × (s < t.cap) × ((t.id.cell s).id ≡ minus_one))

module _ {t : HashId} {chain : ℕ → List ℕ} (v : Inv t chain) (id : ℕ)
    (fits : t.cap + id ≤ 2 ^ 31) where
  pub free_node-Searched : (n i : ℕ) → i + n ≤ t.cap → Searched t id n i
  unfolding free_node
  free_node-Searched zero i h = inl (refl, λ j p q. absurd (omega arith))
  free_node-Searched (suc n) i h =
      let index = (i + id) % t.cap in
      let inside : index < t.cap = mod-lt (i + id) (omega arith) in
      let read : get t.id index ≡ ok (t.id.cell index) =
        get-ok t.id index (omega (arith, v.id_len)) in
      elim (==-cases (t.id.cell index).id minus_one) [
        | inl free ↦ inr (index, rw (probe-ok i id t.cap (omega arith), read, free), inside, free)
        | inr filled ↦
            let found = probe-ok i id t.cap (omega arith) in
            let miss = ==_ne (t.id.cell index).id minus_one filled in
            elim (free_node-Searched n (i + 1) (omega arith)) [
              | inl (run, all) ↦ inl (
                rw (found, read, miss) run,
                λ j p q. elim (==-cases i j) [
                  | inl e ↦ rw (← e) filled
                  | inr ne ↦ all j (omega arith) (omega arith)
                ],
              )
              | inr (s, run, below, free) ↦ inr (s, rw (found, read, miss) run, below, free)
            ]
      ]

  -- In a table that is not full the search finds a free node.
  free_node-some :
      full t ≡ false
      → (s : ℕ) × (free_node t.cap t id 0 ≡ ok (some s))
        × (s < t.cap)
        × ((t.id.cell s).id ≡ minus_one)
  free_node-some room = elim (free_node-Searched t.cap 0 (omega arith)) [
    | inr found ↦ found
    | inl (run, all) ↦
        let (s, below, free) =
          free_of_used t.cap t.id.cell (ground (arith, v.count, used-le t.cap t.id.cell)) in
        let (j, inside, e) = slot_round s t.cap id below in
        absurd (all j (omega arith) (omega arith) (rw e free))
  ]

  pub insert-run :
      full t ≡ false
      → (s : ℕ) × (insert t id ≡ ok (inserted t id s, s))
        × (s < t.cap)
        × ((t.id.cell s).id ≡ minus_one)
  unfolding insert
  insert-run room =
      let (s, run, below, free) = free_node-some room in
      let b = bucket t.hashmod id in
      let inside = bucket-lt t.hashmod id in
      let in_hash : b < t.hash.len = omega (arith, inside, v.hash_len) in
      let in_id : s < t.id.len = omega (arith, v.id_len) in
      (
        s,
        rw (
          run,
          get-ok t.id s in_id,
          v.idle s below free,
          get-ok t.hash b in_hash,
          put-ok t.id s (record { id = id; next = t.hash.cell b }) in_id,
          put-ok t.hash b (some s) in_hash,
        ),
        below,
        free,
      )
