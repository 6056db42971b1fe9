-- ===== src/HashId/Inserted.antt =====
-- hashid_insert: what the table holds afterwards.
use myprogram.Prelude.{
  ℕ, suc, ◌+◌, ◌^◌, ◌≤◌, ◌<◌, ◌≡◌, refl, ◌≢◌, inl, inr, true, false, Option, none, some, List,
  arith, ◌==◌, if◌then◌else◌, has, ok, ==-cases, ==_ne,
}
use myprogram.HashId.{HashId, minus_one, bucket, insert, full, lookup}
use myprogram.HashId.Bucket.{bucket-lt}
use myprogram.HashId.Invariant.{Nexts, Inv, Located, Nexts-same, used-suc}
use myprogram.HashId.Lookup.{lookup_of_Located, Located-of_lookup}
use myprogram.HashId.Insert.{inserted, chain_after, insert-run}

module _ {t : HashId} {chain : ℕ → List ℕ} (v : Inv t chain) (id s : ℕ) (is_id : id ≢ minus_one)
    (below : s < t.cap) (free : (t.id.cell s).id ≡ minus_one) where
  not_chained : (h : ℕ) → has s (chain h) ≡ false
  not_chained h = ground (arith, v.sound h s)

  Nexts-kept : (h : ℕ) → Nexts (inserted t id s).id.cell (chain h)
  Nexts-kept h =
      Nexts-same {f = t.id.cell} {g = (inserted t id s).id.cell} (chain h)
        (λ i m. ground (arith, not_chained h)) (v.nexts h)

  absent_unique :
      Located t id none
      → (i j : ℕ) → i < t.cap
      → j < t.cap
      → ((inserted t id s).id.cell i).id ≢ minus_one
      → ((inserted t id s).id.cell i).id ≡ ((inserted t id s).id.cell j).id
      → i ≡ j
  absent_unique absent i j p q filled same =
      ground (arith, absent i p, absent j q, v.unique i j p q)

  inserted-Inv : Located t id none → Inv (inserted t id s) (chain_after t chain id s)
  inserted-Inv absent = record {
    id_len = v.id_len;
    hash_len = v.hash_len;
    heads = λ h l. ground (arith, v.heads h l);
    nexts = λ h. elim (==-cases h (bucket t.hashmod id)) [
      | inl e ↦ ground (arith, v.heads h (rw e (bucket-lt t.hashmod id)), Nexts-kept h)
      | inr ne ↦ rw (==_ne _ _ ne) (Nexts-kept h)
    ];
    distinct = λ h. ground (arith, v.distinct h, not_chained h);
    sound = λ h i m. ground (arith, v.sound h i);
    complete = λ i l filled. ground (arith, v.complete i l);
    idle = λ i l e. ground (arith, v.idle i l);
    count = ground (
      arith,
      v.count,
      used-suc t.cap s t.id.cell (inserted t id s).id.cell below free (ground arith)
          (λ i ne. ground arith),
    );
    unique = absent_unique absent;
  }

  holds_new : (j : ℕ) → j ≡ id → Located (inserted t id s) j (some s)
  holds_new j e = (below, ground arith, ground arith)

  holds_old : (j : ℕ) (r : Option ℕ) → j ≢ id → Located t j r → Located (inserted t id s) j r
  holds_old j none ne there = λ i l filled. ground (arith, there i l)
  holds_old j (some i) ne there = (there.0, ground arith, ground arith)

  inserted-Located :
      (j : ℕ) (r : Option ℕ)
      → Located t j r
      → Located (inserted t id s) j (if j == id then some s else r)
  inserted-Located j r there = elim (==-cases j id) [
    | inl e ↦ let same : (j == id) ≡ true = ground arith in rw same (holds_new j e)
    | inr ne ↦ rw (==_ne _ _ ne) (holds_old j r ne there)
  ]

-- hashid_insert of a new id that is no negative int, into a table that is not full: it ends at a
-- slot of the table and keeps the invariant, and every later lookup of the id returns that slot,
-- every lookup of another what it returned before.
pub insert-Inv :
    {t : HashId} {chain : ℕ → List ℕ} (id : ℕ)
    → Inv t chain
    → t.cap + id ≤ 2 ^ 31
    → full t ≡ false
    → lookup t id ≡ ok none
    → (t' : HashId) × (chain' : ℕ → List ℕ) × (s : ℕ) × (insert t id ≡ ok (t', s))
      × Inv t' chain'
      × (s < t.cap)
      × (t'.cap ≡ t.cap)
      × (t'.count ≡ suc t.count)
      × ((j : ℕ) (r : Option ℕ)
          → lookup t j ≡ ok r
          → lookup t' j ≡ ok (if j == id then some s else r))
insert-Inv {t} {chain} id v fits room absent =
    let (s, run, below, free) = insert-run v id fits room in
    let is_id : id ≢ minus_one = omega arith in
    let v' = inserted-Inv v id s is_id below free (Located-of_lookup v id none absent) in
    (
      inserted t id s,
      chain_after t chain id s,
      s,
      run,
      v',
      below,
      refl,
      omega arith,
      λ j r e.
          lookup_of_Located v' j _
            (inserted-Located v id s is_id below free j r (Located-of_lookup v j r e)),
    )
