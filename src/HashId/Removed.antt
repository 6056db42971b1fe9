-- ===== src/HashId/Removed.antt =====
-- hashid_remove: what the table holds afterwards.
use myprogram.Prelude.{
  ℕ, suc, ◌<◌, ◌≡◌, sym, ◌≢◌, inl, inr, true, Option, none, some, List, arith, ◌==◌, if◌then◌else◌,
  head?, has, update, ==-cases, ==_ne, erase, has-erase, erase-Distinct,
}
use myprogram.HashId.{HashId, Node, minus_one, bucket}
use myprogram.HashId.Invariant.{Inv, Located, Nexts-same, used-suc}
use myprogram.HashId.Remove.{Unlinked, taken}

abbrev pub removed : HashId → (ℕ → Node) → (ℕ → Option ℕ) → HashId
removed t g heads = record (taken t g) { hash = record { len = t.hash.len; cell = heads } }

module _ {t : HashId} {chain : ℕ → List ℕ} (v : Inv t chain) (id c : ℕ) (g : ℕ → Node)
    (heads : ℕ → Option ℕ) (held : has c (chain (bucket t.hashmod id)) ≡ true)
    (is_id : (t.id.cell c).id ≡ id) (u : Unlinked t.id.cell g c (chain (bucket t.hashmod id)))
    (pointed : (h : ℕ)
      → h < suc t.hashmod
      → heads h
        ≡ head? (
            if h == bucket t.hashmod id
            then erase c (chain (bucket t.hashmod id))
            else chain h)) where
  abbrev pub b : ℕ
  b = bucket t.hashmod id

  abbrev pub chain' : ℕ → List ℕ
  chain' = update chain b (erase c (chain b))

  elsewhere : (h : ℕ) → h ≢ b → (i : ℕ) → has i (chain h) ≡ true → g i ≡ t.id.cell i
  elsewhere h ne i m = u.outside i (ground (arith, v.sound h i m, v.sound b i))

  idle' : (i : ℕ) → i < t.cap → (g i).id ≡ minus_one → (g i).next ≡ none
  idle' i l e = elim (==-cases i c) [
    | inl same ↦ ground (arith, u.emptied)
    | inr ne ↦ ground (arith, u.ids i ne, u.outside i, v.sound b i, v.idle i l)
  ]

  still_filled : (i : ℕ) → (g i).id ≢ minus_one → i ≢ c
  still_filled i filled e = filled (rw (e, u.emptied))

  was_chained : (h i : ℕ) → has i (chain' h) ≡ true → (has i (chain h) ≡ true) × (i ≢ c)
  was_chained h i m = elim (==-cases h b) [
    | inl e ↦ ground (arith, has-erase c i (chain b) (v.distinct b))
    | inr ne ↦
        let there : has i (chain h) ≡ true = rw (==_ne h b ne) at m in
        (there, λ e. ne (ground (arith, v.sound h i there, v.sound b c held)))
  ]

  chained : (h i : ℕ) → has i (chain h) ≡ true → i ≢ c → has i (chain' h) ≡ true
  chained h i m ne = ground (arith, has-erase c i (chain b) (v.distinct b))

  pub removed-Inv : Inv (removed t g heads) chain'
  removed-Inv = record {
    id_len = v.id_len;
    hash_len = v.hash_len;
    heads = pointed;
    nexts = λ h. elim (==-cases h b) [
      | inl e ↦ ground (arith, u.nexts)
      | inr ne ↦
          rw (==_ne _ _ ne)
            (Nexts-same {f = t.id.cell} {g = g} (chain h) (elsewhere h ne) (v.nexts h))
    ];
    distinct = λ h. ground (arith, v.distinct h, erase-Distinct c (chain b) (v.distinct b));
    sound = λ h i m. let (there, ne) = was_chained h i m in rw (u.ids i ne) (v.sound h i there);
    complete = λ i l filled.
        let ne = still_filled i filled in
        let same = u.ids i ne in rw same (chained _ i (v.complete i l (rw same at filled)) ne);
    idle = idle';
    count = omega (
      arith,
      v.count,
      used-suc t.cap c g t.id.cell (v.sound b c held).0 (ground (arith, u.emptied))
          (v.sound b c held).1 (λ i ne. sym (u.ids i ne)),
    );
    unique = λ i j p q filled same. ground (
      arith,
      still_filled i filled,
      still_filled j (rw same at filled),
      u.ids i,
      u.ids j,
      v.unique i j p q,
    );
  }

  gone : (j : ℕ) → j ≡ id → Located (removed t g heads) j none
  gone j e i l filled same =
      ground (
        arith,
        still_filled i filled,
        u.ids i,
        v.sound b c held,
        v.unique c i (v.sound b c held).0 l,
      )

  kept : (j : ℕ) (r : Option ℕ) → j ≢ id → Located t j r → Located (removed t g heads) j r
  kept j none ne there = λ i l filled. ground (arith, there i l, u.ids i, still_filled i filled)
  kept j (some i) ne there = let apart : i ≢ c = λ e. ne (ground arith) in rw (u.ids i apart) there

  pub removed-Located :
      (j : ℕ) (r : Option ℕ)
      → Located t j r
      → Located (removed t g heads) j (if j == id then none else r)
  removed-Located j r there = elim (==-cases j id) [
    | inl e ↦ let same : (j == id) ≡ true = ground arith in rw same (gone j e)
    | inr ne ↦ rw (==_ne _ _ ne) (kept j r ne there)
  ]
