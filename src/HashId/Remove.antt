-- ===== src/HashId/Remove.antt =====
-- hashid_remove: the node leaves its chain, and the table keeps its invariant.
use myprogram.Prelude.{
  ℕ, zero, suc, ◌-◌, ◌<◌, ◌≡◌, refl, ◌≢◌, inl, inr, true, false, Option, none, some, List, [], ◌∷◌,
  arith, ◌==◌, has, length, Run, ok, get-ok, put-ok, update, written, ==-cases, ==_ne, Distinct,
  erase,
}
use myprogram.HashId.{HashId, Node, empty_node, release, unlink}
use myprogram.HashId.Invariant.{Nexts, Nexts-same}
use myprogram.HashId.Lookup.{first_with, first_with-some}

-- The nodes `g` are the nodes `f` with slot `c` taken out of the chain `xs`.
pub record Unlinked (f g : ℕ → Node) (c : ℕ) (xs : List ℕ) : Type 0 where
  pub nexts : Nexts g (erase c xs)
  pub emptied : g c ≡ empty_node
  pub ids : (i : ℕ) → i ≢ c → (g i).id ≡ (f i).id
  pub outside : (i : ℕ) → has i xs ≡ false → g i ≡ f i

abbrev pub taken : HashId → (ℕ → Node) → HashId
taken t g = record t { id = record { len = t.id.len; cell = g }; count = t.count - 1 }

-- What the loop comes to on the chain that follows slot `p`.
abbrev pub Loop : HashId → ℕ → Run (HashId × Option ℕ) → ℕ → List ℕ → Option ℕ → Type 0
Loop t id run p xs none = run ≡ ok (t, none)
Loop t id run p xs (some c) =
    (g : ℕ → Node) × (run ≡ ok (taken t g, some c)) × Unlinked t.id.cell g c (p ∷ xs)

-- The cell after `p` is the one: `p` is linked past it.
cut : (ℕ → Node) → ℕ → ℕ → ℕ → Node
cut f p c = update (update f p (record { id = (f p).id; next = (f c).next })) c empty_node

cut-Unlinked :
    (f : ℕ → Node) (p c : ℕ) (xs : List ℕ)
    → Distinct (p ∷ c ∷ xs)
    → Nexts f (p ∷ c ∷ xs)
    → Unlinked f (cut f p c) c (p ∷ c ∷ xs)
unfolding cut
cut-Unlinked f p c xs d n = record {
  nexts =
      let kept = Nexts-same {f = f} {g = cut f p c} xs (λ i m. ground arith) n.1.1 in
      ground (arith, kept);
  emptied = ground arith;
  ids = λ i ne. ground arith;
  outside = λ i m. ground arith;
}

-- The loop past a node `c` that is not the one looked for.
Loop-cons :
    (t : HashId) (id p c : ℕ) (xs : List ℕ) (run : Run (HashId × Option ℕ)) (r : Option ℕ)
    → Distinct (p ∷ c ∷ xs)
    → Nexts t.id.cell (p ∷ c ∷ xs)
    → ((e : ℕ) → r ≡ some e → has e xs ≡ true)
    → Loop t id run c xs r
    → Loop t id run p (c ∷ xs) r
Loop-cons t id p c xs run none d n inside l = l
Loop-cons t id p c xs run (some e) d n inside (g, stops, u) =
    let m = inside e refl in
    let apart : (e == p) ≡ false = ground arith in
    let kept : g p ≡ t.id.cell p = u.outside p (ground arith) in
    (
      g,
      stops,
      record {
        nexts = rw apart (ground arith, u.nexts);
        emptied = u.emptied;
        ids = u.ids;
        outside = λ i o. u.outside i (ground arith);
      },
    )

module _ (k : ℕ) (t : HashId) (id p c : ℕ) (in_p : p < t.id.len) (in_c : c < t.id.len)
    (next : (t.id.cell p).next ≡ some c) where
  unlink-hit :
      (t.id.cell c).id ≡ id → unlink (suc k) t id p ≡ ok (taken t (cut t.id.cell p c), some c)
  unfolding unlink release cut
  unlink-hit hit =
      let same : ((t.id.cell c).id == id) ≡ true = ground arith in
      rw
        (
          get-ok t.id p in_p,
          next,
          get-ok t.id c in_c,
          same,
          put-ok t.id p (record { id = (t.id.cell p).id; next = (t.id.cell c).next }) in_p,
        )
        (rw (
          put-ok (written t.id p (record { id = (t.id.cell p).id; next = (t.id.cell c).next })) c
            empty_node in_c))

  unlink-miss : (t.id.cell c).id ≢ id → unlink (suc k) t id p ≡ unlink k t id c
  unfolding unlink
  unlink-miss other =
      rw (get-ok t.id p in_p, next, get-ok t.id c in_c, ==_ne (t.id.cell c).id id other)

pub unlink-Loop :
    (k : ℕ) (t : HashId) (id p : ℕ) (xs : List ℕ)
    → length xs < k
    → Distinct (p ∷ xs)
    → Nexts t.id.cell (p ∷ xs)
    → ((i : ℕ) → has i (p ∷ xs) ≡ true → i < t.id.len)
    → Loop t id (unlink k t id p) p xs (first_with t.id.cell id xs)
unlink-Loop zero t id p xs fuel d n b = absurd (omega arith)
unlink-Loop (suc k) t id p [] fuel d n b =
    unfold unlink in rw (get-ok t.id p (b p (ground arith)), n.0) refl
unlink-Loop (suc k) t id p (c ∷ xs) fuel d n b =
    let in_p = b p (ground arith) in
    let in_c = b c (ground arith) in
    elim (==-cases (t.id.cell c).id id) [
      | inl hit ↦
          let same : ((t.id.cell c).id == id) ≡ true = ground arith in
          rw same (
            cut t.id.cell p c,
            unlink-hit k t id p c in_p in_c n.0 hit,
            cut-Unlinked t.id.cell p c xs d n,
          )
      | inr other ↦
          rw (==_ne _ _ other, unlink-miss k t id p c in_p in_c n.0 other)
            (Loop-cons t id p c xs (unlink k t id c) (first_with t.id.cell id xs) d n
              (λ e m. (first_with-some t.id.cell id e xs m).0)
              (unlink-Loop k t id c xs (omega arith) d.1 n.1 (λ i m. b i (ground arith))))
    ]
