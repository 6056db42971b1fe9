-- ===== src/AdList/Copied.antt =====
-- The loop of listDup of adlist.c.
use myprogram.Prelude.{
  ℕ, ◌≡◌, ◌⊎◌, refl, sym, ap, ◌∙◌, inl, inr, Bool, true, false, ◌||◌, Option, none, some, List, [],
  ◌∷◌, ◌++◌, arith, has, has-append, append_assoc, append-nil, ◌==◌, if◌then◌else◌, ok, Run, subst,
  ==_ne, eq_of_==, Bool-cases,
}
use myprogram.AdList.{Heap, AdList, list_add_node_tail}
use myprogram.AdList.Chain.{Nodes, addresses, Chain, Represents}
use myprogram.AdList.Segment.{addresses-append, Only}
use myprogram.AdList.Release.{list_release-Emptied, freed_all}
use myprogram.AdList.Copy.{value_copy, give_up}

-- malloc hands out addresses that are not in use.
abbrev pub IsFresh : (Heap → Option ℕ) → Type 0
IsFresh malloc = (g : Heap) (a : ℕ) → malloc g ≡ some a → g a ≡ none

abbrev pub Copies : Option (ℕ → Option ℕ) → Nodes → Nodes → Type 0
Copies d [] [] = Unit {0}
Copies d ((_, v) ∷ xs) ((_, w) ∷ ys) = (value_copy d v ≡ some w) × Copies d xs ys
Copies d _ _ = ⊥

-- The heap has come to differ in nodes that were free before.
abbrev pub Grown : Heap → Heap → List ℕ → Type 0
Grown h h' near =
    ((b : ℕ) → has b near ≡ false → h' b ≡ h b) × ((b : ℕ) → has b near ≡ true → h b ≡ none)

-- The value `v` has no copy, or there is no memory for it on the heap `g`.
abbrev pub Lacks : (Heap → Option ℕ) → Option (ℕ → Option ℕ) → Heap → ℕ → Type 0
Lacks malloc d g v =
    (value_copy d v ≡ none) ⊎ ((w : ℕ) × (value_copy d v ≡ some w) × (malloc g ≡ none))

-- Why there is no copy of `zs` behind the nodes `ys`: once the nodes in front of one of them had
-- been copied, that one was not.
abbrev pub Reason : (Heap → Option ℕ) → Option (ℕ → Option ℕ) → Heap → Nodes → Nodes → Type 0
Reason malloc d h0 ys zs =
    (pre : Nodes) × (c : ℕ) × (v : ℕ) × (rest : Nodes) × (ws : Nodes) × (g : Heap) × (copy : AdList)
    × (zs ≡ pre ++ (c, v) ∷ rest)
    × Copies d pre ws
    × Represents g copy (ys ++ ws)
    × Grown h0 g (addresses (ys ++ ws))
    × Lacks malloc d g v

-- The copy of `zs` behind the nodes `ys`, or none.
abbrev pub Ended :
    (Heap → Option ℕ) → Option (ℕ → Option ℕ) → Heap → Heap → Nodes → Nodes → Option AdList → Type 0
Ended malloc d h0 h' ys zs none = ((b : ℕ) → h' b ≡ h0 b) × Reason malloc d h0 ys zs
Ended malloc d h0 h' ys zs (some copy) =
    (ws : Nodes) × Represents h' copy (ys ++ ws)
    × Copies d zs ws
    × Grown h0 h' (addresses (ys ++ ws))

abbrev pub Ends :
    (Heap → Option ℕ)
    → Option (ℕ → Option ℕ)
    → Heap
    → Nodes
    → Nodes
    → Run (Heap × Option AdList × List ℕ)
    → Type 0
Ends malloc d h0 ys zs run =
    (h' : Heap) × (r : Option AdList) × (vs : List ℕ) × (run ≡ ok (h', r, vs))
    × Ended malloc d h0 h' ys zs r

-- A node of a list is not free.
pub in_use :
    (h : Heap) (p : Option ℕ) (xs : Nodes) (a : ℕ)
    → Chain h p xs
    → h a ≡ none
    → has a (addresses xs) ≡ false
in_use h p [] a c free = refl
in_use h p ((b, v) ∷ xs) a c free =
    let rest = in_use h (some b) xs a c.1 free in
    let ne : (a == b) ≡ false = ==_ne a b (λ e. cc (e, free, c.0)) in rw (ne, rest) refl

pub give_up-Ends :
    (malloc : Heap → Option ℕ) (d : Option (ℕ → Option ℕ)) (h0 h : Heap) (copy : AdList)
    (ys : Nodes) (c v : ℕ) (zs : Nodes)
    → Represents h copy ys
    → Grown h0 h (addresses ys)
    → Lacks malloc d h v
    → Ends malloc d h0 ys ((c, v) ∷ zs) (give_up h copy)
unfolding give_up
give_up-Ends malloc d h0 h copy ys c v zs r (kept, free) lack =
    let (h', run, gone) = list_release-Emptied h copy ys r in
    (
      h',
      none,
      freed_all copy ys,
      rw run refl,
      (
        λ b. elim (Bool-cases (has b (addresses ys))) [
          | inl e ↦ gone b ∙ ap (λ t. if t then none else h b) e ∙ sym (free b e)
          | inr e ↦ gone b ∙ ap (λ t. if t then none else h b) e ∙ kept b e
        ],
        (
          [],
          c,
          v,
          zs,
          [],
          h,
          copy,
          refl,
          tt,
          subst (Represents h copy) (sym (append-nil ys)) r,
          subst (λ t. Grown h0 h (addresses t)) (sym (append-nil ys)) (kept, free),
          lack,
        ),
      ),
    )

pub has_snoc :
    (b a v : ℕ) (ys : Nodes)
    → has b (addresses (ys ++ (a, v) ∷ [])) ≡ (has b (addresses ys) || (b == a || false))
has_snoc b a v ys =
    ap (has b) (addresses-append ys ((a, v) ∷ [])) ∙ has-append b (addresses ys) (a ∷ [])

or_false : (x y : Bool) → (x || (y || false)) ≡ false → (x ≡ false) × (y ≡ false)
or_false x y e = ground (arith, e)

or_true : (x y : Bool) → x ≡ false → (x || (y || false)) ≡ true → y ≡ true
or_true x y o e = ground (arith, o, e)

-- A new node behind those of the copy.
pub Grown-snoc :
    (h0 h h' : Heap) (a v : ℕ) (ys : Nodes)
    → Grown h0 h (addresses ys)
    → h a ≡ none
    → has a (addresses ys) ≡ false
    → Only h h' (a ∷ addresses ys)
    → Grown h0 h' (addresses (ys ++ (a, v) ∷ []))
Grown-snoc h0 h h' a v ys (kept, free) new out only = (
  λ b o.
      let (b_ys, b_a) = or_false _ _ (sym (has_snoc b a v ys) ∙ o) in
      only b (rw (b_a, b_ys) refl) ∙ kept b b_ys,
  λ b there. elim (Bool-cases (has b (addresses ys))) [
    | inl e ↦ free b e
    | inr e ↦
        let at : (b == a) ≡ true = or_true _ _ e (sym (has_snoc b a v ys) ∙ there) in
        ap h0 (eq_of_== b a at) ∙ sym (kept a out) ∙ new
  ],
)

-- One more node has been copied.
pub Ends-step :
    (malloc : Heap → Option ℕ) (d : Option (ℕ → Option ℕ)) (h0 : Heap) (ys : Nodes) (c u a v : ℕ)
    (zs : Nodes) (run : Run (Heap × Option AdList × List ℕ))
    → value_copy d u ≡ some v
    → Ends malloc d h0 (ys ++ (a, v) ∷ []) zs run
    → Ends malloc d h0 ys ((c, u) ∷ zs) run
Ends-step malloc d h0 ys c u a v zs run e
      (h', none, vs, out, (back, (pre, c', v', rest, ws, g, copy, split, copies, r, grown, lack))) =
    let assoc : (ys ++ (a, v) ∷ []) ++ ws ≡ ys ++ (a, v) ∷ ws = append_assoc ys ((a, v) ∷ []) ws in
    (
      h',
      none,
      vs,
      out,
      (
        back,
        (
          (c, u) ∷ pre,
          c',
          v',
          rest,
          (a, v) ∷ ws,
          g,
          copy,
          ap (λ (t : Nodes). (c, u) ∷ t) split,
          (e, copies),
          subst (Represents g copy) assoc r,
          subst (λ t. Grown h0 g (addresses t)) assoc grown,
          lack,
        ),
      ),
    )
Ends-step malloc d h0 ys c u a v zs run e (h', some copy, vs, out, (ws, r, copies, grown)) =
    let assoc : (ys ++ (a, v) ∷ []) ++ ws ≡ ys ++ (a, v) ∷ ws = append_assoc ys ((a, v) ∷ []) ws in
    (
      h',
      some copy,
      vs,
      out,
      (
        (a, v) ∷ ws,
        subst (Represents h' copy) assoc r,
        (e, copies),
        subst (λ t. Grown h0 h' (addresses t)) assoc grown,
      ),
    )

pub no_memory :
    (malloc : Heap → Option ℕ) (h : Heap) (l : AdList) (v : ℕ)
    → malloc h ≡ none
    → list_add_node_tail malloc h l v ≡ ok none
unfolding list_add_node_tail
no_memory malloc h l v m = rw (m, list_add_node_tail) refl
