-- ===== src/AdList/Copying.antt =====
-- The rounds of the loop of listDup of adlist.c.
use myprogram.Prelude.{
  ℕ, zero, suc, ◌<◌, ◌≡◌, refl, sym, ap, ◌∙◌, inl, inr, true, false, Option, none, some, [], ◌∷◌,
  ◌++◌, arith, has, length, append-nil, ok, subst, ==_ne, Option-cases,
}
use myprogram.AdList.{Heap, AdList, ListIter, node, start_head, list_next, list_add_node_tail}
use myprogram.AdList.Chain.{Nodes, first, addresses, Chain, Chain-same, Represents}
use myprogram.AdList.Search.{load-at}
use myprogram.AdList.Tail.{list_add_node_tail-AddedTail}
use myprogram.AdList.Copy.{value_copy, add_copy, give_up, dup_loop}
use myprogram.AdList.Copied.{
  IsFresh, Grown, Ends, in_use, give_up-Ends, has_snoc, Grown-snoc, Ends-step, no_memory,
}

abbrev iter_at : Option ℕ → ListIter
iter_at p = record { next = p; direction = start_head }

-- The node `c` is copied, or not.
round_failed :
    (k : ℕ) (malloc : Heap → Option ℕ) (h : Heap) (copy : AdList) (c u : ℕ) (p q : Option ℕ)
    → h c ≡ some (node p q u)
    → add_copy malloc h copy (value_copy copy.dup u) ≡ ok none
    → dup_loop (suc k) malloc h copy (iter_at (some c)) ≡ give_up h copy
unfolding dup_loop list_next
round_failed k malloc h copy c u p q at run =
    let load_c = load-at h c _ at in rw (load_c, load_c, run) refl

round_added :
    (k : ℕ) (malloc : Heap → Option ℕ) (h h' : Heap) (copy copy' : AdList) (c u : ℕ)
    (p q : Option ℕ)
    → h c ≡ some (node p q u)
    → add_copy malloc h copy (value_copy copy.dup u) ≡ ok (some (h', copy'))
    → dup_loop (suc k) malloc h copy (iter_at (some c)) ≡ dup_loop k malloc h' copy' (iter_at q)
unfolding dup_loop list_next
round_added k malloc h h' copy copy' c u p q at run =
    let load_c = load-at h c _ at in rw (load_c, load_c, run) refl

pub dup_loop-Ends :
    (k : ℕ) (malloc : Heap → Option ℕ) (d : Option (ℕ → Option ℕ)) (h0 h : Heap) (copy : AdList)
    (p : Option ℕ) (ys zs : Nodes)
    → IsFresh malloc
    → Represents h copy ys
    → copy.dup ≡ d
    → Chain h p zs
    → Grown h0 h (addresses ys)
    → ((b : ℕ) → has b (addresses zs) ≡ true → has b (addresses ys) ≡ false)
    → length zs < k
    → Ends malloc d h0 ys zs (dup_loop k malloc h copy (iter_at (first zs)))
unfolding dup_loop list_next add_copy
dup_loop-Ends zero malloc d h0 h copy p ys zs ok_malloc r same c grown apart fuel =
    absurd (omega arith)
dup_loop-Ends (suc k) malloc d h0 h copy p ys [] ok_malloc r same c grown apart fuel = (
  h,
  some copy,
  [],
  refl,
  (
    [],
    subst (Represents h copy) (sym (append-nil ys)) r,
    tt,
    subst (λ t. Grown h0 h (addresses t)) (sym (append-nil ys)) grown,
  ),
)
dup_loop-Ends (suc k) malloc d h0 h copy p ys ((c, u) ∷ zs) ok_malloc r same ch grown apart fuel =
    elim (Option-cases (value_copy d u)) [
      | inl e ↦
          let bad : add_copy malloc h copy (value_copy copy.dup u) ≡ ok none =
            ap (λ q. add_copy malloc h copy (value_copy q u)) same
            ∙ ap (add_copy malloc h copy) e in
          subst (Ends malloc d h0 ys ((c, u) ∷ zs))
            (sym (round_failed k malloc h copy c u p (first zs) ch.0 bad))
            (give_up-Ends malloc d h0 h copy ys c u zs r grown (inl e))
      | inr (v, e) ↦
          let good : add_copy malloc h copy (value_copy copy.dup u)
              ≡ list_add_node_tail malloc h copy v =
            ap (λ q. add_copy malloc h copy (value_copy q u)) same
            ∙ ap (add_copy malloc h copy) e in
          elim (Option-cases (malloc h)) [
            | inl m ↦
                subst (Ends malloc d h0 ys ((c, u) ∷ zs))
                  (sym (
                    round_failed k malloc h copy c u p (first zs) ch.0
                      (good ∙ no_memory malloc h copy v m)))
                  (give_up-Ends malloc d h0 h copy ys c u zs r grown (inr (v, e, m)))
            | inr (a, m) ↦
                let new = ok_malloc h a m in
                let out_ys = in_use h none ys a r.chain new in
                let out_zs = in_use h (some c) zs a ch.1 new in
                let (h', copy', run, dup', r', only) =
                  list_add_node_tail-AddedTail malloc h copy a v ys r m out_ys in
                let ys' = ys ++ (a, v) ∷ [] in
                let still : (b : ℕ) → has b (addresses zs) ≡ true → has b (addresses ys') ≡ false =
                  λ b there.
                    has_snoc b a v ys
                    ∙ rw (apart b (ground (arith, there)), ==_ne b a (λ q. cc (q, there, out_zs)))
                        refl in
                let rest =
                  Chain-same {f = h} {g = h'} (some c) zs
                    (λ b there. only b (
                      rw (==_ne b a (λ q. cc (q, there, out_zs)), apart b (ground (arith, there)))
                        refl))
                    ch.1 in
                subst (Ends malloc d h0 ys ((c, u) ∷ zs))
                  (sym (round_added k malloc h h' copy copy' c u p (first zs) ch.0 (good ∙ run)))
                  (Ends-step malloc d h0 ys c u a v zs _ e (
                    dup_loop-Ends k malloc d h0 h' copy' (some c) ys' zs ok_malloc r' (dup' ∙ same)
                      rest (Grown-snoc h0 h h' a v ys grown new out_ys only) still (omega arith)))
          ]
    ]
