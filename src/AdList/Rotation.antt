-- ===== src/AdList/Rotation.antt =====
-- listRotate of adlist.c.
use myprogram.Prelude.{
  ℕ, suc, ◌≡◌, refl, sym, ap, ◌∙◌, true, false, none, some, [], ◌∷◌, ◌++◌, arith, leb, has, length,
  length-append, ok, subst, ==_refl, ==_ne,
}
use myprogram.AdList.{Heap, AdList, node, load, store, set_next, list_rotate}
use myprogram.AdList.Chain.{Nodes, addresses, Represents}
use myprogram.AdList.Search.{load-at}
use myprogram.AdList.Segment.{Segment-same, last_or-append, set_prev-Segment, set_next-Segment}
use myprogram.AdList.Link.{Parts, Represents-Parts, Parts-Represents, out_of_front}
use myprogram.AdList.Ends.{last_or-some, set_next-store, set_prev-store}

abbrev pub Rotated : Heap → AdList → Nodes → ℕ → ℕ → Type 0
Rotated h l ys t v =
    (h' : Heap) × (l' : AdList) × (list_rotate h l ≡ ok (h', l'))
    × Represents h' l' ((t, v) ∷ ys)
    × (l'.len ≡ l.len)

leb_many : (n k : ℕ) → n ≡ suc (suc k) → leb n 1 ≡ false
leb_many n k e = ground (arith, e)

rotate-many :
    {h : Heap} {l : AdList} (b w : ℕ) (xs : Nodes) (t v : ℕ)
    → Represents h l ((b, w) ∷ xs ++ (t, v) ∷ [])
    → Rotated h l ((b, w) ∷ xs) t v
unfolding list_rotate
rotate-many {h} {l} b w xs t v r =
    let ys = (b, w) ∷ xs in
    let p = Represents-Parts ys ((t, v) ∷ []) r in
    let (e, last, _) = last_or-some b xs in
    let out : has t (addresses ys) ≡ false = out_of_front p t (rw (==_refl t) refl) in
    let (h1, run1, front1, only1) =
      set_next-Segment h none (some t) none ys p.front p.distinct_front in
    let (m, at_e, stored1) =
      set_next-store h e none h1 (subst (λ q. set_next h q none ≡ ok h1) last run1) in
    let new = node none (some b) v in
    let h2 = store h1 t new in
    let other : (c : ℕ) → has c (addresses ys) ≡ true → h2 c ≡ h1 c =
      λ c there. rw (==_ne c t (λ q. cc (there, q, out))) refl in
    let front2 = Segment-same {f = h1} {g = h2} none ys none other front1 in
    let (h3, run3, front3, only3) =
      set_prev-Segment h2 none (some t) none ys front2 p.distinct_front in
    let (n, at_b, stored3) = set_prev-store h2 b (some t) h3 run3 in
    let l' = record l { head = some t; tail = some e } in
    let many : leb l.len 1 ≡ false =
      leb_many l.len (length xs) (omega (arith, r.len, length-append xs ((t, v) ∷ []))) in
    let end : l.tail ≡ some t = r.tail ∙ last_or-append none ys ((t, v) ∷ []) in
    let at_t : load h (some t) ≡ ok (t, node (some e) none v) =
      load-at h t _ (p.back.0 ∙ ap (λ q. some (node q none v)) last) in
    let at_t1 : load h1 (some t) ≡ ok (t, node (some e) none v) =
      load-at h1 t _ (only1 t out ∙ p.back.0 ∙ ap (λ q. some (node q none v)) last) in
    let turned : Parts h3 [] ((t, v) ∷ ys) = record {
      front = tt;
      back = (only3 t out ∙ rw (==_refl t) refl, front3);
      distinct_front = tt;
      distinct_back = (out, p.distinct_front);
      apart = λ c there. ground (arith, there);
    } in
    (
      h3,
      l',
      rw (many, end, at_t, at_e, sym stored1, at_t1, r.head, at_b, sym stored3, list_rotate) refl,
      Parts-Represents l' [] ((t, v) ∷ ys) turned refl (sym last)
          (omega (arith, r.len, length-append xs ((t, v) ∷ []))),
      refl,
    )

-- listRotate of a list that is not empty: the last node comes first, with both pointers of every
-- node and both ends right, and the length stays.
pub list_rotate-Rotated :
    (h : Heap) (l : AdList) (ys : Nodes) (t v : ℕ)
    → Represents h l (ys ++ (t, v) ∷ [])
    → Rotated h l ys t v
unfolding list_rotate
list_rotate-Rotated h l [] t v r =
    let single : leb l.len 1 ≡ true = ground (arith, r.len) in
    (h, l, rw (single, list_rotate) refl, r, refl)
list_rotate-Rotated h l ((b, w) ∷ xs) t v r = rotate-many b w xs t v r
