-- ===== src/AdList/Removal.antt =====
-- listDelNode of adlist.c.
use myprogram.Prelude.{
  ℕ, ◌-◌, ◌≡◌, ◌≢◌, refl, sym, ap, ◌∙◌, Bool, true, false, ◌||◌, none, some, [], ◌∷◌, ◌++◌, arith,
  has, has-append, length-append, ◌==◌, ok, update, ==_refl, ==_ne, ne_of_==,
}
use myprogram.AdList.{Heap, AdList, or_else, freed, list_del_node}
use myprogram.AdList.Chain.{Nodes, last_or, addresses, Represents}
use myprogram.AdList.Search.{load-at}
use myprogram.AdList.Segment.{
  Segment-same, first_or, addresses-append, Only, set_prev-Segment, set_next-Segment,
}
use myprogram.AdList.Link.{Parts, Represents-Parts, Parts-Represents, out_of_front}
use myprogram.AdList.Ends.{end_without_front, end_without_back}

abbrev pub Deleted : Heap → AdList → Nodes → ℕ → ℕ → Nodes → Type 0
Deleted h l ys a v zs =
    (h' : Heap) × (l' : AdList) × (list_del_node h l a ≡ ok (h', l', freed l v []))
    × Represents h' l' (ys ++ zs)
    × (h' a ≡ none)
    × Only h h' (addresses (ys ++ (a, v) ∷ zs))

three_false : (x y z : Bool) → (x || (y || z)) ≡ false → (x ≡ false) × (y ≡ false) × (z ≡ false)
three_false x y z e = ground (arith, e)

-- Outside the list nothing changes.
Only-rest :
    {h h1 h2 h' : Heap} (b a v : ℕ) (ys zs : Nodes)
    → ((c : ℕ) → c ≢ a → h' c ≡ h2 c)
    → Only h h1 (addresses ys)
    → Only h1 h2 (addresses zs)
    → has b (addresses (ys ++ (a, v) ∷ zs)) ≡ false
    → h' b ≡ h b
Only-rest b a v ys zs kept only1 only2 out =
    let both =
      sym (has-append b (addresses ys) (a ∷ addresses zs))
      ∙ ap (has b) (sym (addresses-append ys ((a, v) ∷ zs)))
      ∙ out in
    let (out_ys, ne, out_zs) =
      three_false (has b (addresses ys)) (b == a) (has b (addresses zs)) both in
    kept b (ne_of_== b a ne) ∙ only2 b out_zs ∙ only1 b out_ys

-- listDelNode of a node of the list: its two neighbours are joined, with both ends and the length
-- right; the node is freed, its value too if the list has a method for that, and nothing else on
-- the heap changes.
pub list_del_node-Deleted :
    (h : Heap) (l : AdList) (ys : Nodes) (a v : ℕ) (zs : Nodes)
    → Represents h l (ys ++ (a, v) ∷ zs)
    → Deleted h l ys a v zs
unfolding list_del_node
list_del_node-Deleted h l ys a v zs r =
    let p = Represents-Parts ys ((a, v) ∷ zs) r in
    let out_ys : has a (addresses ys) ≡ false = out_of_front p a (rw (==_refl a) refl) in
    let out_zs : has a (addresses zs) ≡ false = p.distinct_back.0 in
    let apart : (b : ℕ) → has b (addresses ys) ≡ true → has b (addresses zs) ≡ false =
      λ b there. ground (arith, p.apart b there) in
    let (h1, run1, front1, only1) =
      set_next-Segment h none (some a) (first_or none zs) ys p.front p.distinct_front in
    let back1 =
      Segment-same {f = h} {g = h1} (some a) zs none
        (λ b there. only1 b (out_of_front p b (ground arith))) p.back.1 in
    let (h2, run2, back2, only2) =
      set_prev-Segment h1 (some a) (last_or none ys) none zs back1 p.distinct_back.1 in
    let h' = update h2 a none in
    let kept : (b : ℕ) → b ≢ a → h' b ≡ h2 b = λ b ne. rw (==_ne b a ne) refl in
    let joined : Parts h' ys zs = record {
      front =
          Segment-same {f = h1} {g = h'} none ys (first_or none zs)
            (λ b there. kept b (λ e. cc (there, e, out_ys)) ∙ only2 b (apart b there)) front1;
      back =
          Segment-same {f = h2} {g = h'} (last_or none ys) zs none
            (λ b there. kept b (λ e. cc (there, e, out_zs))) back2;
      distinct_front = p.distinct_front;
      distinct_back = p.distinct_back.1;
      apart = apart;
    } in
    let l' = record l {
      head = or_else (last_or none ys) (first_or none zs) l.head;
      tail = or_else (first_or none zs) (last_or none ys) l.tail;
      len = l.len - 1;
    } in
    (
      h',
      l',
      rw (load-at h a _ p.back.0, run1, run2, list_del_node) refl,
      Parts-Represents l' ys zs joined
          (ap (or_else (last_or none ys) (first_or none zs)) r.head ∙ end_without_front a v ys zs)
          (ap (or_else (first_or none zs) (last_or none ys)) r.tail ∙ end_without_back a v ys zs)
          (omega (arith, r.len, length-append ys ((a, v) ∷ zs), length-append ys zs)),
      rw (==_refl a) refl,
      λ b out. Only-rest b a v ys zs kept only1 only2 out,
    )
