-- ===== src/AdList/Link.antt =====
-- A list of adlist.h in two parts, and a node that is put between them.
use myprogram.Prelude.{
  ℕ, ◌≡◌, ◌≢◌, refl, sym, ◌∙◌, inl, inr, true, false, none, some, ◌∷◌, ◌++◌, arith, has, has-append,
  length, Distinct, Distinct-split, Distinct-join, ok, ==_ne, ==_refl, subst, Bool-cases,
}
use myprogram.AdList.{Heap, AdList, node, store, set_prev, set_next}
use myprogram.AdList.Chain.{Nodes, first, last_or, addresses, Represents}
use myprogram.AdList.Segment.{
  Segment, first_or, Chain-Segment, Segment-Chain, Segment-same, Segment-split, Segment-join,
  addresses-append, Only, set_prev-Segment, set_next-Segment,
}

pub record Parts (h : Heap) (ys zs : Nodes) : Type 0 where
  pub front : Segment h none ys (first_or none zs)
  pub back : Segment h (last_or none ys) zs none
  pub distinct_front : Distinct (addresses ys)
  pub distinct_back : Distinct (addresses zs)
  pub apart : (b : ℕ) → has b (addresses ys) ≡ true → has b (addresses zs) ≡ false

pub Represents-Parts :
    {h : Heap} {l : AdList} (ys zs : Nodes) → Represents h l (ys ++ zs) → Parts h ys zs
Represents-Parts {h} ys zs v =
    let (front, back) = Segment-split h none ys zs none (Chain-Segment h none (ys ++ zs) v.chain) in
    let (dy, dz, apart) =
      Distinct-split (addresses ys) (addresses zs)
        (subst Distinct (addresses-append ys zs) v.distinct) in
    record { front = front; back = back; distinct_front = dy; distinct_back = dz; apart = apart }

pub Parts-Represents :
    {h : Heap} (l : AdList) (ys zs : Nodes)
    → Parts h ys zs
    → l.head ≡ first (ys ++ zs)
    → l.tail ≡ last_or none (ys ++ zs)
    → l.len ≡ length (ys ++ zs)
    → Represents h l (ys ++ zs)
Parts-Represents {h} l ys zs p head tail len = record {
  chain = Segment-Chain h none (ys ++ zs) (Segment-join h none ys zs none p.front p.back);
  head = head;
  tail = tail;
  len = len;
  distinct =
      subst Distinct (sym (addresses-append ys zs))
        (Distinct-join (addresses ys) (addresses zs) p.distinct_front p.distinct_back p.apart);
}

-- An address of one part is not an address of the other.
pub out_of_front :
    {h : Heap} {ys zs : Nodes} (p : Parts h ys zs) (b : ℕ)
    → has b (addresses zs) ≡ true
    → has b (addresses ys) ≡ false
out_of_front {h} {ys} {zs} p b there = elim (Bool-cases (has b (addresses ys))) [
  | inl held ↦ absurd (cc (there, p.apart b held))
  | inr out ↦ out
]

-- The node `a` is stored with its two neighbours, which are then made to point to it.
pub put_between :
    {h : Heap} {ys zs : Nodes} (p : Parts h ys zs) (a v : ℕ)
    → has a (addresses ys) ≡ false
    → has a (addresses zs) ≡ false
    → (h1 : Heap) × (h2 : Heap) × (set_next
          (store h a (node (last_or none ys) (first_or none zs) v))
          (last_or none ys)
          (some a)
        ≡ ok h1)
      × (set_prev h1 (first_or none zs) (some a) ≡ ok h2)
      × Parts h2 ys ((a, v) ∷ zs)
      × Only h h2 (a ∷ addresses ys ++ addresses zs)
put_between {h} {ys} {zs} p a v out_ys out_zs =
    let new = node (last_or none ys) (first_or none zs) v in
    let h0 = store h a new in
    let other : (b : ℕ) → b ≢ a → h0 b ≡ h b = λ b ne. rw (==_ne b a ne) refl in
    let ne_ys : (b : ℕ) → has b (addresses ys) ≡ true → b ≢ a =
      λ b there e. cc (there, e, out_ys) in
    let ne_zs : (b : ℕ) → has b (addresses zs) ≡ true → b ≢ a =
      λ b there e. cc (there, e, out_zs) in
    let front0 =
      Segment-same {f = h} {g = h0} none ys (first_or none zs) (λ b there. other b (ne_ys b there))
        p.front in
    let (h1, run1, front1, only1) =
      set_next-Segment h0 none (first_or none zs) (some a) ys front0 p.distinct_front in
    let back1 =
      Segment-same {f = h} {g = h1} (last_or none ys) zs none
        (λ b there. only1 b (out_of_front p b there) ∙ other b (ne_zs b there)) p.back in
    let (h2, run2, back2, only2) =
      set_prev-Segment h1 (last_or none ys) (some a) none zs back1 p.distinct_back in
    let at : h2 a ≡ some new = only2 a out_zs ∙ only1 a out_ys ∙ rw (==_refl a) refl in
    (
      h1,
      h2,
      run1,
      run2,
      record {
        front =
            Segment-same {f = h1} {g = h2} none ys (some a) (λ b there. only2 b (p.apart b there))
              front1;
        back = (at, back2);
        distinct_front = p.distinct_front;
        distinct_back = (out_zs, p.distinct_back);
        apart = λ b there. ground (arith, p.apart b there, ne_ys b there);
      },
      λ b out.
          ground (arith, only2 b, only1 b, other b, has-append b (addresses ys) (addresses zs)),
    )
