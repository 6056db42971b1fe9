-- ===== src/AdList/Insertion.antt =====
-- listInsertNode of adlist.c.
use myprogram.Prelude.{
  ℕ, ◌+◌, ◌≡◌, refl, sym, ap, ◌∙◌, Bool, true, false, Option, none, some, [], ◌∷◌, ◌++◌, arith, has,
  has-append, length-append, append_assoc, if◌then◌else◌, ok, subst,
}
use myprogram.AdList.{Heap, AdList, node, store, set_next, points, list_insert_node}
use myprogram.AdList.Chain.{Nodes, first, last_or, addresses, Represents}
use myprogram.AdList.Search.{load-at}
use myprogram.AdList.Segment.{first_or, last_or-append, addresses-append, Only}
use myprogram.AdList.Link.{Represents-Parts, Parts-Represents, put_between, out_of_front}
use myprogram.AdList.Ends.{first-append, end_after, end_before}

-- The nodes with a new one behind or in front of `old`.
abbrev pub inserted : Nodes → ℕ → ℕ → ℕ → ℕ → Nodes → Bool → Nodes
inserted ys old w a v zs true = (ys ++ (old, w) ∷ []) ++ (a, v) ∷ zs
inserted ys old w a v zs false = ys ++ (a, v) ∷ (old, w) ∷ zs

abbrev pub Inserted :
    (Heap → Option ℕ) → Heap → AdList → Nodes → ℕ → ℕ → ℕ → ℕ → Nodes → Bool → Type 0
Inserted malloc h l ys old w a v zs after =
    (h' : Heap) × (l' : AdList) × (list_insert_node malloc h l old v after ≡ ok (some (h', l')))
    × Represents h' l' (inserted ys old w a v zs after)
    × Only h h' (a ∷ addresses (ys ++ (old, w) ∷ zs))

-- The address of the new node is in neither part.
pub fresh_parts :
    (a : ℕ) (ys zs : Nodes)
    → has a (addresses (ys ++ zs)) ≡ false
    → (has a (addresses ys) ≡ false) × (has a (addresses zs) ≡ false)
fresh_parts a ys zs out =
    let both =
      sym (has-append a (addresses ys) (addresses zs))
      ∙ ap (has a) (sym (addresses-append ys zs))
      ∙ out in
    ground (arith, both)

pub Only-append :
    (h h' : Heap) (a : ℕ) (ys zs : Nodes)
    → Only h h' (a ∷ addresses ys ++ addresses zs)
    → Only h h' (a ∷ addresses (ys ++ zs))
Only-append h h' a ys zs = subst (λ near. Only h h' (a ∷ near)) (sym (addresses-append ys zs))

insert-after :
    (malloc : Heap → Option ℕ) {h : Heap} {l : AdList} (ys : Nodes) (old w a v : ℕ) (zs : Nodes)
    → Represents h l (ys ++ (old, w) ∷ zs)
    → malloc h ≡ some a
    → has a (addresses (ys ++ (old, w) ∷ zs)) ≡ false
    → Inserted malloc h l ys old w a v zs true
unfolding list_insert_node
insert-after malloc {h} {l} ys old w a v zs r m fresh =
    let front = ys ++ (old, w) ∷ [] in
    let assoc : front ++ zs ≡ ys ++ (old, w) ∷ zs = append_assoc ys ((old, w) ∷ []) zs in
    let r' = subst (Represents h l) (sym assoc) r in
    let fresh' = fresh_parts a front zs (ap (λ t. has a (addresses t)) assoc ∙ fresh) in
    let (h1, h2, run1, run2, p2, only) =
      put_between (Represents-Parts front zs r') a v fresh'.0 fresh'.1 in
    let p = Represents-Parts ys ((old, w) ∷ zs) r in
    let last : last_or none front ≡ some old = last_or-append none ys ((old, w) ∷ []) in
    let run1' : set_next (store h a (node (some old) (first_or none zs) v)) (some old) (some a)
        ≡ ok h1 =
      subst (λ q. set_next (store h a (node q (first_or none zs) v)) q (some a) ≡ ok h1) last
        run1 in
    let tail = if points l.tail old then some a else l.tail in
    let l' = record l { tail = tail; len = l.len + 1 } in
    let end : l.tail ≡ last_or (some old) zs = r.tail ∙ last_or-append none ys ((old, w) ∷ zs) in
    let tail' : tail ≡ last_or none (front ++ (a, v) ∷ zs) =
      ap (λ q. if points q old then some a else q) end
      ∙ end_after old a zs p.distinct_back.0
      ∙ sym (last_or-append none front ((a, v) ∷ zs)) in
    let head' : l.head ≡ first (front ++ (a, v) ∷ zs) =
      r.head
      ∙ first-append ys ((old, w) ∷ zs)
      ∙ sym (first-append ys ((old, w) ∷ (a, v) ∷ zs))
      ∙ ap first (sym (append_assoc ys ((old, w) ∷ []) ((a, v) ∷ zs))) in
    (
      h2,
      l',
      rw (m, load-at h old _ p.back.0, run1', run2, list_insert_node) refl,
      Parts-Represents l' front ((a, v) ∷ zs) p2 head' tail' (
          omega (
            arith,
            r.len,
            length-append ys ((old, w) ∷ zs),
            length-append ys ((old, w) ∷ []),
            length-append front ((a, v) ∷ zs),
          )),
      subst (λ t. Only h h2 (a ∷ addresses t)) assoc (Only-append h h2 a front zs only),
    )

insert-before :
    (malloc : Heap → Option ℕ) {h : Heap} {l : AdList} (ys : Nodes) (old w a v : ℕ) (zs : Nodes)
    → Represents h l (ys ++ (old, w) ∷ zs)
    → malloc h ≡ some a
    → has a (addresses (ys ++ (old, w) ∷ zs)) ≡ false
    → Inserted malloc h l ys old w a v zs false
unfolding list_insert_node
insert-before malloc {h} {l} ys old w a v zs r m fresh =
    let back = (old, w) ∷ zs in
    let p = Represents-Parts ys back r in
    let fresh' = fresh_parts a ys back fresh in
    let (h1, h2, run1, run2, p2, only) = put_between p a v fresh'.0 fresh'.1 in
    let out : has old (addresses ys) ≡ false = out_of_front p old (ground arith) in
    let head = if points l.head old then some a else l.head in
    let l' = record l { head = head; len = l.len + 1 } in
    let head' : head ≡ first (ys ++ (a, v) ∷ back) =
      ap (λ q. if points q old then some a else q) r.head ∙ end_before old w a v ys zs out in
    let tail' : l.tail ≡ last_or none (ys ++ (a, v) ∷ back) =
      r.tail ∙ last_or-append none ys back ∙ sym (last_or-append none ys ((a, v) ∷ back)) in
    (
      h2,
      l',
      rw (m, load-at h old _ p.back.0, run1, run2, list_insert_node) refl,
      Parts-Represents l' ys ((a, v) ∷ back) p2 head' tail'
          (omega (arith, r.len, length-append ys back, length-append ys ((a, v) ∷ back))),
      Only-append h h2 a ys back only,
    )

-- listInsertNode at a node of the list, with memory for one at an address that the list does not
-- use: the value comes right behind that node or right in front of it, as `after` says, with both
-- pointers of every node, both ends and the length right, and nothing else on the heap changes.
pub list_insert_node-Inserted :
    (malloc : Heap → Option ℕ) (h : Heap) (l : AdList) (ys : Nodes) (old w a v : ℕ) (zs : Nodes)
    (after : Bool)
    → Represents h l (ys ++ (old, w) ∷ zs)
    → malloc h ≡ some a
    → has a (addresses (ys ++ (old, w) ∷ zs)) ≡ false
    → Inserted malloc h l ys old w a v zs after
list_insert_node-Inserted malloc h l ys old w a v zs true r m fresh =
    insert-after malloc ys old w a v zs r m fresh
list_insert_node-Inserted malloc h l ys old w a v zs false r m fresh =
    insert-before malloc ys old w a v zs r m fresh
