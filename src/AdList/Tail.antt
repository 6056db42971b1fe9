-- ===== src/AdList/Tail.antt =====
-- listAddNodeTail of adlist.c.
use myprogram.Prelude.{
  ℕ, ◌+◌, ◌≡◌, refl, sym, ap, ◌∙◌, true, false, Option, none, some, [], ◌∷◌, ◌++◌, arith, has,
  length-append, append-nil, ◌==◌, ok, subst, ==_ne,
}
use myprogram.AdList.{Heap, AdList, node, store, set_prev, set_next, list_add_node_tail}
use myprogram.AdList.Chain.{Nodes, addresses, Represents}
use myprogram.AdList.Segment.{last_or-append, Only}
use myprogram.AdList.Link.{Represents-Parts, Parts-Represents, put_between}
use myprogram.AdList.Ends.{last_or-some, set_next-store}
use myprogram.AdList.Insertion.{Only-append}

abbrev pub AddedTail : (Heap → Option ℕ) → Heap → AdList → ℕ → ℕ → Nodes → Type 0
AddedTail malloc h l a v xs =
    (h' : Heap) × (l' : AdList) × (list_add_node_tail malloc h l v ≡ ok (some (h', l')))
    × (l'.dup ≡ l.dup)
    × Represents h' l' (xs ++ (a, v) ∷ [])
    × Only h h' (a ∷ addresses xs)

add-behind :
    (malloc : Heap → Option ℕ) {h : Heap} {l : AdList} (a v b w : ℕ) (xs : Nodes)
    → Represents h l ((b, w) ∷ xs)
    → malloc h ≡ some a
    → has a (addresses ((b, w) ∷ xs)) ≡ false
    → AddedTail malloc h l a v ((b, w) ∷ xs)
unfolding list_add_node_tail set_prev
add-behind malloc {h} {l} a v b w xs r m fresh =
    let front = (b, w) ∷ xs in
    let (t, last, there) = last_or-some b xs in
    let same : front ++ [] ≡ front = append-nil front in
    let p = Represents-Parts front [] (subst (Represents h l) (sym same) r) in
    let (h1, h2, run1, run2, p2, only) = put_between p a v fresh refl in
    let run1' : set_next (store h a (node (some t) none v)) (some t) (some a) ≡ ok h1 =
      subst (λ q. set_next (store h a (node q none v)) q (some a) ≡ ok h1) last run1 in
    let (n, at, stored) = set_next-store (store h a (node (some t) none v)) t (some a) h1 run1' in
    let same2 : h1 ≡ h2 = cc run2 in
    let end : l.tail ≡ some t = r.tail ∙ last in
    let filled : (l.len == 0) ≡ false = ==_ne l.len 0 (λ e. omega (arith, e, r.len)) in
    let l' = record l { tail = some a; len = l.len + 1 } in
    (
      h2,
      l',
      rw (m, filled, end, at, list_add_node_tail)
          (ap (λ g. ok (some (g, l'))) (sym stored ∙ same2)),
      refl,
      Parts-Represents l' front ((a, v) ∷ []) p2 r.head
          (sym (last_or-append none front ((a, v) ∷ [])))
          (omega (arith, r.len, length-append front ((a, v) ∷ []))),
      subst (λ c. Only h h2 (a ∷ addresses c)) same (Only-append h h2 a front [] only),
    )

add_first :
    (malloc : Heap → Option ℕ) {h : Heap} {l : AdList} (a v : ℕ)
    → Represents h l []
    → malloc h ≡ some a
    → AddedTail malloc h l a v []
unfolding list_add_node_tail
add_first malloc {h} {l} a v r m =
    let empty : (l.len == 0) ≡ true = ground (arith, r.len) in
    (
      store h a (node none none v),
      record l { head = some a; tail = some a; len = l.len + 1 },
      rw (m, empty, list_add_node_tail) refl,
      refl,
      record {
        chain = (ground arith, tt);
        head = refl;
        tail = refl;
        len = omega (arith, r.len);
        distinct = (refl, tt);
      },
      λ b out. ground arith,
    )

-- listAddNodeTail with memory for a node at an address that the list does not use: the value comes
-- behind those that were there, with both pointers of every node, both ends and the length right,
-- and nothing else on the heap changes.
pub list_add_node_tail-AddedTail :
    (malloc : Heap → Option ℕ) (h : Heap) (l : AdList) (a v : ℕ) (xs : Nodes)
    → Represents h l xs
    → malloc h ≡ some a
    → has a (addresses xs) ≡ false
    → AddedTail malloc h l a v xs
list_add_node_tail-AddedTail malloc h l a v [] r m fresh = add_first malloc a v r m
list_add_node_tail-AddedTail malloc h l a v ((b, w) ∷ xs) r m fresh =
    add-behind malloc a v b w xs r m fresh
