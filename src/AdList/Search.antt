-- ===== src/AdList/Search.antt =====
-- listSearchKey of adlist.c.
use myprogram.Prelude.{
  ℕ, zero, suc, ◌<◌, ◌≡◌, refl, ap, ◌∙◌, inl, inr, Option, none, some, [], ◌∷◌, arith, length,
  if◌then◌else◌, ok, Bool-cases,
}
use myprogram.AdList.{
  Heap, ListNode, AdList, start_head, load, list_next, is_match, search_loop, list_search_key,
  list_get_iterator,
}
use myprogram.AdList.Chain.{Nodes, first, Chain, Represents}

-- The address of the first node whose value matches.
abbrev pub first_match : AdList → ℕ → Nodes → Option ℕ
first_match l key [] = none
first_match l key ((a, v) ∷ xs) = if is_match l v key then some a else first_match l key xs

pub load-at : (h : Heap) (a : ℕ) (n : ListNode) → h a ≡ some n → load h (some a) ≡ ok (a, n)
unfolding load
load-at h a n at = rw (at, load) refl

search_loop-first_match :
    (k : ℕ) (h : Heap) (l : AdList) (key : ℕ) (p : Option ℕ) (xs : Nodes)
    → length xs < k
    → Chain h p xs
    → search_loop k h l key (record { next = first xs; direction = start_head })
      ≡ ok (first_match l key xs)
unfolding search_loop list_next
search_loop-first_match zero h l key p xs fuel c = absurd (omega arith)
search_loop-first_match (suc k) h l key p [] fuel c = refl
search_loop-first_match (suc k) h l key p ((a, v) ∷ xs) fuel c =
    let rest = search_loop-first_match k h l key (some a) xs (omega arith) c.1 in
    elim (Bool-cases (is_match l v key)) [
      | inl hit ↦ let at = load-at h a _ c.0 in rw (at, at, hit) refl
      | inr miss ↦ let at = load-at h a _ c.0 in rw (at, at, miss, rest) refl
    ]

-- listSearchKey ends, and returns the first node whose value the list's test, or without one the
-- equality of pointers, finds to match the key; NULL if there is none.
pub list_search_key-first_match :
    (h : Heap) (l : AdList) (key : ℕ) (xs : Nodes)
    → Represents h l xs
    → list_search_key h l key ≡ ok (first_match l key xs)
unfolding list_search_key list_get_iterator
list_search_key-first_match h l key xs v =
    ap (λ p. search_loop (suc l.len) h l key (record { next = p; direction = start_head })) v.head
    ∙ (search_loop-first_match (suc l.len) h l key none xs (omega (arith, v.len)) v.chain)
