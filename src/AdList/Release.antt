-- ===== src/AdList/Release.antt =====
-- listRelease of adlist.c.
use myprogram.Prelude.{
  ℕ, ◌≡◌, refl, ap, ◌∙◌, Option, none, some, List, [], ◌∷◌, arith, has, length, if◌then◌else◌, ok,
  update, ==_ne, Distinct,
}
use myprogram.AdList.{Heap, AdList, freed, release_loop, list_release}
use myprogram.AdList.Chain.{Nodes, first, addresses, Chain, Chain-same, Represents}
use myprogram.AdList.Search.{load-at}

-- The values that are given to `free`.
abbrev pub freed_all : AdList → Nodes → List ℕ
freed_all l [] = []
freed_all l ((a, v) ∷ xs) = freed l v (freed_all l xs)

-- None of these nodes is left, and all others are as they were.
abbrev pub Emptied : Heap → Heap → List ℕ → Type 0
Emptied h h' near = (b : ℕ) → h' b ≡ (if has b near then none else h b)

release_loop-Emptied :
    (h : Heap) (l : AdList) (p : Option ℕ) (xs : Nodes)
    → Chain h p xs
    → Distinct (addresses xs)
    → (h' : Heap) × (release_loop (length xs) h l (first xs) ≡ ok (h', freed_all l xs))
      × Emptied h h' (addresses xs)
unfolding release_loop
release_loop-Emptied h l p [] c d = (h, refl, λ b. refl)
release_loop-Emptied h l p ((a, v) ∷ xs) c d =
    let h1 = update h a none in
    let rest =
      Chain-same {f = h} {g = h1} (some a) xs
        (λ b there. rw (==_ne b a (λ e. cc (e, there, d.0))) refl) c.1 in
    let (h', run, gone) = release_loop-Emptied h1 l (some a) xs rest d.1 in
    (h', rw (load-at h a _ c.0, run) refl, λ b. ground (arith, gone b))

-- listRelease ends: every node of the list is freed once, in order, with its value if the list has
-- a method for that, and no other node.
pub list_release-Emptied :
    (h : Heap) (l : AdList) (xs : Nodes)
    → Represents h l xs
    → (h' : Heap) × (list_release h l ≡ ok (h', freed_all l xs)) × Emptied h h' (addresses xs)
unfolding list_release
list_release-Emptied h l xs r =
    let (h', run, gone) = release_loop-Emptied h l none xs r.chain r.distinct in
    (
      h',
      ap (λ n. release_loop n h l l.head) r.len ∙ ap (release_loop (length xs) h l) r.head ∙ run,
      gone,
    )
