-- ===== src/AdList/Duplicate.antt =====
-- What listDup of adlist.c makes of a list.
use myprogram.Prelude.{ℕ, ◌≡◌, Option, none, some, List, [], ok}
use myprogram.AdList.{Heap, AdList}
use myprogram.AdList.Chain.{Nodes, Represents}
use myprogram.AdList.Copy.{list_dup}
use myprogram.AdList.Copied.{Copies, Reason}

-- The original and the copy, or a heap as it was before and the reason for that.
abbrev pub Outcome : (Heap → Option ℕ) → Heap → Heap → AdList → Nodes → Option AdList → Type 0
Outcome malloc h h' l xs none = ((b : ℕ) → h' b ≡ h b) × Reason malloc l.dup h [] xs
Outcome malloc h h' l xs (some copy) =
    (ys : Nodes) × Represents h' copy ys × Copies l.dup xs ys × Represents h' l xs

abbrev pub Duplicated : (Heap → Option ℕ) → Heap → AdList → Nodes → Type 0
Duplicated malloc h l xs =
    (h' : Heap) × (r : Option AdList) × (vs : List ℕ) × (list_dup malloc h l ≡ ok (h', r, vs))
    × Outcome malloc h h' l xs r
