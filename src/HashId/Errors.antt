-- ===== src/HashId/Errors.antt =====
-- hashid_insert where it cannot go on: a table that is full, and an id that is negative.
use myprogram.Prelude.{
  ℕ, zero, suc, ◌+◌, ◌-◌, ◌%◌, ◌^◌, ◌≤◌, ◌<◌, ◌≡◌, refl, ◌≢◌, inl, inr, List, true, arith, fault,
  ==-cases,
}
use myprogram.HashId.{HashId, Node, minus_one, probe, free_node, insert, full}
use myprogram.HashId.Invariant.{Inv, used, used-le}
use myprogram.HashId.Insert.{free_node-Searched}

used_filled : (n i : ℕ) (f : ℕ → Node) → used n f ≡ n → i < n → (f i).id ≢ minus_one
used_filled zero i f e l = absurd (omega arith)
used_filled (suc n) i f e l = elim (==-cases n i) [
  | inl same ↦ ground (arith, used-le n f)
  | inr ne ↦ used_filled n i f (ground (arith, used-le n f)) (omega arith)
]

-- In a full table the search finds no node, and the assert fails.
pub insert-full :
    {t : HashId} {chain : ℕ → List ℕ} (id : ℕ)
    → Inv t chain
    → t.cap + id ≤ 2 ^ 31
    → full t ≡ true
    → insert t id ≡ fault
unfolding insert
insert-full {t} id v fits is_full = elim (free_node-Searched v id fits t.cap 0 (omega arith)) [
  | inl (run, _) ↦ rw run
  | inr (s, _, below, free) ↦
      absurd (used_filled t.cap s t.id.cell (ground (arith, v.count)) below free)
]

first_probe :
    (id size : ℕ) → id < 2 ^ 32 → 2 ^ 31 ≤ id → (2 ^ 32 - id) % size ≢ 0 → probe 0 id size ≡ fault
unfolding probe
first_probe id size word negative apart = ground arith

first_round :
    (n : ℕ) (t : HashId) (id : ℕ) → 0 < n → probe 0 id t.cap ≡ fault → free_node n t id 0 ≡ fault
unfolding free_node
first_round zero t id h e = elim h [ ]
first_round (suc n) t id h e = rw e refl

-- The first index that is probed for a negative id is negative, unless the size of the table
-- divides the id: the code then reads in front of the node array.
pub insert_negative :
    (t : HashId) (id : ℕ)
    → 0 < t.cap
    → id < 2 ^ 32
    → 2 ^ 31 ≤ id
    → (2 ^ 32 - id) % t.cap ≢ 0
    → insert t id ≡ fault
unfolding insert
insert_negative t id some_room word negative apart =
    rw (first_round t.cap t id some_room (first_probe id t.cap word negative apart)) refl
