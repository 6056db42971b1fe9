-- ===== src/HashId.antt =====
-- skynet_test/skynet/mytest/gate/hashid.h: the table from socket ids to connection slots.
-- An int is its 32-bit pattern, so -1 is `minus_one` and a negative number is one from `2 ^ 31` on.
-- A pointer to a node is its index in the node array, `none` for NULL; a result of -1 is `none` too.
pub mod Bucket
pub mod Invariant
pub mod Lookup
pub mod Init
pub mod Insert
pub mod Inserted
pub mod Remove
pub mod Removed
pub mod Removal
pub mod Errors
use Prim.Native.Nat.{bit_and}
use myprogram.Prelude.{
  ℕ, zero, suc, ◌+◌, ◌-◌, ◌*◌, ◌%◌, ◌^◌, Bool, true, false, Option, none, some, ltb, leb, ◌==◌,
  if◌then◌else◌, is_null, Run, ok, fault, out_of_fuel, ◌>>=◌, ◌>>◌, assert, Array, get, put,
}

abbrev pub minus_one : ℕ
minus_one = 2 ^ 32 - 1

pub record Node : Type 0 where
  pub id : ℕ
  pub next : Option ℕ

pub record HashId : Type 0 where
  pub hashmod : ℕ
  pub cap : ℕ
  pub count : ℕ
  pub id : Array Node
  pub hash : Array (Option ℕ)

-- `while (hashcap < max) hashcap *= 2;` where the product must fit an int.
unfoldable pub grow : ℕ → ℕ → ℕ → Run ℕ
grow zero hashcap max = out_of_fuel
grow (suc k) hashcap max =
    let rest = grow k (hashcap * 2) max in
    if ltb hashcap max then (if ltb (hashcap * 2) (2 ^ 31) then rest else fault) else ok hashcap

abbrev pub empty_node : Node
empty_node = record { id = minus_one; next = none }

-- The table with all its nodes empty and its chains too.
abbrev pub blank : ℕ → ℕ → HashId
blank max hashcap = record {
  hashmod = hashcap - 1;
  cap = max;
  count = 0;
  id = record { len = max; cell = λ _. empty_node };
  hash = record { len = hashcap; cell = λ _. none };
}

-- `max` is an int that is not negative. The int doubles at most 27 times.
unfoldable pub init : ℕ → Run HashId
init max = do hashcap ← grow 32 16 max; ok (blank max hashcap)

unfoldable pub clear : HashId → HashId
clear hi = record {
  hashmod = 1;
  cap = 0;
  count = 0;
  id = record { len = 0; cell = λ _. empty_node };
  hash = record { len = 0; cell = λ _. none };
}

unfoldable pub bucket : ℕ → ℕ → ℕ
bucket hashmod id = bit_and id hashmod

-- The walk along a chain. A chain holds a node at most once, so `cap + 1` rounds are enough.
unfoldable pub walk : ℕ → Array Node → ℕ → Option ℕ → Run (Option ℕ)
walk zero nodes id c = out_of_fuel
walk (suc k) nodes id none = ok none
walk (suc k) nodes id (some c) = do
  n ← get nodes c
  if n.id == id then ok (some c) else walk k nodes id n.next

unfoldable pub lookup : HashId → ℕ → Run (Option ℕ)
lookup hi id = do c ← get hi.hash (bucket hi.hashmod id); walk (suc hi.cap) hi.id id c

-- The label `_clear`: the node is emptied and its index returned.
unfoldable pub release : HashId → ℕ → Run (HashId × Option ℕ)
release hi c = do
  nodes ← put hi.id c empty_node
  ok (record hi { id = nodes; count = hi.count - 1 }, some c)

-- `while(c->next)`, at a node `c` that is not the one looked for.
unfoldable pub unlink : ℕ → HashId → ℕ → ℕ → Run (HashId × Option ℕ)
unlink zero hi id c = out_of_fuel
unlink (suc k) hi id c = do
  n ← get hi.id c
  elim n.next [
    | none ↦ ok (hi, none)
    | some temp ↦ do
      t ← get hi.id temp
      if t.id == id
          then (do
            nodes ← put hi.id c (record n { next = t.next })
            release (record hi { id = nodes }) temp)
          else unlink k hi id temp
  ]

unfoldable pub remove : HashId → ℕ → Run (HashId × Option ℕ)
unfolding release
remove hi id = do
  let h = bucket hi.hashmod id
  first ← get hi.hash h
  elim first [
    | none ↦ ok (hi, none)
    | some c ↦ do
      n ← get hi.id c
      if n.id == id
          then (do hash ← put hi.hash h n.next; release (record hi { hash = hash }) c)
          else unlink (suc hi.cap) hi id c
  ]

-- `(i + id) % hi->cap`: the sum must fit an int, and a remainder that is negative is no index.
-- With `cap` above 0 only a sum that is a multiple of it has the remainder 0.
unfoldable pub probe : ℕ → ℕ → ℕ → Run ℕ
probe i id cap =
    if ltb id (2 ^ 31)
    then (assert (ltb (i + id) (2 ^ 31)) >> ok ((i + id) % cap))
    else (let sum = i + id in
        if leb (2 ^ 32) sum
        then ok ((sum - 2 ^ 32) % cap)
        else (if (2 ^ 32 - sum) % cap == 0 then ok 0 else fault))

-- The search for a free node, `n` rounds from round `i` on.
unfoldable pub free_node : ℕ → HashId → ℕ → ℕ → Run (Option ℕ)
free_node zero hi id i = ok none
free_node (suc n) hi id i = do
  index ← probe i id hi.cap
  c ← get hi.id index
  if c.id == minus_one then ok (some index) else free_node n hi id (i + 1)

-- `assert(c)`
unfoldable pub some_node : Option ℕ → Run ℕ
some_node none = fault
some_node (some c) = ok c

unfoldable pub insert : HashId → ℕ → Run (HashId × ℕ)
unfolding some_node
insert hi id = do
  c ← (free_node hi.cap hi id 0 >>= some_node)
  old ← get hi.id c
  assert (is_null old.next)
  let h = bucket hi.hashmod id
  first ← get hi.hash h
  nodes ← put hi.id c (record { id = id; next = first })
  hash ← put hi.hash h (some c)
  ok (record hi { count = hi.count + 1; id = nodes; hash = hash }, c)

abbrev pub full : HashId → Bool
full hi = hi.count == hi.cap
