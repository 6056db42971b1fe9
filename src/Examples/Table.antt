-- ===== src/Examples/Table.antt =====
-- The table of hashid.h at concrete ids.
use myprogram.Prelude.{
  ℕ, ◌<◌, ◌≡◌, refl, sym, ◌∙◌, Option, none, some, List, [], arith, ◌==◌, if◌then◌else◌, ok,
  written, subst, get, put,
}
use myprogram.HashId.{
  HashId, lookup, insert, remove, blank, walk, bucket, free_node, probe, some_node,
}
use myprogram.HashId.Invariant.{Inv, Located}
use myprogram.HashId.Init.{blank-Inv}
use myprogram.HashId.Lookup.{lookup-Located}
use myprogram.HashId.Inserted.{insert-Inv}
use myprogram.HashId.Removal.{remove-Inv, Kept}

abbrev pub empty_table : HashId
empty_table = blank 2 16

-- Socket 5 in slot 1.
abbrev pub one_table : HashId
one_table = record {
  hashmod = 15;
  cap = 2;
  count = 1;
  id = written empty_table.id 1 (record { id = 5; next = none });
  hash = written empty_table.hash 5 (some 1);
}

pub empty_table-Inv : Inv empty_table (λ _. [])
empty_table-Inv = blank-Inv 2 4 refl

absent5 : lookup empty_table 5 ≡ ok none
unfolding lookup walk bucket get
absent5 = refl

insert5 : insert empty_table 5 ≡ ok (one_table, 1)
unfolding insert free_node probe some_node bucket get put
insert5 = refl

insert-Inv_example :
    (t' : HashId) × (chain' : ℕ → List ℕ) × (s : ℕ) × (insert empty_table 5 ≡ ok (t', s))
    × Inv t' chain'
    × (s < 2)
    × (t'.cap ≡ 2)
    × (t'.count ≡ 1)
    × ((j : ℕ) (r : Option ℕ)
        → lookup empty_table j ≡ ok r
        → lookup t' j ≡ ok (if j == 5 then some s else r))
insert-Inv_example = insert-Inv 5 empty_table-Inv (omega arith) refl absent5

found5 : lookup one_table 5 ≡ ok (some 1)
unfolding lookup walk bucket get
found5 = refl

pub absent6 : lookup one_table 6 ≡ ok none
unfolding lookup walk bucket get
absent6 = refl

-- The chain of bucket 5 is slot 1.
pub one_table_holds :
    (chain : ℕ → List ℕ) × Inv one_table chain × (lookup one_table 5 ≡ ok (some 1))
one_table_holds =
    let (t', chain', s, run, v, below, cap, count, found) =
      insert-Inv 5 empty_table-Inv (omega arith) refl absent5 in
    let same : ok (t', s) ≡ ok (one_table, 1) = sym run ∙ insert5 in
    let e : t' ≡ one_table = cc same in (chain', subst (λ t. Inv t chain') e v, found5)

remove-Inv_example :
    (out : HashId × Option ℕ) × (remove one_table 5 ≡ ok out) × Kept one_table 5 out
remove-Inv_example = remove-Inv one_table_holds.1 5

lookup-Located_example : (r : Option ℕ) × (lookup one_table 5 ≡ ok r) × Located one_table 5 r
lookup-Located_example = lookup-Located one_table_holds.1 5
