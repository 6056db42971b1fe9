-- ===== src/Mysql/Bytes.antt =====
-- The map of MysqlClient.cpp from the names of fields to their indices.
use myprogram.Prelude.{
  ℕ, suc, ◌+◌, ◌≡◌, refl, sym, ap, ◌∙◌, inl, inr, Bool, true, false, ◌&&◌, Option, some, List, [],
  ◌∷◌, ◌++◌, arith, ◌==◌, if◌then◌else◌, length, Bool-cases, eq_of_==, ==_refl, is_null,
}
use myprogram.Mysql.{bytes_eq, Fields, set_field, find_field, index_fields}

pub bytes_eq_refl : (a : List ℕ) → bytes_eq a a ≡ true
bytes_eq_refl [] = refl
bytes_eq_refl (c ∷ cs) = rw (==_refl c) (bytes_eq_refl cs)

both_true : (x y : Bool) → (x && y) ≡ true → (x ≡ true) × (y ≡ true)
both_true x y e = ground (arith, e)

pub eq_of_bytes_eq : (a b : List ℕ) → bytes_eq a b ≡ true → a ≡ b
eq_of_bytes_eq [] [] e = refl
eq_of_bytes_eq [] (d ∷ ds) e = absurd (cc e)
eq_of_bytes_eq (c ∷ cs) [] e = absurd (cc e)
eq_of_bytes_eq (c ∷ cs) (d ∷ ds) e =
    let (head, tail) = both_true (c == d) (bytes_eq cs ds) e in
    let one = eq_of_== c d head in let rest = eq_of_bytes_eq cs ds tail in cc (one, rest)

-- The last of the names that is the key.
abbrev pub last_index : List (List ℕ) → ℕ → List ℕ → Option ℕ → Option ℕ
last_index [] i key found = found
last_index (name ∷ names) i key found =
    last_index names (i + 1) key (if bytes_eq name key then some i else found)

overwritten :
    (b : Bool) (r : Option ℕ) (i j : ℕ)
    → (if b then some i else r) ≡ (if b then some i else (if b then some j else r))
overwritten true r i j = refl
overwritten false r i j = refl

other_name : (n name key : List ℕ) → bytes_eq n name ≡ false → n ≡ key → bytes_eq name key ≡ false
other_name n name key e same = elim (Bool-cases (bytes_eq name key)) [
  | inl f ↦
      let equal = eq_of_bytes_eq name key f in
      let again : bytes_eq n name ≡ bytes_eq n n = ap (bytes_eq n) (equal ∙ sym same) in
      absurd (cc (again, e, bytes_eq_refl n))
  | inr f ↦ f
]

pub find_field-set_field :
    (fs : Fields) (name key : List ℕ) (i : ℕ)
    → find_field (set_field fs name i) key
      ≡ (if bytes_eq name key then some i else find_field fs key)
unfolding find_field set_field
find_field-set_field [] name key i = refl
find_field-set_field ((n, j) ∷ fs) name key i = elim (Bool-cases (bytes_eq n name)) [
  | inl e ↦
      let same = eq_of_bytes_eq n name e in
      rw (e, same) (overwritten (bytes_eq name key) (find_field fs key) i j)
  | inr e ↦ elim (Bool-cases (bytes_eq n key)) [
    | inl f ↦
        let same = eq_of_bytes_eq n key f in
        let other : bytes_eq name key ≡ false = other_name n name key e same in
        rw (e, f, other) refl
    | inr f ↦ rw (e, f) (find_field-set_field fs name key i)
  ]
]

pub find_field-index_fields :
    (names : List (List ℕ)) (i : ℕ) (fs : Fields) (key : List ℕ)
    → find_field (index_fields names i fs) key ≡ last_index names i key (find_field fs key)
unfolding index_fields
find_field-index_fields [] i fs key = refl
find_field-index_fields (name ∷ names) i fs key =
    find_field-index_fields names (i + 1) (set_field fs name i) key
    ∙ ap (last_index names (i + 1) key) (find_field-set_field fs name key i)

-- A name that is there is not counted again.
pub length-set_field :
    (fs : Fields) (name : List ℕ) (i : ℕ)
    → length (set_field fs name i)
      ≡ (if is_null (find_field fs name) then suc (length fs) else length fs)
unfolding set_field find_field
length-set_field [] name i = refl
length-set_field ((n, j) ∷ fs) name i = elim (Bool-cases (bytes_eq n name)) [
  | inl e ↦ rw e refl
  | inr e ↦
      let rest = length-set_field fs name i in
      elim (Bool-cases (is_null (find_field fs name))) [
        | inl f ↦ rw (e, rest, f) refl
        | inr f ↦ rw (e, rest, f) refl
      ]
]

pub index_fields-append :
    (xs ys : List (List ℕ)) (i : ℕ) (fs : Fields)
    → index_fields (xs ++ ys) i fs ≡ index_fields ys (length xs + i) (index_fields xs i fs)
unfolding index_fields
index_fields-append [] ys i fs = ap (λ n. index_fields ys n fs) (omega arith)
index_fields-append (x ∷ xs) ys i fs =
    index_fields-append xs ys (i + 1) (set_field fs x i)
    ∙ ap (λ n. index_fields ys n (index_fields xs (i + 1) (set_field fs x i))) (omega arith)
