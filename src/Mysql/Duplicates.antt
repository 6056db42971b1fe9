-- ===== src/Mysql/Duplicates.antt =====
-- Results of MysqlClient.cpp in which two columns have one name.
use myprogram.Prelude.{
  ℕ, zero, suc, ◌+◌, ◌≤◌, ◌<◌, ◌≡◌, refl, ap, ◌∙◌, inl, inr, Bool, true, false, some, List, [], ◌∷◌,
  ◌++◌, arith, if◌then◌else◌, length, length-append, length-take, take, is_null, ok, leb,
  Bool-cases,
}
use myprogram.Mysql.{
  bytes_eq, Fields, set_field, find_field, index_fields, MysqlRow, store_result, Cells, read_cells,
  is_filled, fetch_row, get_string,
}
use myprogram.Mysql.Bytes.{bytes_eq_refl, find_field-set_field, length-set_field}
use myprogram.Mysql.Columns.{Reads, find_field-column, read_cells-take}

abbrev pub occurs : List ℕ → List (List ℕ) → Bool
occurs key [] = false
occurs key (name ∷ names) = if bytes_eq name key then true else occurs key names

-- How many names there are, each counted once, and none of those that have been seen.
abbrev pub count_distinct : List (List ℕ) → List (List ℕ) → ℕ
count_distinct seen [] = 0
count_distinct seen (name ∷ names) =
    let rest = count_distinct (name ∷ seen) names in if occurs name seen then rest else suc rest

-- The map has the names that have been seen.
abbrev Knows : Fields → List (List ℕ) → Type 0
Knows fs seen =
    (key : List ℕ) → is_null (find_field fs key) ≡ (if occurs key seen then false else true)

Knows-set_field :
    (fs : Fields) (name : List ℕ) (i : ℕ) (seen : List (List ℕ))
    → Knows fs seen
    → Knows (set_field fs name i) (name ∷ seen)
Knows-set_field fs name i seen k key =
    ap is_null (find_field-set_field fs name key i)
    ∙ elim (Bool-cases (bytes_eq name key)) [ inl e ↦ rw e refl | inr e ↦ rw e (k key) ]

length-index_fields :
    (names : List (List ℕ)) (i : ℕ) (fs : Fields) (seen : List (List ℕ))
    → Knows fs seen
    → length (index_fields names i fs) ≡ length fs + count_distinct seen names
unfolding index_fields
length-index_fields [] i fs seen k = omega arith
length-index_fields (name ∷ names) i fs seen k =
    let rest =
      length-index_fields names (i + 1) (set_field fs name i) (name ∷ seen)
        (Knows-set_field fs name i seen k) in
    let one : length (set_field fs name i)
        ≡ (if (if occurs name seen then false else true) then suc (length fs) else length fs) =
      length-set_field fs name i ∙ ap (λ b. if b then suc (length fs) else length fs) (k name) in
    elim (Bool-cases (occurs name seen)) [
      | inl e ↦
          let same : length (set_field fs name i) ≡ length fs = one ∙ rw e refl in
          rw e (rest ∙ ap (λ n. n + count_distinct (name ∷ seen) names) same)
      | inr e ↦
          let more : length (set_field fs name i) ≡ suc (length fs) = one ∙ rw e refl in
          rw e (omega (arith, rest, more))
    ]

-- The map has the distinct names.
length-fields : (names : List (List ℕ)) → length (index_fields names 0 []) ≡ count_distinct [] names
unfolding find_field
length-fields names = length-index_fields names 0 [] [] (λ key. refl) ∙ omega arith

count_distinct-le : (seen names : List (List ℕ)) → count_distinct seen names ≤ length names
count_distinct-le seen [] = omega arith
count_distinct-le seen (name ∷ names) = ground (arith, count_distinct-le (name ∷ seen) names)

-- A name that has been seen, at the end, is not counted.
count_distinct-seen :
    (seen front : List (List ℕ)) (name : List ℕ)
    → occurs name seen ≡ true
    → count_distinct seen (front ++ name ∷ []) ≤ length front
count_distinct-seen seen [] name e = rw e (omega arith)
count_distinct-seen seen (other ∷ front) name e =
    let still : occurs name (other ∷ seen) ≡ true = ground (arith, e) in
    ground (arith, count_distinct-seen (other ∷ seen) front name still)

count_distinct-repeated :
    (seen before : List (List ℕ)) (name : List ℕ) (between : List (List ℕ))
    → count_distinct seen ((before ++ name ∷ between) ++ name ∷ [])
      ≤ length (before ++ name ∷ between)
count_distinct-repeated seen [] name between =
    let there : occurs name (name ∷ seen) ≡ true = rw (bytes_eq_refl name) refl in
    ground (arith, count_distinct-seen (name ∷ seen) between name there)
count_distinct-repeated seen (other ∷ before) name between =
    ground (arith, count_distinct-repeated (other ∷ seen) before name between)

count_distinct-pos :
    (before : List (List ℕ)) (name : List ℕ) (after last : List (List ℕ))
    → 0 < count_distinct [] ((before ++ name ∷ after) ++ last)
count_distinct-pos [] name after last = omega arith
count_distinct-pos (other ∷ before) name after last = omega arith

filled_take :
    (n : ℕ) (values : List (List ℕ)) → 0 < n → n ≤ length values → is_filled (take n values) ≡ true
filled_take zero values pos le = absurd (omega arith)
filled_take (suc n) [] pos le = absurd (omega arith)
filled_take (suc n) (v ∷ values) pos le = refl

-- A result whose last column has the name of a column in front of it, with a row of a value for each
-- column: fetch_row returns true, with the first values of the row alone, as many as there are
-- distinct names, which is less than all; and get_string of the name is empty, whatever the row
-- holds.
pub get_string-repeated :
    (before : List (List ℕ)) (name : List ℕ) (between : List (List ℕ)) (cells : Cells)
    (values : List (List ℕ))
    → Reads cells values
    → length values ≡ length ((before ++ name ∷ between) ++ name ∷ [])
    → let names = (before ++ name ∷ between) ++ name ∷ [] in
      let res = store_result (some names) in
      let count = count_distinct [] names in
      let r : MysqlRow = record { result = some res; row = take count values } in
      (fetch_row res (some cells) ≡ ok (true, r))
      × (count < length values)
      × (get_string r name ≡ ok [])
unfolding fetch_row get_string store_result
get_string-repeated before name between cells values reads same =
    let front = before ++ name ∷ between in
    let names = front ++ name ∷ [] in
    let count = count_distinct [] names in
    let less : count ≤ length front = count_distinct-repeated [] before name between in
    let total = length-append front (name ∷ []) in
    let kept : length (take count values) ≡ count =
      length-take count values (omega (arith, total)) in
    let read : read_cells (length (index_fields names 0 [])) cells ≡ ok (take count values) =
      ap (λ n. read_cells n cells) (length-fields names)
      ∙ read_cells-take count cells values reads (omega (arith, total)) in
    let filled =
      filled_take count values (count_distinct-pos before name between (name ∷ []))
        (omega (arith, total)) in
    let found = find_field-column front [] name tt in
    let over : leb (length (take count values)) (length front) ≡ true =
      ground (arith, kept, less) in
    (rw (read, filled) refl, omega (arith, less, total), rw (found, over, get_string) refl)
