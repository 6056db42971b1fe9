-- ===== src/Mysql/Columns.antt =====
-- The values of a row of MysqlClient.cpp by the names of the columns.
use myprogram.Prelude.{
  ℕ, zero, suc, ◌+◌, ◌≤◌, ◌<◌, ◌≡◌, refl, ap, ◌∙◌, inl, inr, true, false, Option, none, some, List,
  [], ◌∷◌, ◌++◌, arith, if◌then◌else◌, length, length-append, take, Bool-cases, is_null, ok, leb,
}
use myprogram.Mysql.{
  bytes_eq, Fields, set_field, find_field, index_fields, MysqlRow, store_result, read_cell, Cells,
  read_cells, is_filled, fetch_row, value_at, get_string,
}
use myprogram.Mysql.Bytes.{
  bytes_eq_refl, eq_of_bytes_eq, last_index, find_field-set_field, find_field-index_fields,
  length-set_field,
}

-- None of the names is the key.
abbrev pub Unlike : List ℕ → List (List ℕ) → Type 0
Unlike key [] = Unit {0}
Unlike key (name ∷ names) = (bytes_eq name key ≡ false) × Unlike key names

abbrev pub AreDistinct : List (List ℕ) → Type 0
AreDistinct [] = Unit {0}
AreDistinct (name ∷ names) = Unlike name names × AreDistinct names

-- What is read of the columns.
abbrev pub Reads : Cells → List (List ℕ) → Type 0
Reads [] [] = Unit {0}
Reads ((memory, len) ∷ cells) (v ∷ values) = (read_cell memory len ≡ ok v) × Reads cells values
Reads _ _ = ⊥

last_index-Unlike :
    (names : List (List ℕ)) (i : ℕ) (key : List ℕ) (found : Option ℕ)
    → Unlike key names
    → last_index names i key found ≡ found
last_index-Unlike [] i key found u = refl
last_index-Unlike (name ∷ names) i key found (ne, u) =
    ap (λ b. last_index names (i + 1) key (if b then some i else found)) ne
    ∙ last_index-Unlike names (i + 1) key found u

last_index-split :
    (before after : List (List ℕ)) (i : ℕ) (key : List ℕ) (found : Option ℕ)
    → Unlike key after
    → last_index (before ++ key ∷ after) i key found ≡ some (length before + i)
last_index-split [] after i key found u =
    ap (λ b. last_index after (i + 1) key (if b then some i else found)) (bytes_eq_refl key)
    ∙ last_index-Unlike after (i + 1) key (some i) u
    ∙ ap some (omega arith)
last_index-split (name ∷ before) after i key found u =
    last_index-split before after (i + 1) key (if bytes_eq name key then some i else found) u
    ∙ ap some (omega arith)

Unlike-after :
    (before after : List (List ℕ)) (key : List ℕ)
    → AreDistinct (before ++ key ∷ after)
    → Unlike key after
Unlike-after [] after key (u, d) = u
Unlike-after (name ∷ before) after key (u, d) = Unlike-after before after key d

-- The index of a column is its place.
pub find_field-column :
    (before after : List (List ℕ)) (key : List ℕ)
    → Unlike key after
    → find_field (index_fields (before ++ key ∷ after) 0 []) key ≡ some (length before)
unfolding find_field
find_field-column before after key u =
    find_field-index_fields (before ++ key ∷ after) 0 [] key
    ∙ last_index-split before after 0 key none u
    ∙ ap some (omega arith)

unlike_sym : (a b : List ℕ) → bytes_eq a b ≡ false → bytes_eq b a ≡ false
unlike_sym a b e = elim (Bool-cases (bytes_eq b a)) [
  | inl f ↦
      let again : bytes_eq a b ≡ bytes_eq a a = ap (bytes_eq a) (eq_of_bytes_eq b a f) in
      absurd (cc (again, e, bytes_eq_refl a))
  | inr f ↦ f
]

abbrev Missing : Fields → List (List ℕ) → Type 0
Missing fs [] = Unit {0}
Missing fs (name ∷ names) = (find_field fs name ≡ none) × Missing fs names

Missing-set_field :
    (fs : Fields) (name : List ℕ) (i : ℕ) (names : List (List ℕ))
    → Unlike name names
    → Missing fs names
    → Missing (set_field fs name i) names
Missing-set_field fs name i [] u m = tt
Missing-set_field fs name i (other ∷ names) (ne, u) (absent, m) = (
  find_field-set_field fs name other i
      ∙ ap (λ b. if b then some i else find_field fs other) (unlike_sym other name ne)
      ∙ absent,
  Missing-set_field fs name i names u m,
)

length-index_fields :
    (names : List (List ℕ)) (i : ℕ) (fs : Fields)
    → AreDistinct names
    → Missing fs names
    → length (index_fields names i fs) ≡ length fs + length names
unfolding index_fields
length-index_fields [] i fs d m = omega arith
length-index_fields (name ∷ names) i fs (u, d) (absent, m) =
    let more : length (set_field fs name i) ≡ suc (length fs) =
      length-set_field fs name i
      ∙ ap (λ r. if is_null r then suc (length fs) else length fs) absent in
    omega (
      arith,
      more,
      length-index_fields names (i + 1) (set_field fs name i) d
          (Missing-set_field fs name i names u m),
    )

Missing-nil : (names : List (List ℕ)) → Missing [] names
unfolding find_field
Missing-nil [] = tt
Missing-nil (name ∷ names) = (refl, Missing-nil names)

pub read_cells-take :
    (n : ℕ) (cells : Cells) (values : List (List ℕ))
    → Reads cells values
    → n ≤ length values
    → read_cells n cells ≡ ok (take n values)
unfolding read_cells
read_cells-take zero cells values r le = refl
read_cells-take (suc n) [] [] r le = absurd (omega arith)
read_cells-take (suc n) [] (v ∷ values) r le = absurd r
read_cells-take (suc n) ((memory, len) ∷ cells) [] r le = absurd r
read_cells-take (suc n) ((memory, len) ∷ cells) (v ∷ values) (one, r) le =
    rw (one, read_cells-take n cells values r (omega arith)) refl

take_all : (values : List (List ℕ)) → take (length values) values ≡ values
take_all [] = refl
take_all (v ∷ values) = ap (λ vs. v ∷ vs) (take_all values)

filled_row : (values : List (List ℕ)) → 0 < length values → is_filled values ≡ true
filled_row [] pos = absurd (omega arith)
filled_row (v ∷ values) pos = refl

pub leb-false : (a b : ℕ) → b < a → leb a b ≡ false
leb-false a b h = ground arith

-- A result whose columns have distinct names, and a row of as many values: fetch_row returns true
-- with the values, and get_string of the name of a column is the value of that column.
pub fetch_row-get_string :
    (before after : List (List ℕ)) (name : List ℕ) (cells : Cells) (values : List (List ℕ))
    → AreDistinct (before ++ name ∷ after)
    → Reads cells values
    → length values ≡ length (before ++ name ∷ after)
    → let res = store_result (some (before ++ name ∷ after)) in
      let r : MysqlRow = record { result = some res; row = values } in
      (fetch_row res (some cells) ≡ ok (true, r))
      × (get_string r name ≡ ok (value_at values (length before)))
unfolding fetch_row get_string store_result
fetch_row-get_string before after name cells values d reads same =
    let names = before ++ name ∷ after in
    let total = length-append before (name ∷ after) in
    let count : length (index_fields names 0 []) ≡ length values =
      omega (arith, length-index_fields names 0 [] d (Missing-nil names)) in
    let all : read_cells (length (index_fields names 0 [])) cells ≡ ok values =
      ap (λ n. read_cells n cells) count
      ∙ read_cells-take (length values) cells values reads (omega arith)
      ∙ ap ok (take_all values) in
    let found = find_field-column before after name (Unlike-after before after name d) in
    (
      rw (all, filled_row values (omega (arith, total))) refl,
      rw (found, leb-false (length values) (length before) (omega (arith, total)), get_string) refl,
    )
