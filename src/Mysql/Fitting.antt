-- ===== src/Mysql/Fitting.antt =====
-- MysqlClient.cpp: fetch_row and get_int for rows that are as long as the list of the fields.
use myprogram.Prelude.{
  ℕ, zero, suc, ◌+◌, ◌≤◌, ◌≡◌, refl, Bool, false, Option, none, some, List, [], ◌∷◌, arith,
  if◌then◌else◌, length, Bool-cases, Option-cases, inl, inr, ok, leb, take, is_null,
}
use myprogram.CText.{strtol}
use myprogram.Mysql.{
  MysqlResult, Fields, Cells, set_field, index_fields, store_result, read_cell, read_cells,
  fetch_row, is_filled, get_string, get_int, find_field, value_at,
}
use myprogram.Mysql.Bytes.{length-set_field}

-- A length, where there is one, stays within the memory.
abbrev pub Within : Option (List ℕ) → Option ℕ → Type 0
Within (some memory) (some n) = n ≤ length memory
Within _ _ = Unit {0}

-- There are `n` cells at least.
abbrev pub Fits : ℕ → Cells → Type 0
Fits zero cells = Unit {0}
Fits (suc n) [] = ⊥
Fits (suc n) ((memory, len) ∷ cells) = Within memory len × Fits n cells

abbrev pub FitsIn : Option (List (List ℕ)) → Option Cells → Type 0
FitsIn (some names) (some cells) = Fits (length names) cells
FitsIn _ _ = Unit {0}

read_cell-Within :
    (memory : Option (List ℕ)) (len : Option ℕ)
    → Within memory len
    → (v : List ℕ) × (read_cell memory len ≡ ok v)
unfolding read_cell
read_cell-Within none len w = ([], refl)
read_cell-Within (some memory) none w = (_, refl)
read_cell-Within (some memory) (some n) w = (take n memory, ground arith)

read_cells-step :
    (n : ℕ) (memory : Option (List ℕ)) (len : Option ℕ) (cells : Cells) (v : List ℕ)
    (rest : List (List ℕ))
    → read_cell memory len ≡ ok v
    → read_cells n cells ≡ ok rest
    → read_cells (suc n) ((memory, len) ∷ cells) ≡ ok (v ∷ rest)
unfolding read_cells
read_cells-step n memory len cells v rest e f = rw (e, f, read_cells) refl

read_cells-Fits :
    (k n : ℕ) (cells : Cells)
    → Fits n cells
    → k ≤ n
    → (values : List (List ℕ)) × (read_cells k cells ≡ ok values)
unfolding read_cells
read_cells-Fits zero n cells f h = ([], refl)
read_cells-Fits (suc k) zero cells f h = absurd (omega arith)
read_cells-Fits (suc k) (suc n) [] f h = elim f [ ]
read_cells-Fits (suc k) (suc n) ((memory, len) ∷ cells) (w, f) h =
    let (v, e) = read_cell-Within memory len w in
    let (rest, e') = read_cells-Fits k n cells f (omega arith) in
    (v ∷ rest, read_cells-step k memory len cells v rest e e')

length-set_field_le :
    (fs : Fields) (name : List ℕ) (i : ℕ) → length (set_field fs name i) ≤ length fs + 1
length-set_field_le fs name i =
    let one = length-set_field fs name i in
    elim (Bool-cases (is_null (find_field fs name))) [
      | inl e ↦ rw one (rw e (omega arith))
      | inr e ↦ rw one (rw e (omega arith))
    ]

length-index_fields :
    (names : List (List ℕ)) (i : ℕ) (fs : Fields)
    → length (index_fields names i fs) ≤ length names + length fs
unfolding index_fields
length-index_fields [] i fs = omega arith
length-index_fields (name ∷ names) i fs =
    omega (
      arith,
      length-index_fields names (i + 1) (set_field fs name i),
      length-set_field_le fs name i,
    )

fetched_row :
    (names : List (List ℕ)) (cells : Cells) (values : List (List ℕ))
    → read_cells (length (index_fields names 0 [])) cells ≡ ok values
    → fetch_row (store_result (some names)) (some cells)
      ≡ ok (is_filled values, record { result = some (store_result (some names)); row = values })
unfolding fetch_row store_result
fetched_row names cells values e = rw (e, fetch_row) refl

-- fetch_row returns, with a row of its result.
pub fetch_row-FitsIn :
    (names : Option (List (List ℕ))) (cells : Option Cells)
    → FitsIn names cells
    → (found : Bool) × (values : List (List ℕ)) × (fetch_row (store_result names) cells
        ≡ ok (found, record { result = some (store_result names); row = values }))
unfolding fetch_row store_result
fetch_row-FitsIn none none f = (false, [], refl)
fetch_row-FitsIn none (some cells) f = (false, [], refl)
fetch_row-FitsIn (some names) none f = (false, [], refl)
fetch_row-FitsIn (some names) (some cells) f =
    let short = length-index_fields names 0 [] in
    let (values, e) =
      read_cells-Fits (length (index_fields names 0 [])) (length names) cells f
        (omega (arith, short)) in
    (is_filled values, values, fetched_row names cells values e)

-- get_int of any key returns.
pub get_int_returns :
    (res : MysqlResult) (values : List (List ℕ)) (key : List ℕ)
    → (n : ℕ) × (get_int (record { result = some res; row = values }) key ≡ ok n)
unfolding get_int get_string
get_int_returns res values key = elim (Option-cases (find_field res.fields key)) [
  | inl e ↦ (strtol [], rw (e, get_int, get_string) refl)
  | inr (i, e) ↦ (
    strtol (if leb (length values) i then [] else value_at values i),
    rw (e, get_int, get_string) refl,
  )
]
