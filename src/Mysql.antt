-- ===== src/Mysql.antt =====
-- mysql_api_test/MysqlClient.h and MysqlClient.cpp: the result of a query and its rows. Text is the
-- list of its bytes. What the MySQL client library returns is an argument: the names of the fields
-- in the order in which mysql_fetch_field gives them, and for a row the memory from each pointer of
-- mysql_fetch_row on, with the lengths of mysql_fetch_lengths.
pub mod Bytes
pub mod Columns
pub mod Duplicates
pub mod Session
pub mod Fitting
pub mod Handles
pub mod Identity
pub mod Requests
pub mod Recovery
pub mod InsertId
pub mod Lifetime
use myprogram.Prelude.{
  ℕ, zero, suc, ◌+◌, ◌%◌, ◌^◌, Bool, true, false, ◌&&◌, Option, none, some, List, [], ◌∷◌, leb,
  ◌==◌, if◌then◌else◌, Run, ok, fault, ◌>>=◌, ◌>>◌, assert, length, take,
}
use myprogram.CText.{c_string, strtol}

-- `==` of two strings.
abbrev pub bytes_eq : List ℕ → List ℕ → Bool
bytes_eq [] [] = true
bytes_eq (c ∷ cs) (d ∷ ds) = (c == d) && bytes_eq cs ds
bytes_eq _ _ = false

-- std::map from the names of fields to their indices.
abbrev pub Fields : Type 0
Fields = List (List ℕ × ℕ)

-- `m_field[name] = i`
unfoldable pub set_field : Fields → List ℕ → ℕ → Fields
set_field [] name i = (name, i) ∷ []
set_field ((n, j) ∷ fs) name i =
    let rest = set_field fs name i in if bytes_eq n name then (n, i) ∷ fs else (n, j) ∷ rest

unfoldable pub find_field : Fields → List ℕ → Option ℕ
find_field [] name = none
find_field ((n, j) ∷ fs) name = if bytes_eq n name then some j else find_field fs name

-- The loop of the constructor of MysqlResult.
unfoldable pub index_fields : List (List ℕ) → ℕ → Fields → Fields
index_fields [] i fs = fs
index_fields (name ∷ names) i fs = index_fields names (i + 1) (set_field fs name i)

-- `has_result` is whether m_result is not NULL.
pub record MysqlResult : Type 0 where
  pub has_result : Bool
  pub fields : Fields

-- The constructor: the argument is what mysql_store_result gives, if there is a connection.
unfoldable pub store_result : Option (List (List ℕ)) → MysqlResult
store_result none = record { has_result = false; fields = [] }
store_result (some names) = record { has_result = true; fields = index_fields names 0 [] }

-- num_rows: an int32_t, as its 32-bit pattern.
unfoldable pub num_rows : MysqlResult → ℕ → ℕ
num_rows res rows = if res.has_result then rows % 2 ^ 32 else 0

-- MysqlRow. A row belongs to a result from fetch_row on.
pub record MysqlRow : Type 0 where
  pub result : Option MysqlResult
  pub row : List (List ℕ)

-- What is pushed back for a pointer and, where there are lengths, a length.
unfoldable pub read_cell : Option (List ℕ) → Option ℕ → Run (List ℕ)
read_cell none n = ok []
read_cell (some memory) none = ok (c_string memory)
read_cell (some memory) (some n) = do assert (leb n (length memory)); ok (take n memory)

-- `r[i]` with `l[i]`, for the next columns.
abbrev pub Cells : Type 0
Cells = List (Option (List ℕ) × Option ℕ)

-- The loop of fetch_row over `n` columns.
unfoldable pub read_cells : ℕ → Cells → Run (List (List ℕ))
read_cells zero cells = ok []
read_cells (suc n) [] = fault
read_cells (suc n) ((memory, len) ∷ cells) = do
  value ← read_cell memory len
  rest ← read_cells n cells
  ok (value ∷ rest)

abbrev pub is_filled : List (List ℕ) → Bool
is_filled [] = false
is_filled (v ∷ vs) = true

-- fetch_row: the result, and the row that it has filled.
unfoldable pub fetch_row : MysqlResult → Option Cells → Run (Bool × MysqlRow)
fetch_row res none = ok (false, record { result = some res; row = [] })
fetch_row res (some cells) =
    let filled = (do
      values ← read_cells (length res.fields) cells
      ok (is_filled values, record { result = some res; row = values })) in
    if res.has_result then filled else ok (false, record { result = some res; row = [] })

abbrev pub value_at : List (List ℕ) → ℕ → List ℕ
value_at [] i = []
value_at (v ∷ vs) zero = v
value_at (v ∷ vs) (suc i) = value_at vs i

-- get_string: null_string for an index out of range.
unfoldable pub get_string : MysqlRow → List ℕ → Run (List ℕ)
get_string r key = elim r.result [
  | none ↦ fault
  | some res ↦ elim (find_field res.fields key) [
    | none ↦ ok []
    | some i ↦ ok (if leb (length r.row) i then [] else value_at r.row i)
  ]
]

-- get_int; atoi is strtol to the base 10.
unfoldable pub get_int : MysqlRow → List ℕ → Run ℕ
get_int r key = do s ← get_string r key; ok (strtol s)
