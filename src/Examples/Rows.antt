-- ===== src/Examples/Rows.antt =====
-- Rows of MysqlClient.cpp: a table with the columns `a` and `b`, and one whose columns are both `a`.
use myprogram.Prelude.{◌<◌, ◌≡◌, refl, true, some, [], ◌∷◌, ok}
use myprogram.Mysql.{Cells, MysqlRow, store_result, read_cell, fetch_row, get_string}
use myprogram.Mysql.Columns.{Reads, fetch_row-get_string}
use myprogram.Mysql.Duplicates.{get_string-repeated}

abbrev two_cells : Cells
two_cells = (some (1 ∷ 2 ∷ []), some 2) ∷ (some (3 ∷ 4 ∷ []), some 1) ∷ []

two_cells-Reads : Reads two_cells ((1 ∷ 2 ∷ []) ∷ (3 ∷ []) ∷ [])
unfolding read_cell
two_cells-Reads = (refl, (refl, tt))

fetch_row-get_string_example :
    (fetch_row (store_result (some ((b'a' ∷ []) ∷ (b'b' ∷ []) ∷ []))) (some two_cells)
      ≡ ok (
        true,
        record {
          result = some (store_result (some ((b'a' ∷ []) ∷ (b'b' ∷ []) ∷ [])));
          row = (1 ∷ 2 ∷ []) ∷ (3 ∷ []) ∷ [];
        },
      ))
    × (get_string
          (record {
            result = some (store_result (some ((b'a' ∷ []) ∷ (b'b' ∷ []) ∷ [])));
            row = (1 ∷ 2 ∷ []) ∷ (3 ∷ []) ∷ [];
          })
          (b'b' ∷ [])
        ≡ ok (3 ∷ []))
fetch_row-get_string_example =
    fetch_row-get_string ((b'a' ∷ []) ∷ []) [] (b'b' ∷ []) two_cells ((1 ∷ 2 ∷ []) ∷ (3 ∷ []) ∷ [])
      ((refl, tt), (tt, tt)) two_cells-Reads refl

abbrev cut_row : MysqlRow
cut_row = record {
  result = some (store_result (some ((b'a' ∷ []) ∷ (b'a' ∷ []) ∷ [])));
  row = (1 ∷ 2 ∷ []) ∷ [];
}

get_string-repeated_example :
    (fetch_row (store_result (some ((b'a' ∷ []) ∷ (b'a' ∷ []) ∷ []))) (some two_cells)
      ≡ ok (true, cut_row))
    × (1 < 2)
    × (get_string cut_row (b'a' ∷ []) ≡ ok [])
get_string-repeated_example =
    get_string-repeated [] (b'a' ∷ []) [] two_cells ((1 ∷ 2 ∷ []) ∷ (3 ∷ []) ∷ []) two_cells-Reads
      refl
