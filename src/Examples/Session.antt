-- ===== src/Examples/Session.antt =====
-- Clients of MysqlClient.cpp with libraries that give fixed answers.
use myprogram.Prelude.{
  ℕ, ◌≡◌, refl, ◌⊎◌, inl, inr, true, Option, none, some, List, [], ◌∷◌, ◌++◌, arith, ltb,
  if◌then◌else◌, Bool-cases, ok, length,
}
use myprogram.CText.{ascii, print_unsigned, decimal_digits}
use myprogram.Mysql.{Cells, read_cell}
use myprogram.Mysql.Columns.{Reads}
use myprogram.Mysql.Session.{
  Call, Login, queried, stored, Library, MysqlClient, mysql_client, destroy_client, mysql_exec,
  get_insert_id, find_char,
}
use myprogram.Mysql.Handles.{held, failures}
use myprogram.Mysql.Identity.{Answers}
use myprogram.Mysql.Lifetime.{
  Request, connect, reconnect, exec, affected, insert_id, perform_all, perform_all-held,
}
use myprogram.Mysql.Recovery.{IsUp, mysql_exec_recovers}
use myprogram.Mysql.InsertId.{GivesId, get_insert_id_given}

-- The first mysql_real_connect fails, and there are no results.
abbrev flaky : Library
flaky = record {
  init = λ calls. some (length calls);
  real_connect = λ calls h to. if ltb (length calls) 6 then none else some h;
  ping = λ calls h. true;
  real_query = λ calls h sql. true;
  affected_rows = λ calls h. 2;
  result_names = λ calls h. none;
  next_row = λ calls. none;
  escape = λ calls h from. from;
}

flaky-connects :
    (calls : List Call) (h : ℕ) (to : Login)
    → (flaky.real_connect calls h to ≡ none) ⊎ (flaky.real_connect calls h to ≡ some h)
flaky-connects calls h to = elim (Bool-cases (ltb (length calls) 6)) [
  | inl e ↦ inl (rw e refl)
  | inr e ↦ inr (rw e refl)
]

flaky-Answers : Answers flaky
flaky-Answers = record { connects = flaky-connects; rows = λ calls h. tt }

abbrev four_requests : List Request
four_requests = exec (1 ∷ []) ∷ affected ∷ insert_id ∷ reconnect ∷ []

perform_all-held_example :
    (c : MysqlClient) × (hs : List ℕ) × (perform_all flaky mysql_client
        (connect (ascii "db:3306") [] [] [] ∷ four_requests)
      ≡ ok c)
    × (held (destroy_client c).calls ≡ some (record { handles = hs; results = 0 }))
    × (length hs ≡ failures (destroy_client c).calls)
unfolding find_char
perform_all-held_example =
    perform_all-held flaky (ascii "db:3306") (ascii "db") (ascii "3306") [] [] [] four_requests
      flaky-Answers refl

-- Every connect succeeds; a query is answered by one row with the id 17. There is a result right after
-- a query alone, and a row right after the result is stored.
abbrev id_cells : Cells
id_cells = (some (ascii "17"), some 2) ∷ []

abbrev names_after : List Call → Option (List (List ℕ))
names_after [] = none
names_after (queried h sql ∷ calls) = some (ascii "id" ∷ [])
names_after (_ ∷ calls) = none

abbrev row_after : List Call → Option Cells
row_after [] = none
row_after (stored h true ∷ calls) = some id_cells
row_after (_ ∷ calls) = none

abbrev steady_library : Library
steady_library = record flaky {
  real_connect = λ calls h to. some h;
  result_names = λ calls h. names_after calls;
  next_row = row_after;
}

abbrev lost_client : MysqlClient
lost_client = record {
  ip = ascii "db";
  port = some 3306;
  database = [];
  user = [];
  password = [];
  ctx = none;
  calls = [];
}

steady_library-IsUp : (calls : List Call) → IsUp steady_library calls
steady_library-IsUp calls = record {
  makes = (length calls, refl);
  connects = λ h to. refl;
  takes = λ h sql. refl;
}

mysql_exec_recovers_example :
    (c' : MysqlClient) × (h : ℕ) × (before : List Call) × (mysql_exec steady_library lost_client
        (1 ∷ [])
      ≡ ok (c', true))
    × (c'.ctx ≡ some h)
    × (c'.calls ≡ queried h (1 ∷ []) ∷ before)
mysql_exec_recovers_example =
    mysql_exec_recovers steady_library lost_client 3306 (1 ∷ []) refl
      (λ more. steady_library-IsUp (more ++ []))

id_cells-Reads : Reads id_cells (print_unsigned 17 ∷ [])
unfolding read_cell print_unsigned decimal_digits
id_cells-Reads = (refl, tt)

steady_library-GivesId : (calls : List Call) → GivesId steady_library 17 calls
steady_library-GivesId calls = record {
  up = steady_library-IsUp calls;
  names = λ h. refl;
  row = λ h. (id_cells, refl, id_cells-Reads);
}

get_insert_id_given_example :
    (c' : MysqlClient) × (h : ℕ) × (get_insert_id steady_library lost_client ≡ ok (c', 17))
    × (c'.ctx ≡ some h)
get_insert_id_given_example =
    get_insert_id_given steady_library lost_client 3306 17 (omega arith) refl
      (λ more. steady_library-GivesId (more ++ []))
