-- ===== src/Mysql/InsertId.antt =====
-- MysqlClient.cpp: get_insert_id once the server is up.
use myprogram.Prelude.{ℕ, ◌^◌, ◌<◌, ◌≡◌, refl, ap, ◌∙◌, true, some, List, [], ◌∷◌, ok}
use myprogram.CText.{ascii, print_unsigned}
use myprogram.CText.Decimal.{strtol-print_unsigned}
use myprogram.Mysql.{Cells, store_result, get_int}
use myprogram.Mysql.Columns.{Reads, fetch_row-get_string}
use myprogram.Mysql.Session.{
  Call, queried, stored, fetched, freed, Library, MysqlClient, identity_query, open_with,
  open_result, fetch_next, row_id, destroy_result, read_id, get_insert_id,
}
use myprogram.Mysql.Recovery.{IsUp, Steady, executed}

-- The server is up. After the query for the id on a handle there is a result with the one column
-- `id`, and the first row that is fetched once this result is stored is the number `n` in decimal.
pub record GivesId (lib : Library) (n : ℕ) (calls : List Call) : Type 0 where
  pub up : IsUp lib calls
  pub names :
      (h : ℕ) → lib.result_names (queried h identity_query ∷ calls) h ≡ some (ascii "id" ∷ [])
  pub row :
      (h : ℕ)
      → (cells : Cells) × (lib.next_row (stored h true ∷ queried h identity_query ∷ calls)
          ≡ some cells)
        × Reads cells (print_unsigned n ∷ [])

id_from_row :
    (lib : Library) (c : MysqlClient) (h n : ℕ) (before : List Call)
    → n < 2 ^ 32
    → c.ctx ≡ some h
    → c.calls ≡ queried h identity_query ∷ before
    → GivesId lib n before
    → (c' : MysqlClient) × (read_id lib (open_result lib c c.ctx) ≡ ok (c', n)) × (c'.ctx ≡ some h)
unfolding read_id open_result open_with fetch_next row_id destroy_result store_result get_int
id_from_row lib c h n before small there last gives =
    let names : List (List ℕ) = ascii "id" ∷ [] in
    let c1 = record c { calls = stored h true ∷ c.calls } in
    let (cells, given_there, reads) = gives.row h in
    let given : lib.next_row (stored h true ∷ c.calls) ≡ some cells =
      ap (λ q. lib.next_row (stored h true ∷ q)) last ∙ given_there in
    let named : lib.result_names c.calls h ≡ some names =
      ap (λ q. lib.result_names q h) last ∙ gives.names h in
    let (filled, value) =
      fetch_row-get_string [] [] (ascii "id") cells (print_unsigned n ∷ []) (tt, tt) reads refl in
    let opened : open_result lib c c.ctx ≡ (c1, store_result (some names)) =
      ap (open_result lib c) there ∙ ap (open_with c h) named in
    let parsed = strtol-print_unsigned n small in
    (
      record c { calls = freed ∷ fetched ∷ stored h true ∷ c.calls },
      ap (read_id lib) opened
          ∙ rw (given, filled, value, read_id, fetch_next, get_int) (rw parsed refl),
      there,
    )

-- get_insert_id of a client that has an address, whatever has become of its connection: once the
-- server takes connections and queries, and answers each query for the id by a result whose first
-- row is the number, it returns the number, below 2 ^ 32 and as a 32-bit pattern, and the client has
-- a connection.
pub get_insert_id_given :
    (lib : Library) (c : MysqlClient) (port n : ℕ)
    → n < 2 ^ 32
    → c.port ≡ some port
    → Steady (GivesId lib n) c.calls
    → (c' : MysqlClient) × (h : ℕ) × (get_insert_id lib c ≡ ok (c', n)) × (c'.ctx ≡ some h)
unfolding get_insert_id
get_insert_id_given lib c port n small e steady =
    let (c1, h, before, done, there, last, steady1) =
      executed lib (GivesId lib n) (λ calls given. given.up) c port identity_query e steady in
    let (c', out, there') = id_from_row lib c1 h n before small there last (steady1 []) in
    (c', h, rw (done, get_insert_id) out, there')
