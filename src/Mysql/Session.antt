-- ===== src/Mysql/Session.antt =====
-- mysql_api_test/MysqlClient.h and MysqlClient.cpp: MysqlClient, its connection and its queries.
-- What the client library answers is a parameter, `Library`: each of its functions may look at all
-- calls made before. The client keeps the calls that it has made of the library, the last one
-- first, with the answers that decide which handles there are.
use myprogram.Prelude.{
  ℕ, ◌+◌, ◌-◌, ◌*◌, ◌%◌, ◌^◌, Bool, true, false, Option, none, some, List, [], ◌∷◌, ◌++◌, leb, ◌==◌,
  if◌then◌else◌, is_null, Run, ok, fault, ◌>>=◌, ◌>>◌, assert, length,
}
use myprogram.CText.{ascii, c_string, strtol}
use myprogram.Mysql.{MysqlResult, MysqlRow, Cells, store_result, fetch_row, get_int}

-- The arguments of mysql_real_connect.
pub record Login : Type 0 where
  pub host : List ℕ
  pub user : List ℕ
  pub password : List ℕ
  pub database : List ℕ
  pub port : ℕ

pub data Timeout : Type 0 where
  read_timeout : Timeout
  write_timeout : Timeout

-- A call of the library. A handle is a number; `none` is NULL.
pub data Call : Type 0 where
  closed : Option ℕ → Call
  made : Option ℕ → Call
  timed : ℕ → Timeout → ℕ → Call
  connected : ℕ → Login → Option ℕ → Call
  encoded : ℕ → Call
  pinged : ℕ → Call
  queried : ℕ → List ℕ → Call
  counted : ℕ → Call
  stored : ℕ → Bool → Call
  fetched : Call
  freed : Call

-- The answers: of mysql_init, mysql_real_connect, whether mysql_ping and mysql_real_query give 0,
-- mysql_affected_rows, the names of the fields of mysql_store_result's result, mysql_fetch_row with
-- mysql_fetch_lengths, and what mysql_real_escape_string writes.
pub record Library : Type 0 where
  pub init : List Call → Option ℕ
  pub real_connect : List Call → ℕ → Login → Option ℕ
  pub ping : List Call → ℕ → Bool
  pub real_query : List Call → ℕ → List ℕ → Bool
  pub affected_rows : List Call → ℕ → ℕ
  pub result_names : List Call → ℕ → Option (List (List ℕ))
  pub next_row : List Call → Option Cells
  pub escape : List Call → ℕ → List ℕ → List ℕ

-- MysqlClient. `port` is none as long as nothing has written m_port.
pub record MysqlClient : Type 0 where
  pub ip : List ℕ
  pub port : Option ℕ
  pub database : List ℕ
  pub user : List ℕ
  pub password : List ℕ
  pub ctx : Option ℕ
  pub calls : List Call

-- The constructor.
unfoldable pub mysql_client : MysqlClient
mysql_client = record {
  ip = [];
  port = none;
  database = [];
  user = [];
  password = [];
  ctx = none;
  calls = [];
}

-- The destructor.
unfoldable pub destroy_client : MysqlClient → MysqlClient
destroy_client c = if is_null c.ctx then c else record c { calls = closed c.ctx ∷ c.calls }

abbrev pub login : MysqlClient → ℕ → Login
login c port = record {
  host = c_string c.ip;
  user = c_string c.user;
  password = c_string c.password;
  database = c_string c.database;
  port = port;
}

-- The character set, if there is a connection.
unfoldable pub encode : MysqlClient → Option ℕ → MysqlClient
encode c none = record c { ctx = none }
encode c (some h) = record c { ctx = some h; calls = encoded h ∷ c.calls }

-- mysql_options and mysql_real_connect. m_port is an argument, and has no value before it is
-- written.
unfoldable pub connect_with : Library → MysqlClient → ℕ → Option ℕ → Run MysqlClient
connect_with lib c h none = fault
connect_with lib c h (some port) =
    let calls = timed h write_timeout 20 ∷ timed h read_timeout 20 ∷ c.calls in
    let answer = lib.real_connect calls h (login c port) in
    ok (encode (record c { calls = connected h (login c port) answer ∷ calls }) answer)

-- init_mysql_ctx behind mysql_init.
unfoldable pub log_in : Library → MysqlClient → Option ℕ → Run MysqlClient
log_in lib c none = ok (record c { ctx = none })
log_in lib c (some h) = connect_with lib c h c.port

unfoldable pub init_mysql_ctx : Library → MysqlClient → Run MysqlClient
init_mysql_ctx lib c =
    let calls = closed c.ctx ∷ c.calls in
    let handle = lib.init calls in log_in lib (record c { calls = made handle ∷ calls }) handle

-- `s.find(d)` of a string: what stands in front of the character, and what behind it.
unfoldable pub find_char : ℕ → List ℕ → Option (List ℕ × List ℕ)
find_char d [] = none
find_char d (c ∷ cs) =
    let rest : Option (List ℕ × List ℕ) = elim (find_char d cs) [
      | none ↦ none
      | some (front, back) ↦ some (c ∷ front, back)
    ] in
    if c == d then some ([], cs) else rest

-- The fields that mysql_connect writes.
abbrev pub addressed : MysqlClient → List ℕ → List ℕ → List ℕ → List ℕ → List ℕ → MysqlClient
addressed c front back user password database = record c {
  ip = front;
  port = some (strtol (c_string back));
  database = database;
  user = user;
  password = password;
}

abbrev pub is_connected : MysqlClient → Bool
is_connected c = if is_null c.ctx then false else true

unfoldable pub mysql_connect :
    Library → MysqlClient → List ℕ → List ℕ → List ℕ → List ℕ → Run (MysqlClient × Bool)
mysql_connect lib c ip_port user password database = elim (find_char b':' ip_port) [
  | none ↦ ok (c, false)
  | some (front, back) ↦ do
    c1 ← init_mysql_ctx lib (addressed c front back user password database)
    ok (c1, is_connected c1)
]

-- A ping that finds a connection keeps it.
unfoldable pub revive : Library → MysqlClient → Option ℕ → Run MysqlClient
revive lib c none = init_mysql_ctx lib c
revive lib c (some h) =
    let c1 = record c { calls = pinged h ∷ c.calls } in
    let again = init_mysql_ctx lib c1 in if lib.ping c.calls h then ok c1 else again

-- What mysql_reconnect returns is the new `ctx`.
unfoldable pub mysql_reconnect : Library → MysqlClient → Run MysqlClient
mysql_reconnect lib c = revive lib c c.ctx

-- The query, if there is a connection.
unfoldable pub query : Library → MysqlClient → Option ℕ → List ℕ → MysqlClient × Bool
query lib c none sql = (c, false)
query lib c (some h) sql =
    (record c { calls = queried h sql ∷ c.calls }, lib.real_query c.calls h sql)

unfoldable pub mysql_exec : Library → MysqlClient → List ℕ → Run (MysqlClient × Bool)
mysql_exec lib c sql = do c1 ← mysql_reconnect lib c; ok (query lib c1 c1.ctx sql)

-- The number of rows as a uint32_t.
unfoldable pub count_affected : Library → MysqlClient → Option ℕ → MysqlClient × ℕ
count_affected lib c none = (c, 0)
count_affected lib c (some h) =
    (record c { calls = counted h ∷ c.calls }, lib.affected_rows c.calls h % 2 ^ 32)

unfoldable pub mysql_last_affected_rows : Library → MysqlClient → Run (MysqlClient × ℕ)
mysql_last_affected_rows lib c = do c1 ← mysql_reconnect lib c; ok (count_affected lib c1 c1.ctx)

-- mysql_store_result, with the names of the fields if there is a result.
unfoldable pub open_with : MysqlClient → ℕ → Option (List (List ℕ)) → MysqlClient × MysqlResult
open_with c h none = (record c { calls = stored h false ∷ c.calls }, store_result none)
open_with c h (some names) =
    (record c { calls = stored h true ∷ c.calls }, store_result (some names))

-- The constructor of MysqlResult with handle().
unfoldable pub open_result : Library → MysqlClient → Option ℕ → MysqlClient × MysqlResult
open_result lib c none = (c, store_result none)
open_result lib c (some h) = open_with c h (lib.result_names c.calls h)

-- The destructor of MysqlResult.
unfoldable pub destroy_result : MysqlClient → MysqlResult → MysqlClient
destroy_result c res = if res.has_result then record c { calls = freed ∷ c.calls } else c

-- fetch_row with the row that the library gives.
unfoldable pub fetch_next :
    Library → MysqlClient → MysqlResult → Run (MysqlClient × Bool × MysqlRow)
fetch_next lib c res = do
  (found, row) ← fetch_row res (lib.next_row c.calls)
  ok (if res.has_result then record c { calls = fetched ∷ c.calls } else c, found, row)

-- `-1`, or the field `id` of the row.
unfoldable pub row_id : Bool → MysqlRow → Run ℕ
row_id false row = ok (2 ^ 32 - 1)
row_id true row = get_int row (ascii "id")

abbrev pub identity_query : List ℕ
identity_query = ascii "select  @@IDENTITY as id;"

-- The row of a result and its field, and then the destructors.
unfoldable pub read_id : Library → MysqlClient × MysqlResult → Run (MysqlClient × ℕ)
read_id lib (c, res) = do
  (c1, found, row) ← fetch_next lib c res
  id ← row_id found row
  ok (destroy_result c1 res, id)

unfoldable pub get_insert_id : Library → MysqlClient → Run (MysqlClient × ℕ)
get_insert_id lib c = do
  (c1, _) ← mysql_exec lib c identity_query
  read_id lib (open_result lib c1 c1.ctx)

unfoldable pub mysql_string : Library → List ℕ → MysqlClient → Run (List ℕ)
mysql_string lib from c = elim c.ctx [
  | none ↦ ok []
  | some h ↦ do
    let written = lib.escape c.calls h from
    assert (leb (length written + 1) (2 * length from + 1))
    ok (c_string (written ++ 0 ∷ []))
]
