-- ===== src/Mysql/Identity.antt =====
-- MysqlClient.cpp: the handles and the results over mysql_exec and get_insert_id.
use myprogram.Prelude.{
  ℕ, ◌≡◌, refl, sym, subst, Bool, true, false, Option, none, some, List, ◌∷◌, if◌then◌else◌, Run,
  ok, ◌>>=◌, is_null,
}
use myprogram.Mysql.{MysqlResult, store_result}
use myprogram.Mysql.Fitting.{FitsIn, fetch_row-FitsIn, get_int_returns}
use myprogram.Mysql.Session.{
  Call, stored, fetched, freed, Library, MysqlClient, query, mysql_exec, open_with, open_result,
  read_id, destroy_result, fetch_next, row_id, get_insert_id, identity_query,
}
use myprogram.Mysql.Handles.{
  after, failures, IsTidy, use_IsTidy, stored-IsTidy, fetched-IsTidy, freed-IsTidy,
}
use myprogram.Mysql.Requests.{ConnectsSame, IsReady, Ready, mysql_reconnect-IsReady, query-IsReady}

-- What the library is documented to answer: mysql_real_connect returns its handle or NULL, and a row
-- has a value for each field of its result.
pub record Answers (lib : Library) : Type 0 where
  pub connects : ConnectsSame lib
  pub rows :
      (calls : List Call) (h : ℕ)
      → FitsIn (lib.result_names calls h) (lib.next_row (stored h true ∷ calls))

abbrev pub client_of {ℓ} : {A : Type ℓ} → Run (MysqlClient × A) → Run MysqlClient
client_of r = r >>= λ out. ok out.0

pub mysql_exec-IsReady :
    (lib : Library) (c : MysqlClient) (sql : List ℕ) (n : ℕ)
    → ConnectsSame lib
    → IsReady c n
    → (c' : MysqlClient) × (done : Bool) × (mysql_exec lib c sql ≡ ok (c', done)) × IsReady c' n
unfolding mysql_exec
mysql_exec-IsReady lib c sql n same ready =
    let (c1, e, ready1) = mysql_reconnect-IsReady lib c n same ready in
    let (c', done) = query lib c1 c1.ctx sql in
    (c', done, rw (e, mysql_exec) refl, query-IsReady lib c1 c1.ctx sql n refl ready1)

row_id_returns :
    (found : Bool) (res : MysqlResult) (values : List (List ℕ))
    → (id : ℕ) × (row_id found (record { result = some res; row = values }) ≡ ok id)
unfolding row_id
row_id_returns false res values = (_, refl)
row_id_returns true res values = get_int_returns res values _

-- A result is read and freed.
id_read :
    (lib : Library) (c : MysqlClient) (names : Option (List (List ℕ)))
    → FitsIn names (lib.next_row c.calls)
    → (id : ℕ) × (read_id lib (c, store_result names)
        ≡ ok ((if is_null names then c else record c { calls = freed ∷ fetched ∷ c.calls }), id))
unfolding read_id fetch_next destroy_result store_result
id_read lib c none fits =
    let (found, values, e) = fetch_row-FitsIn none (lib.next_row c.calls) fits in
    let (id, f) = row_id_returns found (store_result none) values in
    (id, rw (e, f, read_id, fetch_next) refl)
id_read lib c (some names) fits =
    let (found, values, e) = fetch_row-FitsIn (some names) (lib.next_row c.calls) fits in
    let (id, f) = row_id_returns found (store_result (some names)) values in
    (id, rw (e, f, read_id, fetch_next) refl)

opened-IsReady :
    (lib : Library) (c : MysqlClient) (h n : ℕ) (names : Option (List (List ℕ)))
    → FitsIn names (lib.next_row (stored h true ∷ c.calls))
    → c.ctx ≡ some h
    → IsReady c n
    → Ready (client_of (read_id lib (open_with c h names))) n
unfolding open_with after failures
opened-IsReady lib c h n none fits there (port, e, tidy) =
    let c1 = record c { calls = stored h false ∷ c.calls } in
    let tidy' = subst (λ ctx. IsTidy c.calls ctx n) there tidy in
    let used = use_IsTidy (stored h false) c.calls h n (λ o. refl) refl tidy' in
    let (id, out) = id_read lib c1 none tt in
    (
      c1,
      rw out refl,
      (port, e, subst (λ ctx. IsTidy (stored h false ∷ c.calls) ctx n) (sym there) used),
    )
opened-IsReady lib c h n (some names) fits there (port, e, tidy) =
    let c1 = record c { calls = stored h true ∷ c.calls } in
    let tidy' = subst (λ ctx. IsTidy c.calls ctx n) there tidy in
    let open_now = stored-IsTidy c.calls h n tidy' in
    let read = fetched-IsTidy c1.calls (some h) n open_now in
    let done = freed-IsTidy (fetched ∷ c1.calls) (some h) n read in
    let (id, out) = id_read lib c1 (some names) fits in
    (
      record c { calls = freed ∷ fetched ∷ stored h true ∷ c.calls },
      rw out refl,
      (port, e, subst (λ ctx. IsTidy (freed ∷ fetched ∷ c1.calls) ctx n) (sym there) done),
    )

id_from-IsReady :
    (lib : Library) (c : MysqlClient) (ctx : Option ℕ) (n : ℕ)
    → Answers lib
    → c.ctx ≡ ctx
    → IsReady c n
    → Ready (client_of (read_id lib (open_result lib c ctx))) n
unfolding open_result
id_from-IsReady lib c none n answers there ready =
    let (id, out) = id_read lib c none tt in (c, rw out refl, ready)
id_from-IsReady lib c (some h) n answers there ready =
    opened-IsReady lib c h n (lib.result_names c.calls h) (answers.rows c.calls h) there ready

pub insert_id-IsReady :
    (lib : Library) (c : MysqlClient) (n : ℕ)
    → Answers lib
    → IsReady c n
    → Ready (client_of (get_insert_id lib c)) n
unfolding get_insert_id
insert_id-IsReady lib c n answers ready =
    let (c1, done, e, ready1) = mysql_exec-IsReady lib c identity_query n answers.connects ready in
    let (c', out, ready') = id_from-IsReady lib c1 c1.ctx n answers refl ready1 in
    (c', rw (e, get_insert_id) out, ready')
