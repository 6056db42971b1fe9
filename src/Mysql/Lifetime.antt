-- ===== src/Mysql/Lifetime.antt =====
-- MysqlClient.cpp: a client from its constructor over any requests to its destructor.
use myprogram.Prelude.{
  ℕ, ◌≡◌, refl, sym, subst, inl, inr, Option, none, some, List, [], ◌∷◌, arith, length,
  Option-cases, Run, ok, ◌>>=◌,
}
use myprogram.CText.{c_string, strtol}
use myprogram.Mysql.Session.{
  counted, Library, MysqlClient, mysql_client, destroy_client, addressed, mysql_connect,
  mysql_reconnect, mysql_exec, count_affected, mysql_last_affected_rows, get_insert_id, find_char,
}
use myprogram.Mysql.Handles.{after, held, failures, IsTidy, use_IsTidy, closed-IsTidy}
use myprogram.Mysql.Identity.{Answers, client_of, mysql_exec-IsReady, insert_id-IsReady}
use myprogram.Mysql.Requests.{
  ConnectsSame, IsReady, Ready, init_mysql_ctx-IsReady, mysql_connect-IsReady,
  mysql_reconnect-IsReady,
}

-- A call of one of the public functions.
pub data Request : Type 0 where
  connect : List ℕ → List ℕ → List ℕ → List ℕ → Request
  reconnect : Request
  exec : List ℕ → Request
  affected : Request
  insert_id : Request

unfoldable pub perform : Library → MysqlClient → Request → Run MysqlClient
perform lib c (connect ip_port user password database) =
    client_of (mysql_connect lib c ip_port user password database)
perform lib c reconnect = mysql_reconnect lib c
perform lib c (exec sql) = client_of (mysql_exec lib c sql)
perform lib c affected = client_of (mysql_last_affected_rows lib c)
perform lib c insert_id = client_of (get_insert_id lib c)

unfoldable pub perform_all : Library → MysqlClient → List Request → Run MysqlClient
perform_all lib c [] = ok c
perform_all lib c (request ∷ requests) = do c1 ← perform lib c request; perform_all lib c1 requests

count_affected-IsReady :
    (lib : Library) (c : MysqlClient) (ctx : Option ℕ) (n : ℕ)
    → c.ctx ≡ ctx
    → IsReady c n
    → IsReady (count_affected lib c ctx).0 n
unfolding count_affected after failures
count_affected-IsReady lib c none n there ready = ready
count_affected-IsReady lib c (some h) n there (port, e, tidy) =
    let tidy' = subst (λ ctx. IsTidy c.calls ctx n) there tidy in
    let used = use_IsTidy (counted h) c.calls h n (λ o. refl) refl tidy' in
    (port, e, subst (λ ctx. IsTidy (counted h ∷ c.calls) ctx n) (sym there) used)

affected_rows-IsReady :
    (lib : Library) (c : MysqlClient) (n : ℕ)
    → ConnectsSame lib
    → IsReady c n
    → Ready (client_of (mysql_last_affected_rows lib c)) n
unfolding mysql_last_affected_rows
affected_rows-IsReady lib c n same ready =
    let (c1, e, ready1) = mysql_reconnect-IsReady lib c n same ready in
    (
      (count_affected lib c1 c1.ctx).0,
      rw (e, mysql_last_affected_rows) refl,
      count_affected-IsReady lib c1 c1.ctx n refl ready1,
    )

perform-IsReady :
    (lib : Library) (c : MysqlClient) (request : Request) (n : ℕ)
    → Answers lib
    → IsReady c n
    → Ready (perform lib c request) n
unfolding perform
perform-IsReady lib c (connect ip_port user password database) n answers ready =
    let (c', done, e, ready') =
      mysql_connect-IsReady lib c ip_port user password database n answers.connects ready in
    (c', rw e refl, ready')
perform-IsReady lib c reconnect n answers ready =
    mysql_reconnect-IsReady lib c n answers.connects ready
perform-IsReady lib c (exec sql) n answers ready =
    let (c', done, e, ready') = mysql_exec-IsReady lib c sql n answers.connects ready in
    (c', rw e refl, ready')
perform-IsReady lib c affected n answers ready =
    affected_rows-IsReady lib c n answers.connects ready
perform-IsReady lib c insert_id n answers ready = insert_id-IsReady lib c n answers ready

perform_all-IsReady :
    (lib : Library) (c : MysqlClient) (requests : List Request) (n : ℕ)
    → Answers lib
    → IsReady c n
    → Ready (perform_all lib c requests) n
unfolding perform_all
perform_all-IsReady lib c [] n answers ready = (c, refl, ready)
perform_all-IsReady lib c (request ∷ requests) n answers ready =
    let (c1, e, ready1) = perform-IsReady lib c request n answers ready in
    let (c', out, ready') = perform_all-IsReady lib c1 requests n answers ready1 in
    (c', rw (e, perform_all) out, ready')

first_connect :
    (lib : Library) (ip_port front back user password database : List ℕ)
    → Answers lib
    → find_char b':' ip_port ≡ some (front, back)
    → Ready (perform lib mysql_client (connect ip_port user password database)) 0
unfolding perform mysql_connect mysql_client held failures
first_connect lib ip_port front back user password database answers split =
    let c = addressed mysql_client front back user password database in
    let (c', e, ready) =
      init_mysql_ctx-IsReady lib c 0 answers.connects
        (strtol (c_string back), refl, ([], refl, tt, refl)) in
    (c', rw (split, e, perform, mysql_connect) refl, ready)

destroyed : (c : MysqlClient) → IsTidy c.calls c.ctx 0 → IsTidy (destroy_client c).calls none 0
unfolding destroy_client
destroyed c tidy = elim (Option-cases c.ctx) [
  | inl e ↦ rw (e, destroy_client) (subst (λ ctx. IsTidy c.calls ctx 0) e tidy)
  | inr (h, e) ↦
      rw (e, destroy_client)
        (closed-IsTidy c.calls (some h) 0 (subst (λ ctx. IsTidy c.calls ctx 0) e tidy))
]

-- A client that is made, connects to `host:port`, and then does any requests, with a library that
-- answers as it is documented: every request returns, and when the client is destroyed, every call
-- that it has made was of a handle or a result that it held then, all results are freed, and exactly
-- as many handles are left open as there were failed calls of mysql_real_connect.
pub perform_all-held :
    (lib : Library) (ip_port front back user password database : List ℕ) (requests : List Request)
    → Answers lib
    → find_char b':' ip_port ≡ some (front, back)
    → (c : MysqlClient) × (hs : List ℕ) × (perform_all lib mysql_client
          (connect ip_port user password database ∷ requests)
        ≡ ok c)
      × (held (destroy_client c).calls ≡ some (record { handles = hs; results = 0 }))
      × (length hs ≡ failures (destroy_client c).calls)
unfolding perform_all
perform_all-held lib ip_port front back user password database requests answers split =
    let (c1, e, ready1) =
      first_connect lib ip_port front back user password database answers split in
    let (c, out, (port, _, tidy)) = perform_all-IsReady lib c1 requests 0 answers ready1 in
    let (hs, now, _, size) = destroyed c tidy in
    (c, hs, rw (e, perform_all) out, now, omega (arith, size))
