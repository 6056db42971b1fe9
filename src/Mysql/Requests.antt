-- ===== src/Mysql/Requests.antt =====
-- MysqlClient.cpp: a client from its constructor over any requests to its destructor.
use myprogram.Prelude.{
  ℕ, ◌≡◌, refl, sym, ap, subst, ◌∙◌, ◌⊎◌, inl, inr, Bool, false, Option, none, some, List, ◌∷◌,
  Bool-cases, Option-cases, Run, ok,
}
use myprogram.CText.{c_string, strtol}
use myprogram.Mysql.Session.{
  Call, closed, made, timed, connected, encoded, pinged, queried, read_timeout, write_timeout,
  Library, Login, MysqlClient, encode, login, log_in, init_mysql_ctx, addressed, mysql_connect,
  revive, connect_with, mysql_reconnect, query, find_char, is_connected,
}
use myprogram.Mysql.Handles.{
  after, failures, IsTidy, use_IsTidy, closed-IsTidy, made-IsTidy, connected-IsTidy,
}

-- mysql_real_connect returns the handle that it was given, or NULL.
abbrev pub ConnectsSame : Library → Type 0
ConnectsSame lib =
    (calls : List Call) (h : ℕ) (to : Login)
    → (lib.real_connect calls h to ≡ none) ⊎ (lib.real_connect calls h to ≡ some h)

-- m_port is written, and the handles are in order.
abbrev pub IsReady : MysqlClient → ℕ → Type 0
IsReady c n = (port : ℕ) × (c.port ≡ some port) × IsTidy c.calls c.ctx n

-- The call returns a client that is ready.
abbrev pub Ready : Run MysqlClient → ℕ → Type 0
Ready r n = (c : MysqlClient) × (r ≡ ok c) × IsReady c n

encode-IsReady :
    (c : MysqlClient) (port n : ℕ) (answer : Option ℕ)
    → c.port ≡ some port
    → IsTidy c.calls answer n
    → IsReady (encode c answer) n
unfolding encode after failures
encode-IsReady c port n none e tidy = (port, e, tidy)
encode-IsReady c port n (some h) e tidy =
    (port, e, use_IsTidy (encoded h) c.calls h n (λ o. refl) refl tidy)

connect_with-IsReady :
    (lib : Library) (c : MysqlClient) (port n h : ℕ)
    → ConnectsSame lib
    → c.port ≡ some port
    → IsTidy c.calls (some h) n
    → Ready (connect_with lib c h (some port)) n
unfolding connect_with after failures
connect_with-IsReady lib c port n h same e tidy =
    let timed_once = use_IsTidy (timed h read_timeout 20) c.calls h n (λ o. refl) refl tidy in
    let calls = timed h read_timeout 20 ∷ c.calls in
    let timed_twice = use_IsTidy (timed h write_timeout 20) calls h n (λ o. refl) refl timed_once in
    let calls' = timed h write_timeout 20 ∷ calls in
    let answer = lib.real_connect calls' h (login c port) in
    let c' = record c { calls = connected h (login c port) answer ∷ calls' } in
    let tidy' =
      connected-IsTidy calls' h (login c port) answer n (same calls' h (login c port))
        timed_twice in
    (encode c' answer, refl, encode-IsReady c' port n answer e tidy')

log_in-IsReady :
    (lib : Library) (c : MysqlClient) (port n : ℕ) (handle : Option ℕ)
    → ConnectsSame lib
    → c.port ≡ some port
    → IsTidy c.calls handle n
    → Ready (log_in lib c handle) n
unfolding log_in
log_in-IsReady lib c port n none same e tidy = (record c { ctx = none }, refl, (port, e, tidy))
log_in-IsReady lib c port n (some h) same e tidy =
    let (c', out, ready) = connect_with-IsReady lib c port n h same e tidy in
    (c', ap (connect_with lib c h) e ∙ out, ready)

pub init_mysql_ctx-IsReady :
    (lib : Library) (c : MysqlClient) (n : ℕ)
    → ConnectsSame lib
    → IsReady c n
    → Ready (init_mysql_ctx lib c) n
unfolding init_mysql_ctx
init_mysql_ctx-IsReady lib c n same (port, e, tidy) =
    let calls = closed c.ctx ∷ c.calls in
    let handle = lib.init calls in
    log_in-IsReady lib (record c { calls = made handle ∷ calls }) port n handle same e
      (made-IsTidy calls handle n (closed-IsTidy c.calls c.ctx n tidy))

pinged-IsReady :
    (c : MysqlClient) (h n : ℕ)
    → c.ctx ≡ some h
    → IsReady c n
    → IsReady (record c { calls = pinged h ∷ c.calls }) n
unfolding after failures
pinged-IsReady c h n there (port, e, tidy) =
    let tidy' = subst (λ ctx. IsTidy c.calls ctx n) there tidy in
    let used = use_IsTidy (pinged h) c.calls h n (λ o. refl) refl tidy' in
    (port, e, subst (λ ctx. IsTidy (pinged h ∷ c.calls) ctx n) (sym there) used)

revive-IsReady :
    (lib : Library) (c : MysqlClient) (ctx : Option ℕ) (n : ℕ)
    → ConnectsSame lib
    → c.ctx ≡ ctx
    → IsReady c n
    → Ready (revive lib c ctx) n
unfolding revive
revive-IsReady lib c none n same there ready = init_mysql_ctx-IsReady lib c n same ready
revive-IsReady lib c (some h) n same there ready =
    let c1 = record c { calls = pinged h ∷ c.calls } in
    let ready1 = pinged-IsReady c h n there ready in
    elim (Bool-cases (lib.ping c.calls h)) [
      | inl alive ↦ (c1, rw alive refl, ready1)
      | inr dead ↦
          let (c', e, ready') = init_mysql_ctx-IsReady lib c1 n same ready1 in
          (c', rw dead e, ready')
    ]

pub mysql_reconnect-IsReady :
    (lib : Library) (c : MysqlClient) (n : ℕ)
    → ConnectsSame lib
    → IsReady c n
    → Ready (mysql_reconnect lib c) n
unfolding mysql_reconnect
mysql_reconnect-IsReady lib c n same ready = revive-IsReady lib c c.ctx n same refl ready

pub query-IsReady :
    (lib : Library) (c : MysqlClient) (ctx : Option ℕ) (sql : List ℕ) (n : ℕ)
    → c.ctx ≡ ctx
    → IsReady c n
    → IsReady (query lib c ctx sql).0 n
unfolding query after failures
query-IsReady lib c none sql n there ready = ready
query-IsReady lib c (some h) sql n there (port, e, tidy) =
    let tidy' = subst (λ ctx. IsTidy c.calls ctx n) there tidy in
    let used = use_IsTidy (queried h sql) c.calls h n (λ o. refl) refl tidy' in
    (port, e, subst (λ ctx. IsTidy (queried h sql ∷ c.calls) ctx n) (sym there) used)

pub mysql_connect-IsReady :
    (lib : Library) (c : MysqlClient) (ip_port user password database : List ℕ) (n : ℕ)
    → ConnectsSame lib
    → IsReady c n
    → (c' : MysqlClient) × (done : Bool) × (mysql_connect lib c ip_port user password database
        ≡ ok (c', done))
      × IsReady c' n
unfolding mysql_connect
mysql_connect-IsReady lib c ip_port user password database n same (port, e, tidy) =
    elim (Option-cases (find_char b':' ip_port)) [
      | inl missing ↦ (c, false, rw (missing, mysql_connect) refl, (port, e, tidy))
      | inr ((front, back), split) ↦
          let c0 = addressed c front back user password database in
          let (c', out, ready) =
            init_mysql_ctx-IsReady lib c0 n same (strtol (c_string back), refl, tidy) in
          (c', is_connected c', rw (split, out, mysql_connect) refl, ready)
    ]
