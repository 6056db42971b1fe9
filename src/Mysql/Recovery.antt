-- ===== src/Mysql/Recovery.antt =====
-- MysqlClient.cpp: mysql_exec once the server is up, and without an address.
use myprogram.Prelude.{
  ℕ, ◌≡◌, refl, ap, subst, append_assoc, ◌∙◌, inl, inr, true, false, Option, none, some, List, [],
  ◌∷◌, ◌++◌, Bool-cases, Run, ok, fault,
}
use myprogram.Mysql.Session.{
  Call, closed, made, timed, connected, encoded, pinged, queried, read_timeout, write_timeout,
  Library, Login, MysqlClient, mysql_client, encode, login, connect_with, log_in, init_mysql_ctx,
  find_char, mysql_connect, revive, mysql_reconnect, query, mysql_exec,
}

-- The server takes connections and queries.
pub record IsUp (lib : Library) (calls : List Call) : Type 0 where
  pub makes : (h : ℕ) × (lib.init calls ≡ some h)
  pub connects : (h : ℕ) (to : Login) → lib.real_connect calls h to ≡ some h
  pub takes : (h : ℕ) (sql : List ℕ) → lib.real_query calls h sql ≡ true

-- It holds from these calls on.
abbrev pub Steady : (List Call → Type 0) → List Call → Type 0
Steady P calls = (more : List Call) → P (more ++ calls)

pub Steady-step :
    (P : List Call → Type 0) (call : Call) (calls : List Call)
    → Steady P calls
    → Steady P (call ∷ calls)
Steady-step P call calls steady more =
    subst P (append_assoc more (call ∷ []) calls) (steady (more ++ call ∷ []))

module _ (lib : Library) (P : List Call → Type 0)
    (up : (calls : List Call) → P calls → IsUp lib calls) where
  -- The client has a handle.
  abbrev Linked : Run MysqlClient → Type 0
  Linked r = (c : MysqlClient) × (h : ℕ) × (r ≡ ok c) × (c.ctx ≡ some h) × Steady P c.calls

  logged_in :
      (c : MysqlClient) (port h : ℕ) → Steady P c.calls → Linked (connect_with lib c h (some port))
  unfolding connect_with encode
  logged_in c port h steady =
      let once = Steady-step P (timed h read_timeout 20) c.calls steady in
      let calls = timed h write_timeout 20 ∷ timed h read_timeout 20 ∷ c.calls in
      let twice =
        Steady-step P (timed h write_timeout 20) (timed h read_timeout 20 ∷ c.calls) once in
      let answer = (up calls (twice [])).connects h (login c port) in
      let done = connected h (login c port) (some h) ∷ calls in
      (
        encode (record c { calls = done }) (some h),
        h,
        rw answer refl,
        refl,
        Steady-step P (encoded h) done
            (Steady-step P (connected h (login c port) (some h)) calls twice),
      )

  initialised :
      (c : MysqlClient) (port : ℕ)
      → c.port ≡ some port
      → Steady P c.calls
      → Linked (init_mysql_ctx lib c)
  unfolding init_mysql_ctx log_in
  initialised c port e steady =
      let once = Steady-step P (closed c.ctx) c.calls steady in
      let (h, answer) = (up (closed c.ctx ∷ c.calls) (once [])).makes in
      let handle = lib.init (closed c.ctx ∷ c.calls) in
      let twice = Steady-step P (made handle) (closed c.ctx ∷ c.calls) once in
      let c1 = record c { calls = made handle ∷ closed c.ctx ∷ c.calls } in
      let (c', h', out, there, steady') = logged_in c1 port h twice in
      (c', h', ap (log_in lib c1) answer ∙ ap (connect_with lib c1 h) e ∙ out, there, steady')

  revived :
      (c : MysqlClient) (ctx : Option ℕ) (port : ℕ)
      → c.port ≡ some port
      → c.ctx ≡ ctx
      → Steady P c.calls
      → Linked (revive lib c ctx)
  unfolding revive
  revived c none port e same steady = initialised c port e steady
  revived c (some h) port e same steady =
      let c1 = record c { calls = pinged h ∷ c.calls } in
      let once = Steady-step P (pinged h) c.calls steady in
      elim (Bool-cases (lib.ping c.calls h)) [
        | inl alive ↦ (c1, h, rw alive refl, same, once)
        | inr dead ↦
            let (c', h', out, there, steady') = initialised c1 port e once in
            (c', h', rw dead out, there, steady')
      ]

  pub executed :
      (c : MysqlClient) (port : ℕ) (sql : List ℕ)
      → c.port ≡ some port
      → Steady P c.calls
      → (c' : MysqlClient) × (h : ℕ) × (before : List Call) × (mysql_exec lib c sql ≡ ok (c', true))
        × (c'.ctx ≡ some h)
        × (c'.calls ≡ queried h sql ∷ before)
        × Steady P before
  unfolding mysql_exec mysql_reconnect query
  executed c port sql e steady =
      let (c1, h, out, there, steady1) = revived c c.ctx port e refl steady in
      let answer = (up c1.calls (steady1 [])).takes h sql in
      let c' = record c1 { calls = queried h sql ∷ c1.calls } in
      (
        c',
        h,
        c1.calls,
        rw (out, mysql_exec, mysql_reconnect)
            (ap ok (ap (λ ctx. query lib c1 ctx sql) there ∙ ap (λ b. (c', b)) answer)),
        there,
        refl,
        steady1,
      )

-- mysql_exec of a client that has an address, whatever has become of its connection: once the server
-- takes connections and queries, it returns true, with the query made as the last call on the
-- client's handle.
pub mysql_exec_recovers :
    (lib : Library) (c : MysqlClient) (port : ℕ) (sql : List ℕ)
    → c.port ≡ some port
    → Steady (IsUp lib) c.calls
    → (c' : MysqlClient) × (h : ℕ) × (before : List Call) × (mysql_exec lib c sql ≡ ok (c', true))
      × (c'.ctx ≡ some h)
      × (c'.calls ≡ queried h sql ∷ before)
mysql_exec_recovers lib c port sql e up =
    let (c', h, before, out, there, last, _) =
      executed lib (IsUp lib) (λ calls u. u) c port sql e up in
    (c', h, before, out, there, last)

-- A client that has no address since its mysql_connect found no colon: mysql_connect returns false,
-- and a mysql_exec for which the library makes a handle reads m_port, which nothing has written.
pub mysql_exec_unaddressed :
    (lib : Library) (ip_port user password database sql : List ℕ) (h : ℕ)
    → find_char b':' ip_port ≡ none
    → lib.init (closed none ∷ []) ≡ some h
    → (mysql_connect lib mysql_client ip_port user password database ≡ ok (mysql_client, false))
      × (mysql_exec lib mysql_client sql ≡ fault)
unfolding mysql_connect mysql_exec mysql_client mysql_reconnect revive init_mysql_ctx log_in
    connect_with
mysql_exec_unaddressed lib ip_port user password database sql h missing makes =
    (rw (missing, mysql_connect) refl, rw (makes, log_in) refl)
