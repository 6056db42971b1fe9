-- ===== src/Mysql/Handles.antt =====
-- MysqlClient.cpp: which handles and results of the library a client holds.
use myprogram.Prelude.{
  ℕ, suc, ◌+◌, ◌≡◌, refl, sym, ap, ◌∙◌, ◌⊎◌, inl, inr, true, false, Option, none, some, List, [],
  ◌∷◌, arith, if◌then◌else◌, ltb, ◌-◌, length, length-erase, has, erase, ==_refl,
}
use myprogram.Mysql.Session.{
  Call, closed, made, timed, connected, encoded, pinged, queried, counted, stored, fetched, freed,
  Login,
}

-- The handles that the library has made and not closed, and the number of its results that are not
-- freed.
pub record Held : Type 0 where
  pub handles : List ℕ
  pub results : ℕ

-- A use of a handle.
abbrev pub uses : ℕ → Held → Option Held
uses h o = if has h o.handles then some o else none

-- What is held after a call, or none if the call must not be made.
unfoldable pub after : Call → Held → Option Held
after (closed none) o = some o
after (closed (some h)) o =
    if has h o.handles then some (record o { handles = erase h o.handles }) else none
after (made none) o = some o
after (made (some h)) o = some (record o { handles = h ∷ o.handles })
after (timed h which seconds) o = uses h o
after (connected h to answer) o = uses h o
after (encoded h) o = uses h o
after (pinged h) o = uses h o
after (queried h sql) o = uses h o
after (counted h) o = uses h o
after (stored h true) o =
    if has h o.handles then some (record o { results = o.results + 1 }) else none
after (stored h false) o = uses h o
after fetched o = if ltb 0 o.results then some o else none
after freed o = if ltb 0 o.results then some (record o { results = o.results - 1 }) else none

unfoldable pub held : List Call → Option Held
unfolding after
held [] = some (record { handles = []; results = 0 })
held (call ∷ calls) = elim (held calls) [ none ↦ none | some o ↦ after call o ]

-- How many times mysql_real_connect has failed.
unfoldable pub failures : List Call → ℕ
failures [] = 0
failures (connected h to none ∷ calls) = suc (failures calls)
failures (_ ∷ calls) = failures calls

-- The client's handle is one of those that it holds.
abbrev pub Owns : Option ℕ → List ℕ → Type 0
Owns none hs = Unit {0}
Owns (some h) hs = has h hs ≡ true

abbrev pub count : Option ℕ → ℕ
count none = 0
count (some h) = 1

-- Each call used what was held then. Now `n` results are held and, beside the client's own handle,
-- one for each failed mysql_real_connect.
abbrev pub IsTidy : List Call → Option ℕ → ℕ → Type 0
IsTidy calls ctx n =
    (hs : List ℕ) × (held calls ≡ some (record { handles = hs; results = n }))
    × Owns ctx hs
    × (length hs ≡ failures calls + count ctx)

held-step :
    (call : Call) (calls : List Call) (o : Held) (o' : Held)
    → held calls ≡ some o
    → after call o ≡ some o'
    → held (call ∷ calls) ≡ some o'
unfolding held
held-step call calls o o' e f = rw (e, f, held) refl

-- A call that only uses the client's handle.
pub use_IsTidy :
    (call : Call) (calls : List Call) (h n : ℕ)
    → ((o : Held) → after call o ≡ uses h o)
    → failures (call ∷ calls) ≡ failures calls
    → IsTidy calls (some h) n
    → IsTidy (call ∷ calls) (some h) n
use_IsTidy call calls h n same fails (hs, e, own, size) =
    let o : Held = record { handles = hs; results = n } in
    (hs, held-step call calls o o e (same o ∙ rw own refl), own, size ∙ ap (λ k. k + 1) (sym fails))

pub closed-IsTidy :
    (calls : List Call) (ctx : Option ℕ) (n : ℕ)
    → IsTidy calls ctx n
    → IsTidy (closed ctx ∷ calls) none n
unfolding after failures
closed-IsTidy calls none n (hs, e, own, size) =
    let o : Held = record { handles = hs; results = n } in
    (hs, held-step (closed none) calls o o e refl, tt, size)
closed-IsTidy calls (some h) n (hs, e, own, size) =
    let o : Held = record { handles = hs; results = n } in
    let o' : Held = record { handles = erase h hs; results = n } in
    (
      erase h hs,
      held-step (closed (some h)) calls o o' e (rw own refl),
      tt,
      omega (arith, length-erase h hs own),
    )

pub made-IsTidy :
    (calls : List Call) (answer : Option ℕ) (n : ℕ)
    → IsTidy calls none n
    → IsTidy (made answer ∷ calls) answer n
unfolding after failures
made-IsTidy calls none n (hs, e, own, size) =
    let o : Held = record { handles = hs; results = n } in
    (hs, held-step (made none) calls o o e refl, tt, size)
made-IsTidy calls (some h) n (hs, e, own, size) =
    let o : Held = record { handles = hs; results = n } in
    let o' : Held = record { handles = h ∷ hs; results = n } in
    (h ∷ hs, held-step (made (some h)) calls o o' e refl, rw (==_refl h) refl, omega arith)

handle_same :
    (h h' : ℕ)
    → (some h' ≡ none) ⊎ (some h' ≡ some h)
    → (hs : List ℕ) → has h hs ≡ true
    → has h' hs ≡ true
handle_same h h' (inl e) hs own = cc
handle_same h h' (inr e) hs own = cc

pub connected-IsTidy :
    (calls : List Call) (h : ℕ) (to : Login) (answer : Option ℕ) (n : ℕ)
    → (answer ≡ none) ⊎ (answer ≡ some h)
    → IsTidy calls (some h) n
    → IsTidy (connected h to answer ∷ calls) answer n
unfolding after failures
connected-IsTidy calls h to none n same (hs, e, own, size) =
    let o : Held = record { handles = hs; results = n } in
    (hs, held-step (connected h to none) calls o o e (rw own refl), tt, omega arith)
connected-IsTidy calls h to (some h') n same (hs, e, own, size) =
    let o : Held = record { handles = hs; results = n } in
    (
      hs,
      held-step (connected h to (some h')) calls o o e (rw own refl),
      handle_same h h' same hs own,
      size,
    )

pub stored-IsTidy :
    (calls : List Call) (h n : ℕ)
    → IsTidy calls (some h) n
    → IsTidy (stored h true ∷ calls) (some h) (n + 1)
unfolding after failures
stored-IsTidy calls h n (hs, e, own, size) =
    let o : Held = record { handles = hs; results = n } in
    let o' : Held = record { handles = hs; results = n + 1 } in
    (hs, held-step (stored h true) calls o o' e (rw own refl), own, size)

pub fetched-IsTidy :
    (calls : List Call) (ctx : Option ℕ) (n : ℕ)
    → IsTidy calls ctx (n + 1)
    → IsTidy (fetched ∷ calls) ctx (n + 1)
unfolding after failures
fetched-IsTidy calls ctx n (hs, e, own, size) =
    let o : Held = record { handles = hs; results = n + 1 } in
    (hs, held-step fetched calls o o e (ground arith), own, size)

pub freed-IsTidy :
    (calls : List Call) (ctx : Option ℕ) (n : ℕ)
    → IsTidy calls ctx (n + 1)
    → IsTidy (freed ∷ calls) ctx n
unfolding after failures
freed-IsTidy calls ctx n (hs, e, own, size) =
    let o : Held = record { handles = hs; results = n + 1 } in
    let o' : Held = record { handles = hs; results = n } in
    (hs, held-step freed calls o o' e (ground arith), own, size)
