-- ===== src/Epoll/Rounds.antt =====
-- The loop of epoll_test/server.cpp over the events, as long as no read fails and none is long.
use myprogram.Prelude.{
  ℕ, ◌^◌, ◌-◌, ◌≤◌, ◌≡◌, refl, sym, ap, subst, ◌∙◌, inl, inr, Bool, true, false, some, List, [],
  ◌∷◌, arith, ◌==◌, if◌then◌else◌, Run, ok, ◌>>=◌, length, Bool-cases,
}
use myprogram.Epoll.{
  Call, Kernel, Event, Server, read, is_negative, zeros, start, set_up, on_listen, on_readable,
  on_event, on_events, serve,
}
use myprogram.Epoll.Line.{
  IsLine, overwritten, fits, shown, outcome, on_readable-outcome, overwritten-IsLine,
}

-- No read fails, and none gives more than 248 bytes.
abbrev pub ReadsShort : Kernel → Type 0
ReadsShort k =
    (calls : List Call) (fd : ℕ)
    → (bytes : List ℕ) × (k.read calls fd ≡ some bytes) × (length bytes ≤ 248)

abbrev GoesOn : Run Server → Type 0
GoesOn r = (s : Server) × (r ≡ ok s) × IsLine s.line

closing-line :
    (s : Server) (fd : ℕ) (bytes : List ℕ) → (shown s fd bytes).line ≡ overwritten bytes s.line
closing-line s fd [] = refl
closing-line s fd (c ∷ cs) = refl

on_readable-GoesOn :
    (k : Kernel) (s : Server) (fd : ℕ) → ReadsShort k → IsLine s.line → GoesOn (on_readable k s fd)
on_readable-GoesOn k s fd short v =
    let (bytes, e, small) = short s.calls fd in
    let s1 = record s { calls = read fd ∷ s.calls } in
    let good : fits bytes ≡ true = ground arith in
    let run : on_readable k s fd ≡ ok (shown s1 fd bytes) =
      on_readable-outcome k s fd v ∙ ap (outcome s1 fd) e ∙ rw good refl in
    (
      shown s1 fd bytes,
      run,
      subst IsLine (sym (closing-line s1 fd bytes)) (overwritten-IsLine bytes s.line v small),
    )

on_listen-line : (k : Kernel) (s : Server) → (on_listen k s).line ≡ s.line
unfolding on_listen
on_listen-line k s = ground arith

on_event-GoesOn :
    (k : Kernel) (s : Server) (e : Event) → ReadsShort k → IsLine s.line → GoesOn (on_event k s e)
unfolding on_event
on_event-GoesOn k s e short v = elim (Bool-cases (e.fd == s.listenfd)) [
  | inl listens ↦ rw listens (on_listen k s, refl, subst IsLine (sym (on_listen-line k s)) v)
  | inr client ↦ elim (Bool-cases e.epollin) [
    | inl there ↦ elim (Bool-cases (is_negative e.fd)) [
      | inl negative ↦ rw (client, there, negative) (s, refl, v)
      | inr positive ↦ rw (client, there, positive) (on_readable-GoesOn k s e.fd short v)
    ]
    | inr other ↦ rw (client, other) (s, refl, v)
  ]
]

on_events-GoesOn :
    (k : Kernel) (s : Server) (events : List Event)
    → ReadsShort k
    → IsLine s.line
    → GoesOn (on_events k s events)
unfolding on_events
on_events-GoesOn k s [] short v = (s, refl, v)
on_events-GoesOn k s (e ∷ events) short v =
    let (s1, run1, v1) = on_event-GoesOn k s e short v in
    let (s', run, v') = on_events-GoesOn k s1 events short v1 in
    let rest = on_event k s e >>= λ s2. on_events k s2 events in
    let after : rest ≡ ok s' = rw run1 run in
    elim (Bool-cases s.is_running) [
      | inl running ↦ (s', ap (λ b. if b then rest else ok s) running ∙ after, v')
      | inr exited ↦ (s, ap (λ b. if b then rest else ok s) exited, v)
    ]

serve-GoesOn :
    (k : Kernel) (s : Server) (batches : List (List Event))
    → ReadsShort k
    → IsLine s.line
    → GoesOn (serve k s batches)
unfolding serve
serve-GoesOn k s [] short v = (s, refl, v)
serve-GoesOn k s (events ∷ batches) short v =
    let (s1, run1, v1) = on_events-GoesOn k s events short v in
    let (s', run, v') = serve-GoesOn k s1 batches short v1 in (s', rw run1 run, v')

pub start-IsLine : (listenfd : ℕ) → IsLine (start listenfd).line
unfolding start zeros
start-IsLine listenfd = (refl, refl)

set_up-start :
    (listenfd : ℕ) (bound listening : Bool) (s : Server)
    → set_up listenfd bound listening ≡ some s
    → s ≡ start listenfd
unfolding set_up
set_up-start listenfd true true s e = elim (Bool-cases (listenfd == 2 ^ 32 - 1)) [
  | inl missing ↦ let e' = rw missing at e in cc (e')
  | inr there ↦ let e' = rw there at e in cc (e')
]
set_up-start listenfd true false s e = absurd (ground (arith, e))
set_up-start listenfd false listening s e = absurd (ground (arith, e))

-- Once socket, bind and listen have succeeded, over any events of any calls of epoll_wait, with any
-- answers of accept: as long as no read fails or gives more than 248 bytes, the loop stays within
-- its array, whose last byte stays 0.
pub serve-IsLine :
    (k : Kernel) (listenfd : ℕ) (bound listening : Bool) (s : Server) (batches : List (List Event))
    → ReadsShort k
    → set_up listenfd bound listening ≡ some s
    → (s' : Server) × (serve k s batches ≡ ok s') × IsLine s'.line
serve-IsLine k listenfd bound listening s batches short e =
    let v =
      subst (λ (t : Server). IsLine t.line) (sym (set_up-start listenfd bound listening s e))
        (start-IsLine listenfd) in
    serve-GoesOn k s batches short v
