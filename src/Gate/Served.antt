-- ===== src/Gate/Served.antt =====
-- The service from gate_init on, as the messages that skynet gives to _cb follow one another
-- (service_gate.c).
use myprogram.Prelude.{
  ℕ, ◌+◌, ◌-◌, ◌^◌, ◌≤◌, ◌<◌, ◌≡◌, refl, sym, ap, inl, inr, true, some, List, [], ◌∷◌, arith, ltb,
  leb, Run, ok, length, Bool-cases, Option-cases, ◌>>=◌, subst, lt→ltb, take, drop,
}
use myprogram.HashId.{HashId}
use myprogram.HashId.Init.{init-Inv}
use myprogram.HashId.Invariant.{Inv}
use myprogram.HashId.Lookup.{lookup-Located}
use myprogram.DataBuffer.Invariant.{empty_buffer-Holds}
use myprogram.CText.{strtol, strchr, skip_space, sign, strtoul10}
use myprogram.Gate.{Gate, Skynet, Action, client, closed, is_negative, socket_send}
use myprogram.Gate.Control.{start_listen, listen_at, bad_port}
use myprogram.Gate.Service.{
  gate_create, gate_init, Message, text_message, client_message, socket_message, other_message,
  on_client, low_first, cb, scan_word, starts_number, starts_closed,
}
use myprogram.Gate.Whole.{GateInv, IsWhole}
use myprogram.Gate.Serve.{Serves, Admits}
use myprogram.Gate.Handled.{dispatch_socket_message-IsWhole}
use myprogram.Gate.Texts.{AdmitsText, ctrl-IsWhole}

abbrev pub AdmitsMessage : Skynet → Gate → Message → Type 0
AdmitsMessage sk g (text_message msg) = AdmitsText sk g msg
AdmitsMessage sk g (socket_message m) = Admits g m
AdmitsMessage sk g _ = Unit {0}

abbrev pub Answers : Run (Gate × List Action × ℕ) → Type 0
Answers run = (g' : Gate) × (acts : List Action) × (r : ℕ) × (run ≡ ok (g', acts, r)) × IsWhole g'

on_client-Answers : (g : Gate) (msg : List ℕ) → IsWhole g → Answers (on_client g msg)
unfolding on_client
on_client-Answers g msg (chain, xs, fs, v) =
    let uid = low_first (drop (length msg - 4) msg) in
    let (r, found, there) = lookup-Located v.table uid in
    elim (Bool-cases (leb (length msg) 4)) [
      | inl short ↦ (g, [], 0, rw (on_client, short) refl, (chain, xs, fs, v))
      | inr long ↦ elim (Option-cases r) [
        | inl e ↦ (g, [], 0, rw (on_client, long, found, e) refl, (chain, xs, fs, v))
        | inr (s, e) ↦ (
          g,
          socket_send uid (take (length msg - 4) msg) ∷ [],
          1,
          rw (on_client, long, found, e) refl,
          (chain, xs, fs, v),
        )
      ]
    ]

answered :
    {run : Run (Gate × List Action)} → Serves run → Answers (run >>= λ (g', acts). ok (g', acts, 0))
answered (g', acts, run, whole) = (g', acts, 0, rw run refl, whole)

-- Every message that _cb is given, with a text or a socket message that brings what it may, to a
-- gate that is whole: _cb returns, and the gate is whole again.
pub cb-IsWhole :
    (sk : Skynet) (g : Gate) (m : Message) (source : ℕ)
    → IsWhole g
    → AdmitsMessage sk g m
    → Answers (cb sk g m source)
unfolding cb
cb-IsWhole sk g (text_message msg) source whole a = answered (ctrl-IsWhole sk g msg source whole a)
cb-IsWhole sk g (client_message msg) source whole a = on_client-Answers g msg whole
cb-IsWhole sk g (socket_message m) source whole a =
    answered (dispatch_socket_message-IsWhole g m whole a)
cb-IsWhole sk g other_message source whole a = (g, [], 0, refl, whole)

-- The states that a gate comes to. What skynet returns may differ from message to message.
pub data Served (g : Gate) : Gate → Type 0 where
  here : Served g g
  next :
      {g1 g2 : Gate} (sk : Skynet) (m : Message) (source : ℕ) (acts : List Action) (r : ℕ)
      → Served g g1
      → AdmitsMessage sk g1 m
      → cb sk g1 m source ≡ ok (g2, acts, r)
      → Served g g2

Served-IsWhole : {g g' : Gate} → IsWhole g → Served g g' → IsWhole g'
Served-IsWhole whole here = whole
Served-IsWhole whole (next {g1} {g2} sk m source acts r before a run) =
    let (g3, acts', r', run', whole') = cb-IsWhole sk g1 m source (Served-IsWhole whole before) a in
    let same : g3 ≡ g2 = cc (run, run') in subst IsWhole same whole'

-- The gate as gate_init has it in front of start_listen.
opened : (g : Gate) (t : HashId) (max watchdog : ℕ) → Gate
opened g t max watchdog = record g {
  watchdog = watchdog;
  hash = t;
  conn = record { len = max; cell = λ _. closed };
  max_connection = max;
  client_tag = client;
  header_size = 4;
}

opened-GateInv :
    (t : HashId) (max watchdog n : ℕ) (addr : List ℕ)
    → Inv t (λ _. [])
    → t.cap ≡ max
    → GateInv
        (record (opened gate_create t max watchdog) { listen_id = n; bind = addr })
        (λ _. [])
        (λ _. [])
        []
unfolding opened gate_create
opened-GateInv t max watchdog n addr v cap = record {
  table = v;
  len = sym cap;
  size = refl;
  header_size = refl;
  buffers = record {
    holds = λ s below. empty_buffer-Holds;
    apart = λ s u b below below' ne there. refl;
  };
  idle = λ s below alone. refl;
}

listen_at-listen_id :
    (sk : Skynet) (g : Gate) (host : List ℕ) (port : ℕ)
    → (n : ℕ) × ((listen_at sk g host port).0 ≡ record g { listen_id = n })
unfolding listen_at
listen_at-listen_id sk g host port = elim (Bool-cases (is_negative (sk.listen host port))) [
  | inl e ↦ rw e (sk.listen host port, refl)
  | inr e ↦ rw e (sk.listen host port, refl)
]

-- start_listen changes the listener at most.
start_listen-listen_id :
    (sk : Skynet) (g : Gate) (addr : List ℕ)
    → (n : ℕ) × ((start_listen sk g addr).0 ≡ record g { listen_id = n })
unfolding start_listen listen_at
start_listen-listen_id sk g addr = elim (Option-cases (strchr b':' addr)) [
  | inl e ↦ elim (Bool-cases (bad_port (strtol addr))) [
    | inl bad ↦ rw (start_listen, e, bad) (g.listen_id, refl)
    | inr good ↦ rw (start_listen, e, good) (listen_at-listen_id sk g [] (strtol addr))
  ]
  | inr ((host, port), e) ↦ elim (Bool-cases (bad_port (strtol port))) [
    | inl bad ↦ rw (start_listen, e, bad) (g.listen_id, refl)
    | inr good ↦ rw (start_listen, e, good) (listen_at-listen_id sk g host (strtol port))
  ]
]

-- What gate_init needs: an address and a number in its text, within 199 bytes, and at most 2 ^ 30
-- connections.
abbrev pub InitArguments : List ℕ → List ℕ → Type 0
InitArguments max_online parm =
    (0 < length (scan_word (skip_space parm)).0)
    × (starts_number (sign (skip_space (scan_word (skip_space parm)).1)).1 ≡ true)
    × (length parm < 200)
    × (strtol max_online ≤ 2 ^ 30)

-- The gate is whole, and has the number of the text as its watchdog.
pub gate_init-opened :
    (sk : Skynet) (max_online parm : List ℕ)
    → InitArguments max_online parm
    → (g : Gate) × (acts : List Action) × (r : ℕ) × (gate_init sk gate_create max_online (some parm)
        ≡ ok (g, acts, r))
      × IsWhole g
      × (g.watchdog ≡ strtoul10 (scan_word (skip_space parm)).1)
unfolding gate_init opened
gate_init-opened sk max_online parm (word, number, short, small) =
    let (binding, rest) = scan_word (skip_space parm) in
    let max = strtol max_online in
    let (t, d, run, v, cap, _, _, _) = init-Inv max small in
    let some_word : ltb 0 (length binding) ≡ true = lt→ltb 0 (length binding) word in
    let in_int : ltb max (2 ^ 31) ≡ true = lt→ltb max (2 ^ 31) (omega arith) in
    let in_bind : leb (length parm + 1) 200 ≡ true = ground arith in
    let g = opened gate_create t max (strtoul10 rest) in
    elim (Bool-cases (starts_closed binding)) [
      | inl e ↦ (
        g,
        [],
        0,
        rw (gate_init, some_word, number, in_int, run, e) refl,
        (λ _. [], λ _. [], [], opened-GateInv t max (strtoul10 rest) g.listen_id g.bind v cap),
        refl,
      )
      | inr e ↦
          let (g'', addr, acts, ret) = start_listen sk (record g { bind = binding }) binding in
          let (n, same) = start_listen-listen_id sk (record g { bind = binding }) binding in
          (
            g'',
            acts,
            ret,
            rw (gate_init, some_word, number, in_int, run, e, in_bind) refl,
            subst IsWhole (sym same)
                (λ _. [], λ _. [], [], opened-GateInv t max (strtoul10 rest) n binding v cap),
            ap (λ (h : Gate). h.watchdog) same,
          )
    ]

-- gate_init with such arguments returns a gate that is whole.
pub gate_init-IsWhole :
    (sk : Skynet) (max_online parm : List ℕ)
    → InitArguments max_online parm
    → Answers (gate_init sk gate_create max_online (some parm))
gate_init-IsWhole sk max_online parm args =
    let (g, acts, r, run, whole, _) = gate_init-opened sk max_online parm args in
    (g, acts, r, run, whole)

-- From the gate that gate_init has returned with such arguments, over any messages that bring what
-- they may, with what skynet returns free for gate_init and for each message: _cb answers any other
-- such message without a fault, and leaves the gate whole.
pub gate_init-Served :
    (sk0 sk : Skynet) (max_online parm : List ℕ) (g g' : Gate) (acts : List Action) (r : ℕ)
    (m : Message) (source : ℕ)
    → InitArguments max_online parm
    → gate_init sk0 gate_create max_online (some parm) ≡ ok (g, acts, r)
    → Served g g'
    → AdmitsMessage sk g' m
    → Answers (cb sk g' m source)
gate_init-Served sk0 sk max_online parm g g' acts r m source args run way a =
    let (g0, acts', r', run', whole) = gate_init-IsWhole sk0 max_online parm args in
    let same : g0 ≡ g = cc (run, run') in
    cb-IsWhole sk g' m source (Served-IsWhole (subst IsWhole same whole) way) a
