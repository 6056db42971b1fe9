-- ===== src/Gate/Commands.antt =====
-- The text commands of service_gate.c on a gate that is whole: they end, and leave a gate that is.
use myprogram.Prelude.{
  ℕ, ◌<◌, ◌≡◌, refl, sym, ap, ◌∙◌, inl, inr, true, some, List, [], ◌∷◌, ◌++◌, arith, ◌==◌, ok,
  update, ==_ne, ==-cases, Bool-cases, Option-cases, subst, get-ok, put-ok, drop,
}
use myprogram.HashId.{minus_one}
use myprogram.HashId.Lookup.{lookup-Located}
use myprogram.CText.{strtol, strsep, strtoul16, strchr}
use myprogram.DataBuffer.Invariant.{Cells}
use myprogram.Gate.{Gate, Skynet, Action, is_negative, socket_close, socket_start}
use myprogram.Gate.Control.{
  forward_agent, kick, set_forward, start, close, listen, start_listen, listen_at, bad_port,
}
use myprogram.Gate.Whole.{GateInv, IsWhole, Buffers-update}
use myprogram.Gate.Serve.{Serves, unchanged, slot-lt}

-- listen changes the listener and the address, or nothing.
abbrev Listens : Gate → Gate × List Action → Type 0
Listens g (g', acts) = (n : ℕ) × (addr : List ℕ) × (g' ≡ record g { listen_id = n; bind = addr })

listen_at-Listens :
    (sk : Skynet) (g : Gate) (host addr : List ℕ) (port : ℕ)
    → let (g', acts, ret) = listen_at sk g host port in Listens g (record g' { bind = addr }, acts)
unfolding listen_at
listen_at-Listens sk g host addr port = elim (Bool-cases (is_negative (sk.listen host port))) [
  | inl e ↦ rw e (sk.listen host port, addr, refl)
  | inr e ↦ rw e (sk.listen host port, addr, refl)
]

listen-Listens : (sk : Skynet) (g : Gate) → Listens g (listen sk g)
unfolding listen start_listen
listen-Listens sk g = elim (Option-cases (strchr b':' g.bind)) [
  | inl e ↦ elim (Bool-cases (bad_port (strtol g.bind))) [
    | inl bad ↦ rw (listen, start_listen, e, bad) (g.listen_id, g.bind, refl)
    | inr good ↦
        rw (listen, start_listen, e, good) (listen_at-Listens sk g [] g.bind (strtol g.bind))
  ]
  | inr ((host, port), e) ↦ elim (Bool-cases (bad_port (strtol port))) [
    | inl bad ↦ rw (listen, start_listen, e, bad) (g.listen_id, g.bind, refl)
    | inr good ↦ rw (listen, start_listen, e, good) (listen_at-Listens sk g host host (strtol port))
  ]
]

module _ {g : Gate} {chain : ℕ → List ℕ} {xs : ℕ → Cells} {fs : List ℕ}
    (v : GateInv g chain xs fs) where
  pub kick-Serves : (command : List ℕ) → Serves (kick g command)
  unfolding kick
  kick-Serves command =
      let (r, found, there) = lookup-Located v.table (strtol command) in
      elim (Option-cases r) [
        | inl e ↦ unchanged v [] (kick g command) (rw (kick, found, e) refl)
        | inr (s, e) ↦
            unchanged v (socket_close (strtol command) ∷ []) (kick g command)
              (rw (kick, found, e) refl)
      ]

  pub start-Serves : (command : List ℕ) → Serves (start g command)
  unfolding start
  start-Serves command =
      let (r, found, there) = lookup-Located v.table (strtol command) in
      elim (Option-cases r) [
        | inl e ↦ unchanged v [] (start g command) (rw (start, found, e) refl)
        | inr (s, e) ↦
            unchanged v (socket_start (strtol command) ∷ []) (start g command)
              (rw (start, found, e) refl)
      ]

  -- The agent and the client of a connection are no part of what makes the gate whole.
  pub agent-GateInv :
      (s agent client : ℕ)
      → s < g.conn.len
      → GateInv
          (record g {
            conn = record g.conn {
              cell =
                  update g.conn.cell s (record (g.conn.cell s) { agent = agent; client = client });
            };
          })
          chain
          (update xs s (xs s))
          fs
  agent-GateInv s agent client at = record {
    table = v.table;
    len = v.len;
    size = v.size;
    header_size = v.header_size;
    buffers =
        Buffers-update v.buffers s at (record (g.conn.cell s) { agent = agent; client = client })
          g.mp (xs s) fs (v.buffers.holds s at) (omega arith, λ b h f l. (refl, h, f));
    idle = λ t below alone. elim (==-cases t s) [
      | inl e ↦
          let same : (t == s) ≡ true = ground (arith, e) in
          rw same (v.idle s at (λ j there. alone j (there ∙ ap (λ q. ok (some q)) (sym e))))
      | inr ne ↦ rw (==_ne t s ne) (v.idle t below alone)
    ];
  }

  -- forward_agent ends; the gate it leaves is whole.
  forward_agent-IsWhole :
      (fd agent client : ℕ) → (g' : Gate) × (forward_agent g fd agent client ≡ ok g') × IsWhole g'
  unfolding forward_agent
  forward_agent-IsWhole fd agent client =
      let (r, found, there) = lookup-Located v.table fd in
      elim (Option-cases r) [
        | inl e ↦ (g, rw (forward_agent, found, e) refl, (chain, xs, fs, v))
        | inr (s, e) ↦
            let at = slot-lt v fd s (found ∙ ap ok e) in
            let c = record (g.conn.cell s) { agent = agent; client = client } in
            (
              record g { conn = record g.conn { cell = update g.conn.cell s c } },
              rw (forward_agent, found, e, get-ok g.conn s at, put-ok g.conn s c at) refl,
              (chain, update xs s (xs s), fs, agent-GateInv s agent client at),
            )
      ]

  pub set_forward-Serves : (tmp : List ℕ) → Serves (set_forward g tmp)
  unfolding set_forward
  set_forward-Serves tmp = elim (Option-cases (strsep tmp).1) [
    | inl e ↦ unchanged v [] (set_forward g tmp) (rw (set_forward, e) refl)
    | inr (rest, e) ↦ elim (Option-cases (strsep rest).1) [
      | inl f ↦ unchanged v [] (set_forward g tmp) (rw (set_forward, e, f) refl)
      | inr (client, f) ↦
          let (g', run, whole) =
            forward_agent-IsWhole (strtol (strsep tmp).0)
              (strtoul16 (drop 1 ((strsep rest).0 ++ 0 ∷ client))) (strtoul16 (drop 1 client)) in
          (g', [], rw (set_forward, e, f, run) refl, whole)
    ]
  ]

  pub broker-GateInv : (n : ℕ) → GateInv (record g { broker = n }) chain xs fs
  broker-GateInv n = record {
    table = v.table;
    len = v.len;
    size = v.size;
    header_size = v.header_size;
    buffers = v.buffers;
    idle = v.idle;
  }

  listener-GateInv :
      (n : ℕ) (addr : List ℕ) → GateInv (record g { listen_id = n; bind = addr }) chain xs fs
  listener-GateInv n addr = record {
    table = v.table;
    len = v.len;
    size = v.size;
    header_size = v.header_size;
    buffers = v.buffers;
    idle = v.idle;
  }

  pub close-Serves : Serves (ok (close g))
  unfolding close
  close-Serves = elim (Bool-cases (is_negative g.listen_id)) [
    | inl e ↦ rw (close, e) (g, [], refl, (chain, xs, fs, v))
    | inr e ↦
        rw (close, e)
          (
            record g { listen_id = minus_one },
            socket_close g.listen_id ∷ [],
            refl,
            (chain, xs, fs, listener-GateInv minus_one g.bind),
          )
  ]

  pub listen-Serves : (sk : Skynet) → Serves (ok (listen sk g))
  listen-Serves sk =
      let (n, addr, e) = listen-Listens sk g in
      (
        (listen sk g).0,
        (listen sk g).1,
        refl,
        (chain, xs, fs, subst (λ h. GateInv h chain xs fs) (sym e) (listener-GateInv n addr)),
      )
