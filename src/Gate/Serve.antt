-- ===== src/Gate/Serve.antt =====
-- What keeps a gate of service_gate.c whole; the data and the connects that a socket brings.
use myprogram.Prelude.{
  ℕ, ◌+◌, ◌^◌, ◌≤◌, ◌<◌, ◌≡◌, refl, sym, ap, ◌∙◌, inl, inr, none, some, List, [], ◌∷◌, arith, ◌==◌,
  Run, ok, length, update, ==_ne, ==-cases, Bool-cases, Option-cases, get-ok,
}
use myprogram.HashId.{lookup}
use myprogram.HashId.Lookup.{lookup-Located, Located-of_lookup}
use myprogram.DataBuffer.{DataBuffer, MessagePool}
use myprogram.DataBuffer.Invariant.{Cells, Holds, Untouched}
use myprogram.Gate.{Gate, Action, socket_close, send, text}
use myprogram.Gate.Socket.{
  SocketMessage, data_message, accept_message, on_data, on_connect, connected_line,
}
use myprogram.Gate.Delivery.{with_buffer, dispatch_message-Delivered}
use myprogram.Gate.Whole.{GateInv, IsWhole, Buffers-update}

-- What a socket message may bring: data with which the size of the buffer still fits an int; from
-- the listener, a new socket that is a small number.
abbrev pub Admits : Gate → SocketMessage → Type 0
Admits g (data_message id bytes) =
    (s : ℕ) → lookup g.hash id ≡ ok (some s) → (g.conn.cell s).buffer.size + length bytes < 2 ^ 31
Admits g (accept_message id ud name) =
    (g.listen_id ≡ id) × (g.hash.cap + ud ≤ 2 ^ 31) × (lookup g.hash ud ≡ ok none)
Admits g _ = Unit {0}

abbrev pub Serves : Run (Gate × List Action) → Type 0
Serves run = (g' : Gate) × (acts : List Action) × (run ≡ ok (g', acts)) × IsWhole g'

module _ {g : Gate} {chain : ℕ → List ℕ} {xs : ℕ → Cells} {fs : List ℕ}
    (v : GateInv g chain xs fs) where
  pub unchanged :
      (acts : List Action) (run : Run (Gate × List Action)) → run ≡ ok (g, acts) → Serves run
  unchanged acts run e = (g, acts, e, (chain, xs, fs, v))

  pub slot-lt : (id s : ℕ) → lookup g.hash id ≡ ok (some s) → s < g.conn.len
  slot-lt id s known = omega (arith, v.len, (Located-of_lookup v.table id (some s) known).0)

  -- A new buffer in the slot of a socket.
  pub with_buffer-GateInv :
      (id s : ℕ) (db : DataBuffer) (mp : MessagePool) (ys : Cells) (fs' : List ℕ)
      → lookup g.hash id ≡ ok (some s)
      → Holds db mp ys fs'
      → Untouched g.mp mp (xs s) fs ys fs'
      → GateInv (with_buffer g s (g.conn.cell s) db mp) chain (update xs s ys) fs'
  with_buffer-GateInv id s db mp ys fs' known held u = record {
    table = v.table;
    len = v.len;
    size = v.size;
    header_size = v.header_size;
    buffers =
        Buffers-update v.buffers s (slot-lt id s known) (record (g.conn.cell s) { buffer = db }) mp
          ys fs' held u;
    idle = λ t below alone. elim (==-cases t s) [
      | inl e ↦ absurd (alone id (known ∙ ap (λ q. ok (some q)) (sym e)))
      | inr ne ↦ rw (==_ne t s ne) (v.idle t below alone)
    ];
  }

  pub on_data-Serves :
      (id : ℕ) (bytes : List ℕ) → Admits g (data_message id bytes) → Serves (on_data g id bytes)
  unfolding on_data
  on_data-Serves id bytes fits =
      let (r, found, there) = lookup-Located v.table id in
      elim (Option-cases r) [
        | inl e ↦
            unchanged (socket_close id ∷ []) (on_data g id bytes)
              (rw (on_data, found ∙ ap ok e) refl)
        | inr (s, e) ↦
            let known : lookup g.hash id ≡ ok (some s) = found ∙ ap ok e in
            let (db, mp, ys, fs', sent, run, spec, held, u) =
              dispatch_message-Delivered g s id bytes (xs s) fs (slot-lt id s known) v.header_size
                (v.buffers.holds s (slot-lt id s known)) (fits s known) in
            (
              with_buffer g s (g.conn.cell s) db mp,
              sent,
              rw (on_data, known, run) refl,
              (chain, update xs s ys, fs', with_buffer-GateInv id s db mp ys fs' known held u),
            )
      ]

  pub on_connect-Serves : (id : ℕ) → Serves (on_connect g id)
  unfolding on_connect
  on_connect-Serves id = elim (Bool-cases (id == g.listen_id)) [
    | inl e ↦ unchanged [] (on_connect g id) (rw (on_connect, e) refl)
    | inr e ↦
        let (r, found, there) = lookup-Located v.table id in
        elim (Option-cases r) [
          | inl miss ↦
              unchanged (socket_close id ∷ []) (on_connect g id)
                (rw (on_connect, e, found ∙ ap ok miss) refl)
          | inr (s, hit) ↦
              let known : lookup g.hash id ≡ ok (some s) = found ∙ ap ok hit in
              unchanged (send 0 (g.conn.cell s).agent text 0 (connected_line id) ∷ [])
                (on_connect g id)
                (rw (on_connect, e, known, get-ok g.conn s (slot-lt id s known)) refl)
        ]
  ]
