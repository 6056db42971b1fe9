-- ===== src/Gate/Turnover.antt =====
-- Sockets that come and go, on a gate that is whole (service_gate.c).
use myprogram.Prelude.{
  ℕ, ◌<◌, ◌≡◌, refl, sym, ap, ◌∙◌, inl, inr, true, Option, none, some, List, [], ◌∷◌, arith, ◌==◌,
  if◌then◌else◌, ok, update, ==_refl, ==_ne, ==-cases, Bool-cases, Option-cases, get-ok, put-ok,
}
use myprogram.HashId.{HashId, lookup, full, remove}
use myprogram.HashId.Invariant.{Inv}
use myprogram.HashId.Inserted.{insert-Inv}
use myprogram.HashId.Removal.{remove-Inv}
use myprogram.DataBuffer.{MessagePool, empty_buffer}
use myprogram.DataBuffer.Invariant.{Cells, Holds, Untouched}
use myprogram.DataBuffer.Clear.{databuffer_clear-Holds}
use myprogram.Gate.{Gate, closed, socket_close}
use myprogram.Gate.Socket.{accept_message, on_close, on_accept, report, close_line, accept_line}
use myprogram.Gate.Sessions.{kept_name}
use myprogram.Gate.Whole.{GateInv, Buffers-update}
use myprogram.Gate.Serve.{Admits, Serves, unchanged, slot-lt}

module _ {g : Gate} {chain : ℕ → List ℕ} {xs : ℕ → Cells} {fs : List ℕ}
    (v : GateInv g chain xs fs) where
  -- The table without an id that it did not have.
  missed-GateInv :
      (id : ℕ) (t' : HashId) (chain' : ℕ → List ℕ)
      → Inv t' chain'
      → t'.cap ≡ g.hash.cap
      → lookup g.hash id ≡ ok none
      → ((j : ℕ) (r : Option ℕ)
          → lookup g.hash j ≡ ok r
          → lookup t' j ≡ ok (if j == id then none else r))
      → GateInv (record g { hash = t' }) chain' xs fs
  missed-GateInv id t' chain' w cap missed after = record {
    table = w;
    len = v.len ∙ sym cap;
    size = v.size;
    header_size = v.header_size;
    buffers = v.buffers;
    idle = λ s below alone. v.idle s below (λ j held. elim (==-cases j id) [
      | inl e ↦ cc (e, held, missed)
      | inr ne ↦
          alone j
            (after j (some s) held ∙ ap (λ b. ok (if b then none else some s)) (==_ne j id ne))
    ]);
  }

  -- The slot of a socket is given up.
  left-GateInv :
      (id s : ℕ) (t' : HashId) (chain' : ℕ → List ℕ) (mp : MessagePool) (fs' : List ℕ)
      → Inv t' chain'
      → t'.cap ≡ g.hash.cap
      → lookup g.hash id ≡ ok (some s)
      → ((j : ℕ) (r : Option ℕ)
          → lookup g.hash j ≡ ok r
          → lookup t' j ≡ ok (if j == id then none else r))
      → Holds empty_buffer mp [] fs'
      → Untouched g.mp mp (xs s) fs [] fs'
      → GateInv
          (record g {
            hash = t';
            mp = mp;
            conn = record g.conn { cell = update g.conn.cell s closed };
          })
          chain'
          (update xs s [])
          fs'
  left-GateInv id s t' chain' mp fs' w cap known after held u = record {
    table = w;
    len = v.len ∙ sym cap;
    size = v.size;
    header_size = v.header_size;
    buffers = Buffers-update v.buffers s (slot-lt v id s known) closed mp [] fs' held u;
    idle = λ t below alone. elim (==-cases t s) [
      | inl e ↦ let same : (t == s) ≡ true = ground (arith, e) in rw same refl
      | inr ne ↦ rw (==_ne t s ne) (
          v.idle t below (λ j there. elim (==-cases j id) [
            | inl e ↦ ne (cc (e, there, known))
            | inr nj ↦
                alone j (
                  after j (some t) there
                  ∙ ap (λ b. ok (if b then none else some t)) (==_ne j id nj))
          ]))
    ];
  }

  pub on_close-Serves : (id : ℕ) → Serves (on_close g id)
  unfolding on_close report
  on_close-Serves id =
      let ((t', r), run, (chain', w, before, cap, count, after)) = remove-Inv v.table id in
      elim (Option-cases r) [
        | inl e ↦
            let run' : remove g.hash id ≡ ok (t', none) = run ∙ ap (λ q. ok (t', q)) e in
            (
              record g { hash = t' },
              [],
              rw run' refl,
              (chain', xs, fs, missed-GateInv id t' chain' w cap (before ∙ ap ok e) after),
            )
        | inr (s, e) ↦
            let run' : remove g.hash id ≡ ok (t', some s) = run ∙ ap (λ q. ok (t', q)) e in
            let known : lookup g.hash id ≡ ok (some s) = before ∙ ap ok e in
            let at = slot-lt v id s known in
            let (mp', fs', cleared, empty, _, _, u) =
              databuffer_clear-Holds (v.buffers.holds s at) in
            (
              record g {
                hash = t';
                mp = mp';
                conn = record g.conn { cell = update g.conn.cell s closed };
              },
              report g (close_line id (g.conn.cell s).agent),
              rw (run', get-ok g.conn s at, cleared, put-ok g.conn s closed at) refl,
              (
                chain',
                update xs s [],
                fs',
                left-GateInv id s t' chain' mp' fs' w cap known after empty u,
              ),
            )
      ]

  -- A socket has entered slot `s`.
  entered-GateInv :
      (id s : ℕ) (name : List ℕ) (t' : HashId) (chain' : ℕ → List ℕ)
      → Inv t' chain'
      → s < g.conn.len
      → t'.cap ≡ g.hash.cap
      → lookup g.hash id ≡ ok none
      → ((j : ℕ) (r : Option ℕ)
          → lookup g.hash j ≡ ok r
          → lookup t' j ≡ ok (if j == id then some s else r))
      → GateInv
          (record g {
            hash = t';
            conn = record g.conn {
              cell = update g.conn.cell s (record (g.conn.cell s) { id = id; remote_name = name });
            };
          })
          chain'
          (update xs s (xs s))
          fs
  entered-GateInv id s name t' chain' w at cap missed after = record {
    table = w;
    len = v.len ∙ sym cap;
    size = v.size;
    header_size = v.header_size;
    buffers =
        Buffers-update v.buffers s at (record (g.conn.cell s) { id = id; remote_name = name }) g.mp
          (xs s) fs (v.buffers.holds s at) (omega arith, λ b h f l. (refl, h, f));
    idle = λ t below alone. elim (==-cases t s) [
      | inl e ↦ absurd (
          alone id (
            after id none missed
            ∙ ap (λ b. ok (if b then some s else none)) (==_refl id)
            ∙ ap (λ q. ok (some q)) (sym e)))
      | inr ne ↦ rw (==_ne t s ne) (
          v.idle t below (λ j there. elim (==-cases j id) [
            | inl e ↦ cc (e, there, missed)
            | inr nj ↦ alone j (
                after j (some t) there
                ∙ ap (λ b. ok (if b then some s else some t)) (==_ne j id nj))
          ]))
    ];
  }

  pub on_accept-Serves :
      (id ud : ℕ) (name : List ℕ)
      → Admits g (accept_message id ud name)
      → Serves (on_accept g id ud name)
  unfolding on_accept report
  on_accept-Serves id ud name (listening, fits, absent) =
      let there : (g.listen_id == id) ≡ true = ground (arith, listening) in
      elim (Bool-cases (full g.hash)) [
        | inl e ↦
            unchanged v (socket_close ud ∷ []) (on_accept g id ud name)
              (rw (there, e, on_accept) refl)
        | inr room ↦
            let (t', chain', s, run, w, below, cap, count, after) =
              insert-Inv ud v.table fits room absent in
            let at : s < g.conn.len = omega (arith, v.len) in
            let c = record (g.conn.cell s) { id = ud; remote_name = kept_name name } in
            (
              record g { hash = t'; conn = record g.conn { cell = update g.conn.cell s c } },
              report g (accept_line ud (kept_name name)),
              rw (there, room, run, get-ok g.conn s at, put-ok g.conn s c at) refl,
              (
                chain',
                update xs s (xs s),
                fs,
                entered-GateInv ud s (kept_name name) t' chain' w at cap absent after,
              ),
            )
      ]
