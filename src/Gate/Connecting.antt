-- ===== src/Gate/Connecting.antt =====
-- The command `connect` of service_gate.c, and what gate_release makes of its socket.
use myprogram.Prelude.{
  ℕ, zero, suc, ◌+◌, ◌^◌, ◌≤◌, ◌<◌, ◌≡◌, refl, sym, ap, ◌∙◌, inl, inr, true, false, Option, none,
  some, List, [], ◌∷◌, arith, ◌==◌, if◌then◌else◌, ok, ◌>>=◌, update, length, get-ok, put-ok,
  ==_refl, ==_ne, ==-cases, lt→ltb,
}
use myprogram.HashId.{HashId, lookup, full, insert}
use myprogram.HashId.Invariant.{Inv}
use myprogram.HashId.Inserted.{insert-Inv}
use myprogram.CText.{strtol}
use myprogram.DataBuffer.Invariant.{Cells}
use myprogram.Gate.{Gate, Connection, Skynet, socket_connect}
use myprogram.Gate.Control.{connect, forward_agent, span_word, skip_blanks}
use myprogram.Gate.Service.{gate_release}
use myprogram.Gate.Whole.{GateInv, IsWhole}
use myprogram.Gate.Commands.{agent-GateInv}
use myprogram.Gate.Released.{ids, gate_release-run}

-- The ip and the port that stand behind the command.
abbrev pub ip_of : List ℕ → List ℕ
ip_of p = (span_word (skip_blanks p)).0

abbrev pub port_of : List ℕ → List ℕ
port_of p = (span_word (skip_blanks (span_word (skip_blanks p)).1)).0

-- The connection at `s` belongs to a service now.
abbrev pub owned : Gate → HashId → ℕ → ℕ → Gate
owned g t s source = record g {
  hash = t;
  conn = record g.conn {
    cell = update g.conn.cell s (record (g.conn.cell s) { agent = source; client = 0 });
  };
}

forward_agent-at :
    (g : Gate) (fd s source : ℕ)
    → lookup g.hash fd ≡ ok (some s)
    → s < g.conn.len
    → forward_agent g fd source 0 ≡ ok (owned g g.hash s source)
unfolding forward_agent
forward_agent-at g fd s source found at =
    let c = record (g.conn.cell s) { agent = source; client = 0 } in
    rw (found, get-ok g.conn s at, put-ok g.conn s c at, forward_agent) refl

owned-id :
    (i s source : ℕ) (conn : ℕ → Connection)
    → (update conn s (record (conn s) { agent = source; client = 0 }) i).id ≡ (conn i).id
owned-id i s source conn = elim (==-cases i s) [
  | inl e ↦
      let same : (i == s) ≡ true = ground (arith, e) in rw same (ap (λ t. (conn t).id) (sym e))
  | inr ne ↦ rw (==_ne i s ne) refl
]

ids-owned :
    (n i s source : ℕ) (conn : ℕ → Connection)
    → ids n i (update conn s (record (conn s) { agent = source; client = 0 })) ≡ ids n i conn
ids-owned zero i s source conn = refl
ids-owned (suc n) i s source conn =
    let conn' = update conn s (record (conn s) { agent = source; client = 0 }) in
    ap (λ id. id ∷ ids n (i + 1) conn') (owned-id i s source conn)
    ∙ ap (λ (t : List ℕ). (conn i).id ∷ t) (ids-owned n (i + 1) s source conn)

-- The table with an id that it did not have.
known-GateInv :
    (g : Gate) (chain chain' : ℕ → List ℕ) (xs : ℕ → Cells) (fs : List ℕ) (fd s : ℕ) (t' : HashId)
    → GateInv g chain xs fs
    → Inv t' chain'
    → t'.cap ≡ g.hash.cap
    → lookup g.hash fd ≡ ok none
    → ((j : ℕ) (r : Option ℕ)
        → lookup g.hash j ≡ ok r
        → lookup t' j ≡ ok (if j == fd then some s else r))
    → GateInv (record g { hash = t' }) chain' xs fs
known-GateInv g chain chain' xs fs fd s t' v w cap absent after = record {
  table = w;
  len = v.len ∙ sym cap;
  size = v.size;
  header_size = v.header_size;
  buffers = v.buffers;
  idle = λ u below alone. v.idle u below (λ j there. elim (==-cases j fd) [
    | inl e ↦ cc (e, there, absent)
    | inr ne ↦
        alone j
          (after j (some u) there ∙ ap (λ b. ok (if b then some s else some u)) (==_ne j fd ne))
  ]);
}

connected :
    (sk : Skynet) (g : Gate) (source fd s : ℕ) (p : List ℕ) (t' : HashId)
    → sk.connect (ip_of p) (strtol (port_of p)) ≡ fd
    → length (ip_of p) < 100
    → length (port_of p) < 50
    → full g.hash ≡ false
    → insert g.hash fd ≡ ok (t', s)
    → lookup t' fd ≡ ok (some s)
    → s < g.conn.len
    → connect sk g source p
      ≡ ok (owned g t' s source, socket_connect (ip_of p) (strtol (port_of p)) ∷ [])
unfolding connect
connected sk g source fd s p t' socket ip_short port_short room run known at =
    let given = forward_agent-at (record g { hash = t' }) fd s source known at in
    rw
      (
        lt→ltb (length (ip_of p)) 100 ip_short,
        lt→ltb (length (port_of p)) 50 port_short,
        socket,
        room,
        run,
        given,
        connect,
      )
      refl

-- What connect makes of a gate that is whole and not full.
pub connect-owned :
    (sk : Skynet) (g : Gate) (source fd : ℕ) (p : List ℕ)
    → IsWhole g
    → full g.hash ≡ false
    → length (ip_of p) < 100
    → length (port_of p) < 50
    → sk.connect (ip_of p) (strtol (port_of p)) ≡ fd
    → lookup g.hash fd ≡ ok none
    → g.hash.cap + fd ≤ 2 ^ 31
    → (t' : HashId) × (s : ℕ) × (connect sk g source p
        ≡ ok (owned g t' s source, socket_connect (ip_of p) (strtol (port_of p)) ∷ []))
      × IsWhole (owned g t' s source)
      × (lookup t' fd ≡ ok (some s))
connect-owned sk g source fd p (chain, xs, fs, v) room ip_short port_short socket absent small =
    let (t', chain', s, run, w, below, cap, count, after) =
      insert-Inv fd v.table small room absent in
    let known : lookup t' fd ≡ ok (some s) =
      after fd none absent ∙ ap (λ b. ok (if b then some s else none)) (==_refl fd) in
    let at : s < g.conn.len = omega (arith, v.len) in
    let v1 = known-GateInv g chain chain' xs fs fd s t' v w cap absent after in
    (
      t',
      s,
      connected sk g source fd s p t' socket ip_short port_short room run known at,
      (chain', update xs s (xs s), fs, agent-GateInv v1 s source 0 at),
      known,
    )

-- connect in a gate that is whole and not full, with an ip and a port that fit into their arrays,
-- when skynet gives a new socket that is no negative int: it ends, asks skynet for the connection
-- alone, and leaves a gate that is whole and has the socket in its table, at a connection that
-- belongs to the sender. But gate_release then closes exactly what it would have closed without the
-- command.
pub gate_release-connect :
    (sk : Skynet) (g : Gate) (source fd : ℕ) (p : List ℕ)
    → IsWhole g
    → full g.hash ≡ false
    → length (ip_of p) < 100
    → length (port_of p) < 50
    → sk.connect (ip_of p) (strtol (port_of p)) ≡ fd
    → lookup g.hash fd ≡ ok none
    → g.hash.cap + fd ≤ 2 ^ 31
    → (g' : Gate) × (s : ℕ) × (connect sk g source p
        ≡ ok (g', socket_connect (ip_of p) (strtol (port_of p)) ∷ []))
      × IsWhole g'
      × (lookup g'.hash fd ≡ ok (some s))
      × ((g'.conn.cell s).agent ≡ source)
      × ((gate_release g' >>= λ out. ok out.0) ≡ (gate_release g >>= λ out. ok out.0))
gate_release-connect sk g source fd p whole room ip_short port_short socket absent small =
    let (t', s, run, whole', known) =
      connect-owned sk g source fd p whole room ip_short port_short socket absent small in
    let released = gate_release-run (owned g t' s source) whole' in
    let before = gate_release-run g whole in
    let same = ids-owned g.conn.len 0 s source g.conn.cell in
    (
      owned g t' s source,
      s,
      run,
      whole',
      known,
      rw (==_refl s) refl,
      rw (released, before, same) refl,
    )
