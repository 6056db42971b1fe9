-- ===== src/Gate/Interleaved.antt =====
-- The data of several connections, as it comes to dispatch_socket_message of service_gate.c one
-- message after the other.
use myprogram.Prelude.{
  ℕ, ◌+◌, ◌*◌, ◌^◌, ◌≤◌, ◌<◌, ◌≡◌, refl, sym, ◌∙◌, inl, inr, true, some, List, ◌++◌, arith, ◌==◌,
  ok, length, update, ==_ne, ==-cases, subst, length-append,
}
use myprogram.HashId.{lookup}
use myprogram.HashId.Lookup.{Located-of_lookup}
use myprogram.DataBuffer.{DataBuffer, MessagePool}
use myprogram.DataBuffer.Invariant.{Cells, pending}
use myprogram.DataBuffer.Reading.{length-pending}
use myprogram.Gate.{Gate, Connection, Action}
use myprogram.Gate.Socket.{data_message, dispatch_socket_message, on_data}
use myprogram.Gate.Stream.{drain}
use myprogram.Gate.Fuel.{LeavesAtMost, drain-le}
use myprogram.Gate.Delivery.{with_buffer, dispatch_message-Delivered}
use myprogram.Gate.Whole.{GateInv}
use myprogram.Gate.Serve.{slot-lt, with_buffer-GateInv}
use myprogram.Gate.Alone.{Arrivals, volume, serve_all, done_for, alone}

-- The arrivals are served, and the socket `id` at slot `s`, whose connection is `c` with the bytes
-- `p` pending, has got what is due to it alone.
abbrev pub ServedAlone : Gate → Connection → ℕ → ℕ → List ℕ → Arrivals → Type 0
ServedAlone g c id s p arrivals =
    (g' : Gate) × (log : List (ℕ × List Action)) × (chain : ℕ → List ℕ) × (xs : ℕ → Cells)
    × (fs : List ℕ) × (serve_all g arrivals ≡ ok (g', log))
    × GateInv g' chain xs fs
    × (alone g c id c.buffer.header p arrivals
        ≡ ok (
          (g'.conn.cell s).buffer.header,
          pending (g'.conn.cell s).buffer (xs s),
          done_for id log,
        ))

-- No buffer can come to hold more than an int counts.
abbrev pub Bounded : Gate → ℕ → Type 0
Bounded g n = (t : ℕ) → t < g.conn.len → (g.conn.cell t).buffer.size + n < 2 ^ 31

-- The size of a buffer after a call grows by the bytes of the call at most.
size-le :
    (k : ℕ) (g : Gate) (c : Connection) (id h : ℕ) (bs : List ℕ) (h' : ℕ) (left : List ℕ)
    (sent : List Action)
    → drain k g c id h bs ≡ ok (h', left, sent)
    → length left ≤ length bs
size-le k g c id h bs h' left sent e = subst (LeavesAtMost (length bs)) e (drain-le k g c id h bs)

-- Two sockets do not share a slot.
pub slot_unique :
    {g : Gate} {chain : ℕ → List ℕ} {xs : ℕ → Cells} {fs : List ℕ} (v : GateInv g chain xs fs)
    (i j s : ℕ)
    → lookup g.hash i ≡ ok (some s)
    → lookup g.hash j ≡ ok (some s)
    → i ≡ j
slot_unique v i j s p q =
    sym (Located-of_lookup v.table i (some s) p).2 ∙ (Located-of_lookup v.table j (some s) q).2

-- The statement for arrivals, at any gate that is whole.
abbrev pub AllServed : ℕ → ℕ → Arrivals → Type 0
AllServed id s arrivals =
    (g : Gate) (chain : ℕ → List ℕ) (xs : ℕ → Cells) (fs : List ℕ)
    → GateInv g chain xs fs
    → lookup g.hash id ≡ ok (some s)
    → Bounded g (volume arrivals)
    → ServedAlone g (g.conn.cell s) id s (pending (g.conn.cell s).buffer (xs s)) arrivals

-- A message of a socket at slot `u`.
abbrev pub Delivery : Gate → ℕ → ℕ → List ℕ → (ℕ → Cells) → Type 0
Delivery g j u bs xs =
    let c = g.conn.cell u in
    let all = pending c.buffer (xs u) ++ bs in
    (db : DataBuffer) × (mp : MessagePool) × (ys : Cells) × (sent : List Action) × (chain : ℕ
      → List ℕ)
    × (fs : List ℕ) × (dispatch_socket_message g (data_message j bs)
        ≡ ok (with_buffer g u c db mp, sent))
    × GateInv (with_buffer g u c db mp) chain (update xs u ys) fs
    × (drain (2 * length all + 2) g c j c.buffer.header all ≡ ok (db.header, pending db ys, sent))
    × (db.size ≤ c.buffer.size + length bs)

pub delivery :
    {g : Gate} {chain : ℕ → List ℕ} {xs : ℕ → Cells} {fs : List ℕ} (v : GateInv g chain xs fs)
    (j u : ℕ) (bs : List ℕ)
    → lookup g.hash j ≡ ok (some u)
    → (g.conn.cell u).buffer.size + length bs < 2 ^ 31
    → Delivery g j u bs xs
unfolding dispatch_socket_message on_data
delivery {g} {chain} {xs} {fs} v j u bs known fits =
    let at = slot-lt v j u known in
    let c = g.conn.cell u in
    let all = pending c.buffer (xs u) ++ bs in
    let before = v.buffers.holds u at in
    let (db, mp, ys, fs', sent, run, spec, held, w) =
      dispatch_message-Delivered g u j bs (xs u) fs at v.header_size before fits in
    let less =
      size-le (2 * length all + 2) g c j c.buffer.header all db.header (pending db ys) sent spec in
    (
      db,
      mp,
      ys,
      sent,
      chain,
      fs',
      rw (dispatch_socket_message, on_data, known, run) refl,
      with_buffer-GateInv v j u db mp ys fs' known held w,
      spec,
      omega (
        arith,
        less,
        length-pending held,
        length-pending before,
        length-append (pending c.buffer (xs u)) bs,
      ),
    )

pub with_buffer-Bounded :
    (g : Gate) (u : ℕ) (db : DataBuffer) (mp : MessagePool) (m n : ℕ)
    → Bounded g (m + n)
    → db.size ≤ (g.conn.cell u).buffer.size + m
    → Bounded (with_buffer g u (g.conn.cell u) db mp) n
with_buffer-Bounded g u db mp m n bounded le t below = elim (==-cases t u) [
  | inl e ↦
      let same : (t == u) ≡ true = ground (arith, e) in
      let old = subst (λ q. (g.conn.cell q).buffer.size + (m + n) < 2 ^ 31) e (bounded t below) in
      rw same (omega arith)
  | inr ne ↦ rw (==_ne t u ne) (omega (arith, bounded t below))
]
