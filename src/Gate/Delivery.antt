-- ===== src/Gate/Delivery.antt =====
-- dispatch_message of service_gate.c as a whole: the bytes go behind those that are pending, and the
-- loop drains them.
use myprogram.Prelude.{
  ℕ, ◌+◌, ◌*◌, ◌^◌, ◌<◌, ◌≡◌, refl, sym, ap, ◌∙◌, List, ◌++◌, arith, Run, ok, length, update,
  get-ok, put-ok,
}
use myprogram.DataBuffer.{DataBuffer, MessagePool}
use myprogram.DataBuffer.Invariant.{Cells, Holds, pending, Untouched, Untouched-trans}
use myprogram.DataBuffer.Reading.{length-pending}
use myprogram.DataBuffer.Pushing.{databuffer_push-Holds}
use myprogram.Gate.{Gate, Connection, Action, dispatch_message}
use myprogram.Gate.Stream.{drain, Drained}
use myprogram.Gate.Refinement.{weight}
use myprogram.Gate.Dispatch.{dispatch_loop-Refines}

abbrev pub with_buffer : Gate → ℕ → Connection → DataBuffer → MessagePool → Gate
with_buffer g s c db mp = record g {
  conn = record g.conn { cell = update g.conn.cell s (record c { buffer = db }) };
  mp = mp;
}

-- The bytes `bs` arrive at the connection in slot `s`.
abbrev pub Delivered : Gate → ℕ → Connection → ℕ → List ℕ → Cells → List ℕ → Type 0
Delivered g s c id bs xs fs =
    let all = pending c.buffer xs ++ bs in
    (db' : DataBuffer) × (mp' : MessagePool) × (xs' : Cells) × (fs' : List ℕ) × (sent : List Action)
    × (dispatch_message g s id bs (length bs) ≡ ok (with_buffer g s c db' mp', sent))
    × (drain (2 * length all + 2) g c id c.buffer.header all
        ≡ ok (db'.header, pending db' xs', sent))
    × Holds db' mp' xs' fs'
    × Untouched g.mp mp' xs fs xs' fs'

light : {size : ℕ} (bs : List ℕ) (h : ℕ) → length bs ≡ size → weight h bs < 2 * size + 2
light bs h e = ground (arith, e)

pub start :
    {k k' h h' : ℕ} (g : Gate) (c : Connection) (id : ℕ) {bs bs' : List ℕ} {r : Run Drained}
    → k ≡ k'
    → h ≡ h'
    → bs ≡ bs'
    → drain k g c id h bs ≡ r
    → drain k' g c id h' bs' ≡ r
start g c id e f q spec = rw (sym e, sym f, sym q) spec

pub dispatch_message-at :
    (g : Gate) (s : ℕ) (c : Connection) (id : ℕ) (bs : List ℕ) (xs : Cells) (fs : List ℕ)
    → g.conn.cell s ≡ c
    → s < g.conn.len
    → g.header_size ≡ 4
    → Holds c.buffer g.mp xs fs
    → c.buffer.size + length bs < 2 ^ 31
    → Delivered g s c id bs xs fs
unfolding dispatch_message
dispatch_message-at g s c id bs xs fs at there hs v fits =
    let got = get-ok g.conn s there ∙ ap ok at in
    let (db1, mp1, xs1, fs1, run, v1, left, header, u) = databuffer_push-Holds v bs fits in
    let enough : 2 * db1.size + 2 ≡ 2 * length (pending c.buffer xs ++ bs) + 2 =
      omega (arith, ap length left, length-pending v1) in
    let (db2, mp2, xs2, fs2, sent, run', spec, v2, u') =
      dispatch_loop-Refines (2 * db1.size + 2) g c id hs db1 mp1 xs1 fs1 v1
        (light (pending db1 xs1) db1.header (length-pending v1)) in
    (
      db2,
      mp2,
      xs2,
      fs2,
      sent,
      rw (got, run, run', put-ok) refl,
      start g c id enough header left spec,
      v2,
      Untouched-trans g.mp mp1 mp2 xs xs1 xs2 fs fs1 fs2 u u',
    )

-- With the header size 4 and a buffer that holds its bytes, and if the sum of the sizes fits an int,
-- dispatch_message returns: it sends, and it keeps, what draining the pending bytes with the new
-- bytes behind them does; the buffer holds its bytes again, no other cell in use changes, and none
-- of them is lost to this buffer or to the free list.
pub dispatch_message-Delivered :
    (g : Gate) (s id : ℕ) (bs : List ℕ) (xs : Cells) (fs : List ℕ)
    → s < g.conn.len
    → g.header_size ≡ 4
    → Holds (g.conn.cell s).buffer g.mp xs fs
    → (g.conn.cell s).buffer.size + length bs < 2 ^ 31
    → Delivered g s (g.conn.cell s) id bs xs fs
dispatch_message-Delivered g s id bs xs fs =
    dispatch_message-at g s (g.conn.cell s) id bs xs fs refl
