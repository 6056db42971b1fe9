-- ===== src/Gate/Stuck.antt =====
-- dispatch_message of service_gate.c on a header that is a negative int.
use myprogram.Prelude.{
  ℕ, zero, suc, ◌+◌, ◌*◌, ◌^◌, ◌<◌, ◌≡◌, refl, sym, ap, ◌∙◌, true, false, List, [], ◌++◌, arith,
  ◌==◌, ok, length, length-append,
}
use myprogram.DataBuffer.{DataBuffer, MessagePool}
use myprogram.DataBuffer.Invariant.{Cells, Holds, pending}
use myprogram.DataBuffer.Reading.{length-pending}
use myprogram.Gate.{Gate, Connection, is_negative, dispatch_message}
use myprogram.Gate.Stream.{announce, read_header, drain}
use myprogram.Gate.Delivery.{with_buffer, dispatch_message-Delivered}

negative_announce :
    (h n : ℕ) → n < 2 ^ 31 → h < 2 ^ 32 → is_negative h ≡ true → is_negative (announce h n) ≡ true
negative_announce h n small word neg = ground arith

drain-stuck :
    (k : ℕ) (g : Gate) (c : Connection) (id h : ℕ) (bs : List ℕ)
    → 0 < k
    → length bs < 2 ^ 31
    → h < 2 ^ 32
    → is_negative h ≡ true
    → drain k g c id h bs ≡ ok (h, bs, [])
unfolding drain read_header
drain-stuck zero g c id h bs fuel small word neg = absurd (omega arith)
drain-stuck (suc k) g c id h bs fuel small word neg =
    let there : (h == 0) ≡ false = ground arith in
    rw (there, negative_announce h (length bs) small word neg) refl

-- With the header size 4 and a buffer that holds its bytes, whose header has been read as a negative
-- int, from 2 ^ 31 on: dispatch_message of bytes with which the size still fits an int sends nothing
-- and closes nothing, keeps the header, and stores the bytes behind those that are there.
pub dispatch_message-stuck :
    (g : Gate) (s id : ℕ) (bs : List ℕ) (xs : Cells) (fs : List ℕ)
    → s < g.conn.len
    → g.header_size ≡ 4
    → Holds (g.conn.cell s).buffer g.mp xs fs
    → (g.conn.cell s).buffer.size + length bs < 2 ^ 31
    → (g.conn.cell s).buffer.header < 2 ^ 32
    → is_negative (g.conn.cell s).buffer.header ≡ true
    → (db : DataBuffer) × (mp : MessagePool) × (xs' : Cells) × (fs' : List ℕ) × (dispatch_message g
          s id bs
          (length bs)
        ≡ ok (with_buffer g s (g.conn.cell s) db mp, []))
      × Holds db mp xs' fs'
      × (db.header ≡ (g.conn.cell s).buffer.header)
      × (pending db xs' ≡ pending (g.conn.cell s).buffer xs ++ bs)
dispatch_message-stuck g s id bs xs fs there hs v fits word neg =
    let c = g.conn.cell s in
    let all = pending c.buffer xs ++ bs in
    let (db, mp, xs', fs', sent, run, spec, v', _) =
      dispatch_message-Delivered g s id bs xs fs there hs v fits in
    let same =
      sym spec
      ∙ drain-stuck (2 * length all + 2) g c id c.buffer.header all (omega arith)
          (omega (arith, length-pending v, length-append (pending c.buffer xs) bs)) word neg in
    let silent : sent ≡ [] = cc same in
    (
      db,
      mp,
      xs',
      fs',
      run ∙ ap (λ acts. ok (with_buffer g s c db mp, acts)) silent,
      v',
      cc same,
      cc same,
    )
