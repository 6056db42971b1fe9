-- ===== src/Gate/Unread.antt =====
-- dispatch_message of service_gate.c for a connection whose packets nobody is to have.
use myprogram.Prelude.{
  ℕ, suc, ◌+◌, ◌*◌, ◌^◌, ◌<◌, ◌≤◌, ◌≡◌, refl, sym, ap, ◌∙◌, true, false, List, [], ◌∷◌, ◌++◌, arith,
  ◌==◌, ltb, ok, length,
}
use myprogram.DataBuffer.{DataBuffer, MessagePool}
use myprogram.DataBuffer.Invariant.{Cells, Holds, pending}
use myprogram.DataBuffer.Reading.{length-pending}
use myprogram.Gate.{Gate, Connection, Action, is_negative, has_receiver, dispatch_message}
use myprogram.Gate.Stream.{announce, header_value, read_header, drain}
use myprogram.Gate.Chunks.{after-nil}
use myprogram.Gate.Fuel.{drain-fuel}
use myprogram.Gate.Delivery.{with_buffer, dispatch_message-Delivered}

-- The header is read, and nothing else.
drain-unread :
    (k : ℕ) (g : Gate) (c : Connection) (id n : ℕ) (bs body : List ℕ)
    → has_receiver g c ≡ false
    → read_header 0 bs ≡ (n, n, body)
    → 0 < n
    → n < 2 ^ 24
    → drain (suc k) g c id 0 bs ≡ drain k g c id 0 body
unfolding drain
drain-unread k g c id n bs body nobody read some_bytes small =
    let positive : is_negative n ≡ false = ground arith in
    let there : (n == 0) ≡ false = ground arith in
    let in_bound : ltb n 0x1000000 ≡ true = ground arith in
    rw (read, positive, there, in_bound, nobody, drain) (after-nil (drain k g c id 0 body))

announce_whole : (n size : ℕ) → n ≤ size → size < 2 ^ 31 → announce n size ≡ n
announce_whole n size inside small = ground arith

-- Four bytes that announce no more than what follows.
abbrev pub packet : ℕ → ℕ → ℕ → ℕ → List ℕ → List ℕ
packet b0 b1 b2 b3 body = b0 ∷ b1 ∷ b2 ∷ b3 ∷ body

read_header-packet :
    (b0 b1 b2 b3 : ℕ) (body : List ℕ)
    → let n = header_value (packet b0 b1 b2 b3 body) in
      n ≤ length body
      → length body < 2 ^ 31
      → read_header 0 (packet b0 b1 b2 b3 body) ≡ (n, n, body)
unfolding read_header
read_header-packet b0 b1 b2 b3 body inside small =
    let n = header_value (packet b0 b1 b2 b3 body) in
    let many : ltb (length (packet b0 b1 b2 b3 body)) 4 ≡ false = ground arith in
    let whole : announce n (length body) ≡ n = announce_whole n (length body) inside small in
    rw (many, whole) refl

-- With the header size 4 and an empty buffer, for a connection without a broker, an agent and a
-- watchdog: of a packet of less than 2 ^ 24 bytes that has come with what follows it,
-- dispatch_message reads the header alone. It goes on with the payload as if that had come instead:
-- it sends and keeps what draining the payload, and what follows it, does.
pub dispatch_message-unread :
    (g : Gate) (s id b0 b1 b2 b3 : ℕ) (body : List ℕ) (xs : Cells) (fs : List ℕ)
    → s < g.conn.len
    → g.header_size ≡ 4
    → Holds (g.conn.cell s).buffer g.mp xs fs
    → pending (g.conn.cell s).buffer xs ≡ []
    → (g.conn.cell s).buffer.header ≡ 0
    → has_receiver g (g.conn.cell s) ≡ false
    → 0 < header_value (packet b0 b1 b2 b3 body)
    → header_value (packet b0 b1 b2 b3 body) < 2 ^ 24
    → header_value (packet b0 b1 b2 b3 body) ≤ length body
    → length (packet b0 b1 b2 b3 body) < 2 ^ 31
    → (db : DataBuffer) × (mp : MessagePool) × (xs' : Cells) × (fs' : List ℕ) × (sent : List Action)
      × (dispatch_message g s id (packet b0 b1 b2 b3 body) (length (packet b0 b1 b2 b3 body))
          ≡ ok (with_buffer g s (g.conn.cell s) db mp, sent))
      × Holds db mp xs' fs'
      × (drain (2 * length body + 2) g (g.conn.cell s) id 0 body
          ≡ ok (db.header, pending db xs', sent))
dispatch_message-unread g s id b0 b1 b2 b3 body xs fs there hs v nothing no_header nobody some_bytes
      small inside fits =
    let c = g.conn.cell s in
    let bs = packet b0 b1 b2 b3 body in
    let all = pending c.buffer xs ++ bs in
    let all_new : all ≡ bs = ap (λ front. front ++ bs) nothing in
    let size = length-pending v in
    let (db, mp, xs', fs', sent, run, spec, v', _) =
      dispatch_message-Delivered g s id bs xs fs there hs v
        (omega (arith, size, ap length nothing)) in
    let read = read_header-packet b0 b1 b2 b3 body inside (omega arith) in
    let k = 2 * length body + 9 in
    let fuel : drain (2 * length bs + 2) g c id 0 bs ≡ drain (suc k) g c id 0 bs =
      ap (λ m. drain m g c id 0 bs) (omega arith) in
    let skipped = drain-unread k g c id _ bs body nobody read some_bytes small in
    let enough =
      drain-fuel k (2 * length body + 2) g c id 0 body (omega arith, omega arith)
        (omega arith, omega arith) in
    let same : drain (2 * length all + 2) g c id c.buffer.header all
        ≡ drain (2 * length bs + 2) g c id 0 bs =
      rw (all_new, no_header) refl in
    (db, mp, xs', fs', sent, run, v', sym (same ∙ fuel ∙ skipped ∙ enough) ∙ spec)
