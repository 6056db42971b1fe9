-- ===== src/Gate/Feed.antt =====
-- The packets of a connection arrive in pieces, each with a call of dispatch_message
-- (service_gate.c).
use myprogram.Prelude.{
  ℕ, ◌+◌, ◌*◌, ◌^◌, ◌<◌, ◌≡◌, refl, sym, ap, ◌∙◌, true, false, List, [], ◌∷◌, ◌++◌, arith, Run, ok,
  ◌>>=◌, length, length-append, append-nil,
}
use myprogram.DataBuffer.{DataBuffer}
use myprogram.DataBuffer.Invariant.{Cells, Holds, pending}
use myprogram.DataBuffer.Reading.{length-pending}
use myprogram.Gate.{Gate, Connection, Action, has_receiver, dispatch_message}
use myprogram.Gate.Stream.{drain, closes}
use myprogram.Gate.Refinement.{weight}
use myprogram.Gate.Delivery.{start, with_buffer, dispatch_message-at}
use myprogram.Gate.Chunks.{forwarded-not_close}
use myprogram.Gate.Fuel.{drain-fuel}
use myprogram.Gate.Packets.{encode_all, Packets, sent_all, drain-Packets}
use myprogram.Gate.Step.{joined, drain-same, update-same, feed-Step}

abbrev pub feed : Gate → ℕ → ℕ → List (List ℕ) → Run (Gate × List Action)
feed g s id [] = ok (g, [])
feed g s id (bs ∷ pieces) = do
  (g', sent) ← dispatch_message g s id bs (length bs)
  (g'', rest) ← feed g' s id pieces
  ok (g'', sent ++ rest)

-- The gate has no byte of the connection in slot `s` left.
abbrev pub Empty : Gate → ℕ → Connection → Type 0
Empty g s c =
    (db : DataBuffer) × (xs : Cells) × (fs : List ℕ) × (g.conn.cell s ≡ record c { buffer = db })
    × Holds db g.mp xs fs
    × (db.header ≡ 0)
    × (pending db xs ≡ [])

sent_all-not_close :
    (g : Gate) (c : Connection) (ps : List (List ℕ)) → closes (sent_all g c ps) ≡ false
sent_all-not_close g c [] = refl
sent_all-not_close g c (p ∷ ps) =
    ground (arith, forwarded-not_close g c p, sent_all-not_close g c ps)

-- The pieces are drained to the end: the sends of all of them, and an empty buffer.
abbrev Fed : Gate → ℕ → Connection → ℕ → List (List ℕ) → List Action → Type 0
Fed g s c id pieces sent = (g' : Gate) × (feed g s id pieces ≡ ok (g', sent)) × Empty g' s c

feed-cons :
    (g g' : Gate) (s : ℕ) (c : Connection) (db : DataBuffer) (id : ℕ) (bs : List ℕ)
    (pieces : List (List ℕ)) (sent1 sent2 sent : List Action)
    → dispatch_message g s id bs (length bs) ≡ ok (g', sent1)
    → sent ≡ sent1 ++ sent2
    → Fed g' s (record c { buffer = db }) id pieces sent2
    → Fed g s c id (bs ∷ pieces) sent
feed-cons g g' s c db id bs pieces sent1 sent2 sent run e (g'', run', emptied) =
    (g'', rw (run, run', e) refl, emptied)

last_piece :
    (g : Gate) (s : ℕ) (c : Connection) (id : ℕ) (bs : List ℕ) (xs : Cells) (fs : List ℕ)
    (sent : List Action) (k : ℕ)
    → g.conn.cell s ≡ c
    → s < g.conn.len
    → g.header_size ≡ 4
    → Holds c.buffer g.mp xs fs
    → length (pending c.buffer xs ++ bs) < 2 ^ 31
    → weight c.buffer.header (pending c.buffer xs ++ bs) < k
    → drain k g c id c.buffer.header (pending c.buffer xs ++ bs) ≡ ok (0, [], sent)
    → Fed g s c id (bs ∷ []) sent
last_piece g s c id bs xs fs sent k at there hs v small light whole =
    let now = pending c.buffer xs ++ bs in
    let (db', mp', xs', fs', sent', run, spec, v', u) =
      dispatch_message-at g s c id bs xs fs at there hs v
        (omega (arith, length-pending v, length-append (pending c.buffer xs) bs)) in
    let same =
      sym spec
      ∙ drain-fuel (2 * length now + 2) k g c id c.buffer.header now (small, ground arith)
          (small, light)
      ∙ whole in
    let sends : sent' ++ [] ≡ sent = append-nil sent' ∙ cc same in
    (
      with_buffer g s c db' mp',
      rw (run, sends) refl,
      (db', xs', fs', update-same g.conn.cell s (record c { buffer = db' }), v', cc same, cc same),
    )

feed-Fed :
    (g : Gate) (s : ℕ) (c : Connection) (id : ℕ) (bs : List ℕ) (pieces : List (List ℕ)) (xs : Cells)
    (fs : List ℕ) (sent : List Action) (k : ℕ)
    → g.conn.cell s ≡ c
    → s < g.conn.len
    → g.header_size ≡ 4
    → Holds c.buffer g.mp xs fs
    → length (pending c.buffer xs ++ (bs ++ joined pieces)) < 2 ^ 31
    → weight c.buffer.header (pending c.buffer xs ++ (bs ++ joined pieces)) < k
    → drain k g c id c.buffer.header (pending c.buffer xs ++ (bs ++ joined pieces))
      ≡ ok (0, [], sent)
    → closes sent ≡ false
    → Fed g s c id (bs ∷ pieces) sent
feed-Fed g s c id bs [] xs fs sent k at there hs v small light whole kept =
    last_piece g s c id bs xs fs sent k at there hs v (rw (append-nil bs) at small)
      (rw (append-nil bs) at light) (rw (append-nil bs) at whole)
feed-Fed g s c id bs (bs' ∷ pieces) xs fs sent k at there hs v small light whole kept =
    let (db', mp', xs', fs', sent1, sent2, run, v', small', rest, e, kept') =
      feed-Step g s c id bs (bs' ∷ pieces) xs fs sent k at there hs v small light whole kept in
    let g' = with_buffer g s c db' mp' in
    let n = 2 * length (pending db' xs' ++ joined (bs' ∷ pieces)) + 2 in
    feed-cons g g' s c db' id bs (bs' ∷ pieces) sent1 sent2 sent run e (
      feed-Fed g' s (record c { buffer = db' }) id bs' pieces xs' fs' sent2 n
        (update-same g.conn.cell s (record c { buffer = db' })) there hs v' small' (ground arith)
        (drain-same n g s c db' mp' id db'.header _ ∙ rest) kept')

-- Packets that are not empty and below 16 MB, all of them below 2 GB together with their headers,
-- reach a gate with the header size 4 at a connection with an empty buffer and no header read, that
-- has a receiver, cut into pieces anywhere: the calls
-- of dispatch_message return, each packet is sent on once and in order, nothing else is sent, and
-- the buffer is empty again.
pub feed-Packets :
    (g : Gate) (s id : ℕ) (ps : List (List ℕ)) (bs : List ℕ) (pieces : List (List ℕ)) (xs : Cells)
    (fs : List ℕ)
    → s < g.conn.len
    → g.header_size ≡ 4
    → Holds (g.conn.cell s).buffer g.mp xs fs
    → (g.conn.cell s).buffer.header ≡ 0
    → pending (g.conn.cell s).buffer xs ≡ []
    → has_receiver g (g.conn.cell s) ≡ true
    → Packets ps
    → encode_all ps ≡ joined (bs ∷ pieces)
    → length (encode_all ps) < 2 ^ 31
    → (g' : Gate) × (feed g s id (bs ∷ pieces) ≡ ok (g', sent_all g (g.conn.cell s) ps))
      × Empty g' s (g.conn.cell s)
feed-Packets g s id ps bs pieces xs fs there hs v header none_left receiver sized cut small =
    let c = g.conn.cell s in
    let k = 2 * length (encode_all ps) + 2 in
    let whole : encode_all ps ≡ pending c.buffer xs ++ joined (bs ∷ pieces) = rw none_left cut in
    feed-Fed g s c id bs pieces xs fs (sent_all g c ps) k refl there hs v
      (omega (arith, ap length whole)) (ground (arith, ap length whole))
      (start g c id refl (sym header) whole
        (drain-Packets k g c id ps receiver sized small (omega arith)))
      (sent_all-not_close g c ps)
