-- ===== src/Gate/Merged.antt =====
-- The data of several connections, message after message, to the end (service_gate.c).
use myprogram.Prelude.{
  ℕ, ◌≡◌, ◌≢◌, refl, sym, ap, ◌∙◌, inl, inr, some, List, [], ◌∷◌, arith, if◌then◌else◌, ok, length,
  update, ==_refl, ==_ne, ==-cases, Option-cases, subst,
}
use myprogram.HashId.{lookup}
use myprogram.HashId.Lookup.{lookup-Located}
use myprogram.DataBuffer.{DataBuffer, MessagePool}
use myprogram.DataBuffer.Invariant.{Cells, pending}
use myprogram.Gate.{Gate, socket_close}
use myprogram.Gate.Socket.{dispatch_socket_message, on_data}
use myprogram.Gate.Delivery.{with_buffer}
use myprogram.Gate.Step.{update-same}
use myprogram.Gate.Whole.{GateInv}
use myprogram.Gate.Serve.{slot-lt}
use myprogram.Gate.Alone.{Arrivals, volume, alone-other}
use myprogram.Gate.Interleaved.{
  ServedAlone, Bounded, slot_unique, AllServed, delivery, with_buffer-Bounded,
}

-- A message of the socket itself.
mine-served :
    (id s : ℕ) (bs : List ℕ) (rest : Arrivals)
    → AllServed id s rest
    → AllServed id s ((id, bs) ∷ rest)
mine-served id s bs rest rec g chain xs fs v known bounded =
    let c = g.conn.cell s in
    let (db, mp, ys, sent, chain1, fs1, run, v1, spec, le) =
      delivery v id s bs known (omega (arith, bounded s (slot-lt v id s known))) in
    let g1 = with_buffer g s c db mp in
    let xs1 = update xs s ys in
    let next =
      rec g1 chain1 xs1 fs1 v1 known
        (with_buffer-Bounded g s db mp (length bs) (volume rest) bounded le) in
    let next' =
      subst (λ d. ServedAlone g1 d id s (pending d.buffer (xs1 s)) rest)
        (update-same g.conn.cell s (record c { buffer = db })) next in
    let (g2, log, chain2, xs2, fs2, run2, v2, due) =
      subst (λ zs. ServedAlone g1 (record c { buffer = db }) id s (pending db zs) rest)
        (update-same xs s ys) next' in
    (
      g2,
      (id, sent) ∷ log,
      chain2,
      xs2,
      fs2,
      rw (run, run2) refl,
      v2,
      rw
          (
            ==_refl id,
            spec,
            sym (alone-other g s c c db db mp id db.header (pending db ys) rest),
            due,
          )
          refl,
    )

other_cell :
    (g : Gate) (u s : ℕ) (db : DataBuffer) (mp : MessagePool)
    → s ≢ u
    → (with_buffer g u (g.conn.cell u) db mp).conn.cell s ≡ g.conn.cell s
other_cell g u s db mp ne = rw (==_ne s u ne) refl

-- A message of another socket.
other-served :
    (id s j : ℕ) (bs : List ℕ) (rest : Arrivals)
    → j ≢ id
    → AllServed id s rest
    → AllServed id s ((j, bs) ∷ rest)
unfolding dispatch_socket_message on_data
other-served id s j bs rest apart rec g chain xs fs v known bounded =
    let (r, found, there) = lookup-Located v.table j in
    elim (Option-cases r) [
      | inl e ↦
          let (g2, log, chain2, xs2, fs2, run2, v2, due) =
            rec g chain xs fs v known (λ t below. omega (arith, bounded t below)) in
          (
            g2,
            (j, socket_close j ∷ []) ∷ log,
            chain2,
            xs2,
            fs2,
            rw (dispatch_socket_message, on_data, found ∙ ap ok e, run2) refl,
            v2,
            rw (==_ne j id apart, due) refl,
          )
      | inr (u, e) ↦
          let at : lookup g.hash j ≡ ok (some u) = found ∙ ap ok e in
          let ne : s ≢ u =
            λ q. apart (slot_unique v j id s (at ∙ ap (λ n. ok (some n)) (sym q)) known) in
          let c = g.conn.cell s in
          let d = g.conn.cell u in
          let (db, mp, ys, sent, chain1, fs1, run, v1, spec, le) =
            delivery v j u bs at (omega (arith, bounded u (slot-lt v j u at))) in
          let g1 = with_buffer g u d db mp in
          let xs1 = update xs u ys in
          let next =
            rec g1 chain1 xs1 fs1 v1 known
              (with_buffer-Bounded g u db mp (length bs) (volume rest) bounded le) in
          let next' =
            subst (λ d. ServedAlone g1 d id s (pending d.buffer (xs1 s)) rest)
              (other_cell g u s db mp ne) next in
          let same : xs1 s ≡ xs s = ap (λ b. if b then ys else xs s) (==_ne s u ne) in
          let (g2, log, chain2, xs2, fs2, run2, v2, due) =
            subst (λ zs. ServedAlone g1 c id s (pending c.buffer zs) rest) same next' in
          (
            g2,
            (j, sent) ∷ log,
            chain2,
            xs2,
            fs2,
            rw (run, run2) refl,
            v2,
            rw
                (
                  ==_ne j id apart,
                  sym (
                      alone-other g u d c db c.buffer mp id c.buffer.header
                        (pending c.buffer (xs s)) rest),
                  due,
                )
                refl,
          )
    ]

-- The bytes of several sockets come to a gate that is whole, in any order, and so few that no buffer
-- outgrows an int: all messages are served without a fault, the gate is whole again, and each
-- socket that is connected has got, in order, what its own bytes are due when they are drained
-- alone; its buffer holds what they leave.
pub serve_all-ServedAlone :
    (arrivals : Arrivals) (id s : ℕ) (g : Gate) (chain : ℕ → List ℕ) (xs : ℕ → Cells) (fs : List ℕ)
    → GateInv g chain xs fs
    → lookup g.hash id ≡ ok (some s)
    → Bounded g (volume arrivals)
    → ServedAlone g (g.conn.cell s) id s (pending (g.conn.cell s).buffer (xs s)) arrivals
serve_all-ServedAlone [] id s g chain xs fs v known bounded = (g, [], chain, xs, fs, refl, v, refl)
serve_all-ServedAlone ((j, bs) ∷ rest) id s g chain xs fs v known bounded = elim (==-cases j id) [
  | inl e ↦
      subst (λ i. AllServed id s ((i, bs) ∷ rest)) (sym e)
        (mine-served id s bs rest (serve_all-ServedAlone rest id s)) g chain xs fs v known bounded
  | inr ne ↦
      other-served id s j bs rest ne (serve_all-ServedAlone rest id s) g chain xs fs v known bounded
]
