-- ===== src/Gate/Sessions.antt =====
-- A connection comes and goes: the accept and close branches of dispatch_socket_message
-- (service_gate.c) over the id table, the connections and the pool together.
use myprogram.Prelude.{
  ℕ, suc, ◌+◌, ◌^◌, ◌≤◌, ◌<◌, ◌≡◌, refl, ap, ◌∙◌, true, false, none, some, List, [], arith, ltb,
  has, ◌||◌, ◌==◌, if◌then◌else◌, ok, length, take, get-ok, put-ok, update, ==_refl,
}
use myprogram.HashId.{lookup, remove, full}
use myprogram.HashId.Invariant.{Inv}
use myprogram.HashId.Inserted.{insert-Inv}
use myprogram.HashId.Removal.{remove-Inv, taken_count}
use myprogram.CText.{c_string}
use myprogram.DataBuffer.{empty_buffer}
use myprogram.DataBuffer.Invariant.{Cells, addresses, Holds, Untouched}
use myprogram.DataBuffer.Clear.{databuffer_clear-Holds}
use myprogram.Gate.{Gate, closed}
use myprogram.Gate.Socket.{on_accept, on_close, report, accept_line, close_line}
use myprogram.Gate.Step.{update-same}

abbrev pub kept_name : List ℕ → List ℕ
kept_name name = c_string (if ltb (length name) 32 then name else take 31 name)

-- The slot `s` belongs to the socket `id`, and the gate says that it does.
abbrev pub Entered : Gate → ℕ → ℕ → List ℕ → Type 0
Entered g id ud name =
    (g' : Gate) × (chain' : ℕ → List ℕ) × (s : ℕ) × (on_accept g id ud name
      ≡ ok (g', report g (accept_line ud (kept_name name))))
    × Inv g'.hash chain'
    × (s < g.hash.cap)
    × (g'.hash.count ≡ suc g.hash.count)
    × (lookup g'.hash ud ≡ ok (some s))
    × (g'.conn.cell s ≡ record (g.conn.cell s) { id = ud; remote_name = kept_name name })

-- SKYNET_SOCKET_TYPE_ACCEPT on the listener, for a new socket, with room in a well-formed table:
-- the branch ends, the table keeps its invariant and has one id more, the socket is found in it at a
-- slot, the connection in that slot has the socket and the name, cut to 31 bytes and at a 0, and the
-- watchdog is told, if there is one.
pub on_accept-Entered :
    (g : Gate) (chain : ℕ → List ℕ) (id ud : ℕ) (name : List ℕ)
    → Inv g.hash chain
    → g.conn.len ≡ g.hash.cap
    → g.listen_id ≡ id
    → full g.hash ≡ false
    → g.hash.cap + ud ≤ 2 ^ 31
    → lookup g.hash ud ≡ ok none
    → Entered g id ud name
unfolding on_accept report
on_accept-Entered g chain id ud name v len listening room fits absent =
    let (t', chain', s, run, v', below, cap, count, found) = insert-Inv ud v fits room absent in
    let there : (g.listen_id == id) ≡ true = ground arith in
    let at : s < g.conn.len = omega arith in
    let here : lookup t' ud ≡ ok (some s) =
      found ud none absent ∙ ap (λ b. ok (if b then some s else none)) (==_refl ud) in
    let c = record (g.conn.cell s) { id = ud; remote_name = kept_name name } in
    (
      record g { hash = t'; conn = record g.conn { cell = update g.conn.cell s c } },
      chain',
      s,
      rw (there, room, run, get-ok g.conn s at, put-ok g.conn s c at) refl,
      v',
      below,
      count,
      here,
      update-same g.conn.cell s c,
    )

-- No socket has the slot `s` any more.
abbrev pub Left : Gate → ℕ → ℕ → Cells → List ℕ → Type 0
Left g id s xs fs =
    (g' : Gate) × (chain' : ℕ → List ℕ) × (fs' : List ℕ) × (on_close g id
      ≡ ok (g', report g (close_line id (g.conn.cell s).agent)))
    × Inv g'.hash chain'
    × (g.hash.count ≡ suc g'.hash.count)
    × (lookup g'.hash id ≡ ok none)
    × (g'.conn.cell s ≡ closed)
    × Holds empty_buffer g'.mp [] fs'
    × ((b : ℕ) → has b fs' ≡ (has b (addresses xs) || has b fs))
    × (g'.mp.pool ≡ g.mp.pool)
    × Untouched g.mp g'.mp xs fs [] fs'

-- SKYNET_SOCKET_TYPE_CLOSE and _ERROR for a socket that the table has at slot `s`: the branch ends,
-- the table keeps its invariant and has one id less, the socket is no longer found, the connection
-- in the slot is as gate_init leaves it, the free list has just its cells and those of the buffer's
-- messages with no other cell in use changed and no block taken, and the watchdog is told, if there is one.
pub on_close-Left :
    (g : Gate) (chain : ℕ → List ℕ) (id s : ℕ) (xs : Cells) (fs : List ℕ)
    → Inv g.hash chain
    → lookup g.hash id ≡ ok (some s)
    → s < g.conn.len
    → Holds (g.conn.cell s).buffer g.mp xs fs
    → Left g id s xs fs
unfolding on_close report
on_close-Left g chain id s xs fs v known at held =
    let ((t', r), run, (chain', v', before, cap, count, after)) = remove-Inv v id in
    let same : r ≡ some s = cc (before, known) in
    let gone : lookup t' id ≡ ok none =
      after id r before ∙ ap (λ b. ok (if b then none else r)) (==_refl id) in
    let (mp', fs', cleared, empty, all, pool, u) = databuffer_clear-Holds held in
    let one_less : g.hash.count ≡ suc t'.count =
      omega (arith, count ∙ ap (λ q. taken_count q + t'.count) same) in
    let run' : remove g.hash id ≡ ok (t', some s) = run ∙ ap (λ q. ok (t', q)) same in
    (
      record g { hash = t'; mp = mp'; conn = record g.conn { cell = update g.conn.cell s closed } },
      chain',
      fs',
      rw (run', get-ok g.conn s at, cleared, put-ok g.conn s closed at) refl,
      v',
      one_less,
      gone,
      update-same g.conn.cell s closed,
      empty,
      all,
      pool,
      u,
    )
