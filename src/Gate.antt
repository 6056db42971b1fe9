-- ===== src/Gate.antt =====
-- skynet_test/skynet/mytest/gate/service_gate.c: the state of the gate, what it asks of skynet, and
-- the passage of received bytes to their receiver.
pub mod Control
pub mod Socket
pub mod Service
pub mod Stream
pub mod Refinement
pub mod Dispatch
pub mod Delivery
pub mod Chunks
pub mod Fuel
pub mod Pieces
pub mod Step
pub mod Feed
pub mod Stuck
pub mod Unread
pub mod Sessions
pub mod Relisten
pub mod Whole
pub mod Serve
pub mod Turnover
pub mod Handled
pub mod Commands
pub mod Texts
pub mod Alone
pub mod Interleaved
pub mod Merged
pub mod Served
pub mod Released
pub mod Connecting
pub mod Packets
use myprogram.Prelude.{
  ℕ, zero, suc, ◌+◌, ◌*◌, ◌^◌, Bool, true, false, List, [], ◌∷◌, ◌++◌, ltb, ◌==◌, if◌then◌else◌,
  Run, ok, out_of_fuel, ◌>>=◌, Array, get, put,
}
use myprogram.HashId.{HashId, minus_one}
use myprogram.DataBuffer.{
  DataBuffer, MessagePool, empty_buffer, databuffer_read, databuffer_push, databuffer_readheader,
  databuffer_reset, databuffer_clear,
}
use myprogram.CText.{print_int}

-- An int is its 32-bit pattern: it is negative from 2 ^ 31 on.
abbrev pub is_negative : ℕ → Bool
is_negative n = if ltb n (2 ^ 31) then false else true

pub record Connection : Type 0 where
  pub id : ℕ
  pub agent : ℕ
  pub client : ℕ
  pub remote_name : List ℕ
  pub buffer : DataBuffer

-- PTYPE_TEXT, and PTYPE_CLIENT.
pub data Tag : Type 0 where
  text client : Tag

pub record Gate : Type 0 where
  pub listen_id : ℕ
  pub watchdog : ℕ
  pub broker : ℕ
  pub client_tag : Tag
  pub header_size : ℕ
  pub max_connection : ℕ
  pub hash : HashId
  pub conn : Array Connection
  pub mp : MessagePool
  pub bind : List ℕ

-- The calls of skynet that have no result. `send source destination tag session payload` is
-- skynet_send.
pub data Action : Type 0 where
  socket_close socket_start : ℕ → Action
  socket_listen : List ℕ → ℕ → Action
  socket_connect : List ℕ → ℕ → Action
  socket_send : ℕ → List ℕ → Action
  send : ℕ → ℕ → Tag → ℕ → List ℕ → Action

-- What skynet returns to the gate while one message is handled: the socket of a listener, the socket
-- of a connection, and the handle of a service name. A message makes one such call at most, so the
-- answers may differ from message to message.
pub record Skynet : Type 0 where
  pub listen : List ℕ → ℕ → ℕ
  pub connect : List ℕ → ℕ → ℕ
  pub queryname : List ℕ → ℕ

-- A connection as `memset` and `c->id = -1` leave it.
abbrev pub closed : Connection
closed = record { id = minus_one; agent = 0; client = 0; remote_name = []; buffer = empty_buffer }

-- Where a message goes, with what stands in front of it.
abbrev pub forwarded : Gate → Connection → List ℕ → Action
forwarded g c bs =
    if g.broker == 0
    then (if c.agent == 0
        then send 0 g.watchdog g.client_tag 0 (print_int c.id ++ b' ' ∷ bs)
        else send c.client c.agent g.client_tag 0 bs)
    else send 0 g.broker g.client_tag 0 bs

abbrev pub has_receiver : Gate → Connection → Bool
has_receiver g c =
    if g.broker == 0
    then (if c.agent == 0 then (if g.watchdog == 0 then false else true) else true)
    else true

-- The call reads the message only if there is somebody to have it.
unfoldable pub forward :
    Gate → Connection → DataBuffer → MessagePool → ℕ → Run (DataBuffer × MessagePool × List Action)
forward g c db mp size =
    if has_receiver g c
    then (do (db', mp', bs) ← databuffer_read db mp size; ok (db', mp', forwarded g c bs ∷ []))
    else ok (db, mp, [])

-- The loop of dispatch_message over the buffer of the connection `c`, whose socket is `id`.
unfoldable pub dispatch_loop :
    ℕ
    → Gate
    → Connection
    → ℕ
    → DataBuffer
    → MessagePool
    → Run (DataBuffer × MessagePool × List Action)
dispatch_loop zero g c id db mp = out_of_fuel
dispatch_loop (suc k) g c id db mp = do
  (db1, mp1, size) ← databuffer_readheader db mp g.header_size
  let again = dispatch_loop k g c id db1 mp1
  let pass = (do
    (db2, mp2, sent) ← forward g c db1 mp1 size
    (db3, mp3, rest) ← dispatch_loop k g c id (databuffer_reset db2) mp2
    ok (db3, mp3, sent ++ rest))
  let refuse = (do (db2, mp2) ← databuffer_clear db1 mp1; ok (db2, mp2, socket_close id ∷ []))
  if is_negative size
      then ok (db1, mp1, [])
      else (if size == 0 then again else (if ltb size 0x1000000 then pass else refuse))

-- Each round takes a byte or clears the header, so twice the bytes and two are enough.
unfoldable pub dispatch_message : Gate → ℕ → ℕ → List ℕ → ℕ → Run (Gate × List Action)
dispatch_message g s id bytes sz = do
  c ← get g.conn s
  (db, mp) ← databuffer_push c.buffer g.mp bytes sz
  (db', mp', sent) ← dispatch_loop (2 * db.size + 2) g c id db mp
  conn ← put g.conn s (record c { buffer = db' })
  ok (record g { conn = conn; mp = mp' }, sent)
