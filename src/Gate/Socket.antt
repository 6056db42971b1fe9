-- ===== src/Gate/Socket.antt =====
-- service_gate.c: the messages of the sockets, _report and dispatch_socket_message.
use myprogram.Prelude.{
  ℕ, none, some, List, [], ◌∷◌, ◌++◌, ltb, ◌==◌, if◌then◌else◌, Run, ok, ◌>>=◌, ◌>>◌, assert, get,
  put, length, take,
}
use myprogram.HashId.{lookup, remove, insert, full}
use myprogram.DataBuffer.{databuffer_clear}
use myprogram.CText.{ascii, c_string, print_int, print_unsigned}
use myprogram.Gate.{Gate, Action, text, closed, dispatch_message, socket_close, send}

-- struct skynet_socket_message, by its type: the socket `id`, the number `ud`, and the bytes that
-- the type comes with.
pub data SocketMessage : Type 0 where
  data_message : ℕ → List ℕ → SocketMessage
  connect_message close_message error_message : ℕ → SocketMessage
  accept_message : ℕ → ℕ → List ℕ → SocketMessage
  warning_message : ℕ → ℕ → SocketMessage
  other_message : SocketMessage

-- `htonl(19)` as four bytes.
abbrev pub sub_type : List ℕ
sub_type = 0 ∷ 0 ∷ 0 ∷ 19 ∷ []

-- _report: `line` is what vsnprintf makes of the format and its arguments.
unfoldable pub report : Gate → List ℕ → List Action
report g line = if g.watchdog == 0 then [] else send 0 g.watchdog text 0 (sub_type ++ line) ∷ []

abbrev pub accept_line : ℕ → List ℕ → List ℕ
accept_line id name = ascii "gate accept " ++ print_int id ++ b' ' ∷ name

abbrev pub close_line : ℕ → ℕ → List ℕ
close_line id agent = ascii "gate close " ++ print_int id ++ b' ' ∷ print_unsigned agent

-- `htonl(19)` as a number, on a machine that keeps the low byte first.
abbrev pub swapped_sub_type : ℕ
swapped_sub_type = 0x13000000

abbrev pub connected_line : ℕ → List ℕ
connected_line id = print_unsigned swapped_sub_type ++ ascii " connected " ++ print_int id

unfoldable pub on_data : Gate → ℕ → List ℕ → Run (Gate × List Action)
on_data g id bytes = do
  slot ← lookup g.hash id
  elim slot [
    | none ↦ ok (g, socket_close id ∷ [])
    | some s ↦ dispatch_message g s id bytes (length bytes)
  ]

unfoldable pub on_connect : Gate → ℕ → Run (Gate × List Action)
on_connect g id =
    let tell = (do
      slot ← lookup g.hash id
      elim slot [
        | none ↦ ok (g, socket_close id ∷ [])
        | some s ↦ do c ← get g.conn s; ok (g, send 0 c.agent text 0 (connected_line id) ∷ [])
      ]) in
    if id == g.listen_id then ok (g, []) else tell

unfoldable pub on_close : Gate → ℕ → Run (Gate × List Action)
unfolding report
on_close g id = do
  (hash, slot) ← remove g.hash id
  elim slot [
    | none ↦ ok (record g { hash = hash }, [])
    | some s ↦ do
      c ← get g.conn s
      (_, mp) ← databuffer_clear c.buffer g.mp
      conn ← put g.conn s closed
      let g' = record g { hash = hash; mp = mp; conn = conn }
      ok (g', report g' (close_line id c.agent))
  ]

-- The array remote_name has 32 bytes, the last of them for a 0.
unfoldable pub on_accept : Gate → ℕ → ℕ → List ℕ → Run (Gate × List Action)
unfolding report
on_accept g id ud name = do
  assert (g.listen_id == id)
  let enter = (do
    (hash, s) ← insert g.hash ud
    c ← get g.conn s
    let kept = c_string (if ltb (length name) 32 then name else take 31 name)
    conn ← put g.conn s (record c { id = ud; remote_name = kept })
    let g' = record g { hash = hash; conn = conn }
    ok (g', report g' (accept_line ud kept)))
  if full g.hash then ok (g, socket_close ud ∷ []) else enter

-- dispatch_socket_message
unfoldable pub dispatch_socket_message : Gate → SocketMessage → Run (Gate × List Action)
dispatch_socket_message g (data_message id bytes) = on_data g id bytes
dispatch_socket_message g (connect_message id) = on_connect g id
dispatch_socket_message g (close_message id) = on_close g id
dispatch_socket_message g (error_message id) = on_close g id
dispatch_socket_message g (accept_message id ud name) = on_accept g id ud name
dispatch_socket_message g (warning_message id ud) = ok (g, [])
dispatch_socket_message g other_message = ok (g, [])
