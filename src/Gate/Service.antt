-- ===== src/Gate/Service.antt =====
-- service_gate.c: gate_create, gate_init, _cb and gate_release.
use myprogram.Prelude.{
  ℕ, zero, suc, ◌+◌, ◌-◌, ◌*◌, ◌^◌, Bool, false, ◌&&◌, Option, none, some, List, [], ◌∷◌, ◌++◌, ltb,
  leb, ◌==◌, if◌then◌else◌, Run, ok, ◌>>=◌, ◌>>◌, assert, get, length, take, drop,
}
use myprogram.HashId.{HashId, minus_one, init, clear, lookup}
use myprogram.HashId
use myprogram.DataBuffer.{MessagePool, empty_pool, messagepool_free}
use myprogram.CText.{is_space, skip_space, sign, strtol, strtoul10}
use myprogram.Gate.{
  Gate, Action, Skynet, Tag, client, closed, is_negative, socket_close, socket_send,
}
use myprogram.Gate.Control.{ctrl, start_listen}
use myprogram.Gate.Socket.{SocketMessage, dispatch_socket_message}

-- gate_create: `memset` and `listen_id = -1`. A table that is all 0 is one with no arrays.
unfoldable pub gate_create : Gate
gate_create = record {
  listen_id = minus_one;
  watchdog = 0;
  broker = 0;
  client_tag = Tag.text;
  header_size = 0;
  max_connection = 0;
  hash = record (clear (HashId.blank 0 0)) { hashmod = 0 };
  conn = record { len = 0; cell = λ _. closed };
  mp = empty_pool;
  bind = [];
}

-- A message of skynet, by its type.
pub data Message : Type 0 where
  text_message client_message : List ℕ → Message
  socket_message : SocketMessage → Message
  other_message : Message

-- The number in four bytes, the low byte first.
abbrev pub low_first : List ℕ → ℕ
low_first [] = 0
low_first (b ∷ bs) = b + 2 ^ 8 * low_first bs

-- The branch of PTYPE_CLIENT: the last four bytes are the socket, the others go to it.
unfoldable pub on_client : Gate → List ℕ → Run (Gate × List Action × ℕ)
on_client g msg =
    let front = length msg - 4 in
    let uid = low_first (drop front msg) in
    let pass = (do
      slot ← lookup g.hash uid
      elim slot [
        | none ↦ ok (g, [], 0)
        | some _ ↦ ok (g, socket_send uid (take front msg) ∷ [], 1)
      ]) in
    if leb (length msg) 4 then ok (g, [], 0) else pass

-- _cb: the gate, the calls of skynet, and the result, which is 1 if the message must not be freed.
unfoldable pub cb : Skynet → Gate → Message → ℕ → Run (Gate × List Action × ℕ)
cb sk g (text_message msg) source = do (g', acts) ← ctrl sk g msg source; ok (g', acts, 0)
cb sk g (client_message msg) source = on_client g msg
cb sk g (socket_message m) source = do (g', acts) ← dispatch_socket_message g m; ok (g', acts, 0)
cb sk g other_message source = ok (g, [], 0)

-- `%s`: the word in front, up to white space, and what follows it.
unfoldable pub scan_word : List ℕ → List ℕ × List ℕ
scan_word [] = ([], [])
scan_word (c ∷ cs) =
    let (word, rest) = scan_word cs in if is_space c then ([], c ∷ cs) else (c ∷ word, rest)

abbrev pub starts_number : List ℕ → Bool
starts_number [] = false
starts_number (c ∷ cs) = leb b'0' c && leb c b'9'

-- `binding[0] == '!'`
abbrev pub starts_closed : List ℕ → Bool
starts_closed [] = false
starts_closed (c ∷ cs) = c == b'!'

-- gate_init with the value of max_online. Without a word and a number in `parm` the code goes on
-- with values that it has not set; a size below 0 has no meaning as one.
unfoldable pub gate_init : Skynet → Gate → List ℕ → Option (List ℕ) → Run (Gate × List Action × ℕ)
unfolding scan_word skip_space sign
gate_init sk g max_online none = ok (g, [], 1)
gate_init sk g max_online (some parm) = do
  let sz = length parm + 1
  let (binding, rest) = scan_word (skip_space parm)
  assert (ltb 0 (length binding))
  let (_, number) = sign (skip_space rest)
  assert (starts_number number)
  let watchdog = strtoul10 rest
  let max = strtol max_online
  assert (ltb max (2 ^ 31))
  hash ← init max
  let g' = record g {
    watchdog = watchdog;
    hash = hash;
    conn = record { len = max; cell = λ _. closed };
    max_connection = max;
    client_tag = client;
    header_size = 4;
  }
  if starts_closed binding then ok (g', [], 0) else do
    assert (leb sz 200)
    let (g'', _, acts, ret) = start_listen sk (record g' { bind = binding }) binding
    ok (g'', acts, ret)

-- The loop of gate_release over the connections from `i` on.
unfoldable pub close_all : ℕ → ℕ → Gate → Run (List Action)
close_all zero i g = ok []
close_all (suc n) i g = do
  c ← get g.conn i
  rest ← close_all n (i + 1) g
  ok (if is_negative c.id then rest else socket_close c.id ∷ rest)

-- gate_release: what it asks of skynet. The pool, the table and the connections are freed.
unfoldable pub gate_release : Gate → Run (List Action × MessagePool × HashId)
unfolding close_all
gate_release g = do
  closes ← close_all g.max_connection 0 g
  let listener = if is_negative g.listen_id then [] else socket_close g.listen_id ∷ []
  ok (closes ++ listener, messagepool_free g.mp, clear g.hash)
