-- ===== src/Gate/Control.antt =====
-- service_gate.c: the text commands, _parm, _forward_agent, start_listen and _ctrl.
use myprogram.Prelude.{
  ℕ, suc, Bool, ◌||◌, none, some, List, [], ◌∷◌, ◌++◌, ltb, leb, ◌==◌, if◌then◌else◌, Run, ok,
  ◌>>=◌, ◌>>◌, assert, get, put, length, take, drop,
}
use myprogram.HashId.{minus_one, lookup, insert, full}
use myprogram.CText.{c_string, strtol, strtoul16, strsep, strchr, memcmp_eq}
use myprogram.Gate.{
  Gate, Action, Skynet, is_negative, socket_close, socket_start, socket_listen, socket_connect,
}

unfoldable pub skip_blanks : List ℕ → List ℕ
skip_blanks [] = []
skip_blanks (c ∷ cs) = if c == b' ' then skip_blanks cs else c ∷ cs

-- _parm: `msg` is the array of `sz + 1` bytes, the last one 0. The blanks behind the command go,
-- the parameter moves to the front, and what the array held behind it stays.
unfoldable pub parm : List ℕ → ℕ → ℕ → List ℕ
unfolding skip_blanks
parm msg sz command_sz =
    let body = skip_blanks (drop command_sz (take sz msg)) in
    body ++ 0 ∷ drop (suc (length body)) msg

-- _forward_agent
unfoldable pub forward_agent : Gate → ℕ → ℕ → ℕ → Run Gate
forward_agent g fd agentaddr clientaddr = do
  id ← lookup g.hash fd
  elim id [
    | none ↦ ok g
    | some s ↦ do
      c ← get g.conn s
      conn ← put g.conn s (record c { agent = agentaddr; client = clientaddr })
      ok (record g { conn = conn })
  ]

-- The end of start_listen, once the host and the port are known. The result is what it returns.
unfoldable pub listen_at : Skynet → Gate → List ℕ → ℕ → Gate × List Action × ℕ
listen_at sk g host port =
    let fd = sk.listen host port in
    let g' = record g { listen_id = fd } in
    if is_negative fd
    then (g', socket_listen host port ∷ [], 1)
    else (g', socket_listen host port ∷ socket_start fd ∷ [], 0)

-- A port that strtol reads is refused if it is not above 0.
abbrev pub bad_port : ℕ → Bool
bad_port port = is_negative port || (port == 0)

-- start_listen: the gate, the address as the call leaves it, the calls of skynet and the result. A
-- colon in the address is overwritten by a 0, and the address is the host from then on.
unfoldable pub start_listen : Skynet → Gate → List ℕ → Gate × List ℕ × List Action × ℕ
unfolding listen_at
start_listen sk g addr = elim (strchr b':' addr) [
  | none ↦
      let (g', acts, ret) = listen_at sk g [] (strtol addr) in
      if bad_port (strtol addr) then (g, addr, [], 1) else (g', addr, acts, ret)
  | some (host, portstr) ↦
      let (g', acts, ret) = listen_at sk g host (strtol portstr) in
      if bad_port (strtol portstr) then (g, addr, [], 1) else (g', host, acts, ret)
]

-- The length of the first word of a message.
unfoldable pub word_length : List ℕ → ℕ
word_length [] = 0
word_length (c ∷ cs) = if c == b' ' then 0 else suc (word_length cs)

-- kick
unfoldable pub kick : Gate → List ℕ → Run (Gate × List Action)
kick g command = do
  let uid = strtol command
  id ← lookup g.hash uid
  elim id [ none ↦ ok (g, []) | some _ ↦ ok (g, socket_close uid ∷ []) ]

-- forward: an agent's word may be empty, and then the byte behind it is that of the next word.
unfoldable pub set_forward : Gate → List ℕ → Run (Gate × List Action)
set_forward g tmp =
    let (idstr, behind_id) = strsep tmp in
    elim behind_id [
      | none ↦ ok (g, [])
      | some rest ↦
          let (agent, behind_agent) = strsep rest in
          elim behind_agent [
            | none ↦ ok (g, [])
            | some client ↦ do
              let agent_handle = strtoul16 (drop 1 (agent ++ 0 ∷ client))
              let client_handle = strtoul16 (drop 1 client)
              g' ← forward_agent g (strtol idstr) agent_handle client_handle
              ok (g', [])
          ]
    ]

-- start
unfoldable pub start : Gate → List ℕ → Run (Gate × List Action)
start g command = do
  let uid = strtol command
  id ← lookup g.hash uid
  elim id [ none ↦ ok (g, []) | some _ ↦ ok (g, socket_start uid ∷ []) ]

-- close
unfoldable pub close : Gate → Gate × List Action
close g =
    if is_negative g.listen_id
    then (g, [])
    else (record g { listen_id = minus_one }, socket_close g.listen_id ∷ [])

-- The word in front, up to a blank or the end of the string, and what follows it.
unfoldable pub span_word : List ℕ → List ℕ × List ℕ
span_word [] = ([], [])
span_word (c ∷ cs) =
    let (word, rest) = span_word cs in
    if (c == 0) || (c == b' ') then ([], c ∷ cs) else (c ∷ word, rest)

-- connect: `p` is the text behind the command. The ip and the port go into arrays of 100 and 50
-- bytes with a 0 behind them. The new id is in the table, and the agent of its slot is the sender.
unfoldable pub connect : Skynet → Gate → ℕ → List ℕ → Run (Gate × List Action)
unfolding skip_blanks span_word
connect sk g source p = do
  let (ip, behind_ip) = span_word (skip_blanks p)
  let (port, _) = span_word (skip_blanks behind_ip)
  assert (ltb (length ip) 100)
  assert (ltb (length port) 50)
  let iport = strtol port
  let fd = sk.connect ip iport
  let join = (do
    (hash, _) ← insert g.hash fd
    g' ← forward_agent (record g { hash = hash }) fd source 0
    ok (g', socket_connect ip iport ∷ []))
  if full g.hash then ok (g, []) else join

-- listen: the address is the one that gate_init kept, and is changed as start_listen changes it.
unfoldable pub listen : Skynet → Gate → Gate × List Action
listen sk g =
    let (g', addr, acts, _) = start_listen sk g g.bind in (record g' { bind = addr }, acts)

abbrev pub kick_word : List ℕ
kick_word = b'k' ∷ b'i' ∷ b'c' ∷ b'k' ∷ 0 ∷ []

abbrev pub forward_word : List ℕ
forward_word = b'f' ∷ b'o' ∷ b'r' ∷ b'w' ∷ b'a' ∷ b'r' ∷ b'd' ∷ 0 ∷ []

abbrev pub broker_word : List ℕ
broker_word = b'b' ∷ b'r' ∷ b'o' ∷ b'k' ∷ b'e' ∷ b'r' ∷ 0 ∷ []

abbrev pub start_word : List ℕ
start_word = b's' ∷ b't' ∷ b'a' ∷ b'r' ∷ b't' ∷ 0 ∷ []

abbrev pub close_word : List ℕ
close_word = b'c' ∷ b'l' ∷ b'o' ∷ b's' ∷ b'e' ∷ 0 ∷ []

abbrev pub connect_word : List ℕ
connect_word = b'c' ∷ b'o' ∷ b'n' ∷ b'n' ∷ b'e' ∷ b'c' ∷ b't' ∷ 0 ∷ []

abbrev pub listen_word : List ℕ
listen_word = b'l' ∷ b'i' ∷ b's' ∷ b't' ∷ b'e' ∷ b'n' ∷ 0 ∷ []

-- _ctrl: the commands are tried in this order, each by the bytes of the first word alone. The text
-- behind `connect` begins at `i + 1`, which must lie in the array of `sz + 1` bytes.
unfoldable pub ctrl : Skynet → Gate → List ℕ → ℕ → Run (Gate × List Action)
ctrl sk g msg source =
    let sz = length msg in
    let tmp = msg ++ 0 ∷ [] in
    let i = word_length msg in
    let command = parm tmp sz i in
    let run = (do
      is_kick ← memcmp_eq i tmp kick_word
      if is_kick then kick g command else do
        is_forward ← memcmp_eq i tmp forward_word
        if is_forward then set_forward g command else do
          is_broker ← memcmp_eq i tmp broker_word
          if is_broker then ok (record g { broker = sk.queryname (c_string command) }, []) else do
            is_start ← memcmp_eq i tmp start_word
            if is_start then start g command else do
              is_close ← memcmp_eq i tmp close_word
              if is_close then ok (close g) else do
                is_connect ← memcmp_eq i tmp connect_word
                if is_connect
                    then (assert (leb (suc i) sz) >> connect sk g source (drop (suc i) tmp))
                    else do
                      is_listen ← memcmp_eq i tmp listen_word
                      ok (if is_listen then listen sk g else (g, []))) in
    if sz == 0 then ok (g, []) else run
