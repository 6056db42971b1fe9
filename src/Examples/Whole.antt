-- ===== src/Examples/Whole.antt =====
-- The gate of service_gate.c as a whole: one with two connections of which socket 5 has slot 1, and
-- one that gate_init has made.
use mathlib.Core.List.{filter_map}
use myprogram.Prelude.{
  ℕ, ◌↔◌, false, ◌*◌, ◌<◌, ◌≡◌, refl, none, ltb, if◌then◌else◌, some, List, [], ◌∷◌, arith, ok, get,
  ◌>>=◌, length,
}
use myprogram.HashId.{bucket, walk, lookup, clear, minus_one, blank, init, grow}
use myprogram.DataBuffer.{MessagePool, message_pool, empty_pool}
use myprogram.DataBuffer.Invariant.{empty_buffer-Holds}
use myprogram.CText.{ascii, skip_space, sign, strtol, digits_value, strtoul10, memcmp_eq}
use myprogram.Gate.{client, closed, Action, is_negative, Gate, Skynet, socket_close, socket_connect}
use myprogram.Gate.Service.{gate_create, gate_init, gate_release, cb, scan_word, text_message}
use myprogram.Gate.Whole.{GateInv, IsWhole}
use myprogram.Gate.Texts.{AdmitsText}
use myprogram.Gate.Served.{Answers, InitArguments, here, next, gate_init-Served}
use myprogram.Gate.Control.{ctrl, word_length, connect, span_word, skip_blanks}
use myprogram.Gate.Connecting.{ip_of, port_of, gate_release-connect}
use myprogram.Gate.Released.{Asks, Kept, gate_release-closes}
use myprogram.Gate.Alone.{Arrivals}
use myprogram.Gate.Interleaved.{ServedAlone}
use myprogram.Gate.Merged.{serve_all-ServedAlone}
use myprogram.Examples.Table.{one_table_holds, absent6}
use myprogram.Examples.Socket.{gate, skynet}

gate-GateInv : GateInv gate one_table_holds.0 (λ _. []) []
gate-GateInv = record {
  table = one_table_holds.1;
  len = refl;
  size = refl;
  header_size = refl;
  buffers = record {
    holds = λ s below. empty_buffer-Holds;
    apart = λ s u b below below' ne there. refl;
  };
  idle = λ s below alone. refl;
}

gate-IsWhole : IsWhole gate
gate-IsWhole = (one_table_holds.0, λ _. [], [], gate-GateInv)

gate_release-closes_example :
    (mp : MessagePool) × (acts : List Action) × (gate_release gate ≡ ok (acts, mp, clear gate.hash))
    × ((id : ℕ) → Asks id acts ↔ ((is_negative id ≡ false) × Kept gate 2 id))
    × (acts ≡ socket_close 5 ∷ socket_close 5 ∷ socket_close 3 ∷ [])
    × (mp.pool ≡ 0)
    × (mp.freelist ≡ none)
    × ((a : ℕ) → mp.cell a ≡ (if ltb a (message_pool * 0) then none else none))
unfolding filter_map
gate_release-closes_example = gate_release-closes gate gate-IsWhole

-- Two bytes of socket 5, then one of a socket that is not there, then the other two of socket 5.
abbrev arrivals : Arrivals
arrivals = (5, 0 ∷ 0 ∷ []) ∷ (6, 7 ∷ []) ∷ (5, 0 ∷ 0 ∷ []) ∷ []

serve_all-ServedAlone_example : ServedAlone gate (gate.conn.cell 1) 5 1 [] arrivals
serve_all-ServedAlone_example =
    serve_all-ServedAlone arrivals 5 1 gate one_table_holds.0 (λ _. []) [] gate-GateInv
      one_table_holds.2 (λ t below. omega arith)

-- The arguments `!` for the address and 7 for the watchdog, with two connections.
abbrev init_parm : List ℕ
init_parm = b'!' ∷ b' ' ∷ b'7' ∷ []

abbrev pub two : List ℕ
two = b'2' ∷ []

init_parm-InitArguments : InitArguments two init_parm
unfolding scan_word skip_space sign strtol digits_value
init_parm-InitArguments = (omega arith, refl, omega arith, omega arith)

abbrev pub fresh : Gate
fresh = record {
  listen_id = minus_one;
  watchdog = 7;
  broker = 0;
  client_tag = client;
  header_size = 4;
  max_connection = 2;
  hash = blank 2 16;
  conn = record { len = 2; cell = λ _. closed };
  mp = empty_pool;
  bind = [];
}

fresh_run : gate_init skynet gate_create two (some init_parm) ≡ ok (fresh, [], 0)
unfolding gate_init gate_create scan_word skip_space sign strtol digits_value strtoul10 init grow
fresh_run = refl

-- The text `broker .b`, with two answers of skynet for the name.
abbrev broker_text : List ℕ
broker_text = ascii "broker .b"

abbrev renamed : Skynet
renamed = record skynet { queryname = λ name. 8 }

abbrev brokered : ℕ → Gate
brokered n = record fresh { broker = n }

first_run : cb skynet fresh (text_message broker_text) 9 ≡ ok (brokered 6, [], 0)
unfolding cb ctrl word_length memcmp_eq
first_run = refl

second_run : cb renamed (brokered 6) (text_message broker_text) 9 ≡ ok (brokered 8, [], 0)
unfolding cb ctrl word_length memcmp_eq
second_run = refl

broker_text-AdmitsText : (sk : Skynet) (g : Gate) → AdmitsText sk g broker_text
unfolding memcmp_eq word_length
broker_text-AdmitsText sk g = (omega arith, λ not_close is_connect. absurd (cc is_connect))

-- The text `connect` with an ip and a port, for which skynet gives the socket 7.
abbrev connect_text : List ℕ
connect_text = ascii "connect 10.0.0.1 80"

abbrev connecting7 : Skynet
connecting7 = record skynet { connect = λ ip port. 7 }

connect_text-AdmitsText : AdmitsText connecting7 (brokered 8) connect_text
unfolding word_length span_word skip_blanks lookup get bucket walk
connect_text-AdmitsText = (
  omega arith,
  λ not_close is_connect. (omega arith, omega arith, omega arith, λ room. (refl, omega arith)),
)

gate_init-Served_example : Answers (cb connecting7 (brokered 8) (text_message connect_text) 9)
gate_init-Served_example =
    gate_init-Served skynet connecting7 two init_parm fresh (brokered 8) [] 0
      (text_message connect_text) 9 init_parm-InitArguments fresh_run
      (next renamed (text_message broker_text) 9 [] 0
        (next skynet (text_message broker_text) 9 [] 0 here (broker_text-AdmitsText skynet fresh)
          first_run)
        (broker_text-AdmitsText renamed (brokered 6)) second_run)
      connect_text-AdmitsText

-- The command with an ip and a port, and a skynet that gives the socket 6.
abbrev address : List ℕ
address = ascii "10.0.0.1 80"

abbrev connecting : Skynet
connecting = record skynet { connect = λ ip port. 6 }

address_parts : (length (ip_of address) < 100) × (length (port_of address) < 50)
unfolding span_word skip_blanks
address_parts = omega arith

gate_release-connect_example :
    (g' : Gate) × (s : ℕ) × (connect connecting gate 9 address
      ≡ ok (g', socket_connect (ip_of address) (strtol (port_of address)) ∷ []))
    × IsWhole g'
    × (lookup g'.hash 6 ≡ ok (some s))
    × ((g'.conn.cell s).agent ≡ 9)
    × ((gate_release g' >>= λ out. ok out.0) ≡ (gate_release gate >>= λ out. ok out.0))
gate_release-connect_example =
    gate_release-connect connecting gate 9 6 address gate-IsWhole refl address_parts.0
      address_parts.1 refl absent6 (omega arith)
