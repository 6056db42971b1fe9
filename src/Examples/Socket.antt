-- ===== src/Examples/Socket.antt =====
-- A gate of service_gate.c with two connections, whose watchdog is service 7. Socket 5 has slot 1.
use myprogram.Prelude.{some, true, false, ℕ, ◌≡◌, refl, List, [], ◌∷◌, arith, ok}
use myprogram.DataBuffer.{DataBuffer, MessagePool, empty_buffer, empty_pool}
use myprogram.DataBuffer.Invariant.{empty_buffer-Holds, Cells, Holds, Holds-of_header, pending}
use myprogram.Gate.{Skynet, Gate, Connection, Action, client, closed, dispatch_message}
use myprogram.Gate.Stream.{drain}
use myprogram.Gate.Unread.{packet, dispatch_message-unread}
use myprogram.Gate.Delivery.{Delivered, dispatch_message-Delivered, with_buffer}
use myprogram.Gate.Packets.{sent_all}
use myprogram.Gate.Feed.{feed, feed-Packets, Empty}
use myprogram.Gate.Stuck.{dispatch_message-stuck}
use myprogram.Gate.Control.{listen, close, bad_port}
use myprogram.Gate.Relisten.{listen-close_again}
use myprogram.CText.{strchr, strtol, skip_space, sign, digits_value}
use myprogram.Gate.Sessions.{Entered, Left, on_accept-Entered, on_close-Left}
use myprogram.Examples.Buffer.{two_messages, buffer, cells, buffer-Holds}
use myprogram.Examples.Table.{one_table, one_table_holds, absent6}

abbrev pub listening : Connection → Gate
listening c = record {
  listen_id = 3;
  watchdog = 7;
  broker = 0;
  client_tag = client;
  header_size = 4;
  max_connection = 2;
  hash = one_table;
  conn = record { len = 2; cell = λ _. c };
  mp = empty_pool;
  bind = [];
}

abbrev pub gate : Gate
gate = listening (record closed { id = 5 })

-- The packet 65 66 comes in two pieces, cut inside the length.
feed-Packets_example :
    (g' : Gate) × (feed gate 1 5 ((0 ∷ 0 ∷ []) ∷ (0 ∷ 2 ∷ 65 ∷ 66 ∷ []) ∷ [])
      ≡ ok (g', sent_all gate (gate.conn.cell 1) ((65 ∷ 66 ∷ []) ∷ [])))
    × Empty g' 1 (gate.conn.cell 1)
feed-Packets_example =
    feed-Packets gate 1 5 ((65 ∷ 66 ∷ []) ∷ []) (0 ∷ 0 ∷ []) ((0 ∷ 2 ∷ 65 ∷ 66 ∷ []) ∷ []) [] []
      (omega arith) refl empty_buffer-Holds refl refl refl (omega arith, omega arith, tt) refl
      (omega arith)

dispatch_message-Delivered_example :
    Delivered gate 1 (gate.conn.cell 1) 5 (0 ∷ 0 ∷ 0 ∷ 1 ∷ 65 ∷ 0 ∷ []) [] []
dispatch_message-Delivered_example =
    dispatch_message-Delivered gate 1 5 (0 ∷ 0 ∷ 0 ∷ 1 ∷ 65 ∷ 0 ∷ []) [] [] (omega arith) refl
      empty_buffer-Holds (omega arith)

-- The header 0x80000000 has been read.
abbrev stuck : Gate
stuck = listening (record closed { id = 5; buffer = record empty_buffer { header = 0x80000000 } })

dispatch_message-stuck_example :
    (db : DataBuffer) × (mp : MessagePool) × (xs' : Cells) × (fs' : List ℕ) × (dispatch_message
        stuck 1 5
        (65 ∷ [])
        1
      ≡ ok (with_buffer stuck 1 (stuck.conn.cell 1) db mp, []))
    × Holds db mp xs' fs'
    × (db.header ≡ 0x80000000)
    × (pending db xs' ≡ 65 ∷ [])
dispatch_message-stuck_example =
    dispatch_message-stuck stuck 1 5 (65 ∷ []) [] [] (omega arith) refl
      (Holds-of_header 0x80000000 empty_buffer-Holds) (omega arith) (omega arith) refl

on_accept-Entered_example : Entered gate 3 6 (b'a' ∷ [])
on_accept-Entered_example =
    on_accept-Entered gate one_table_holds.0 3 6 (b'a' ∷ []) one_table_holds.1 refl refl refl
      (omega arith) absent6

-- A gate whose connections have the buffer with two messages.
abbrev loaded : Gate
loaded = record (listening (record closed { id = 5; buffer = buffer })) { mp = two_messages }

on_close-Left_example : Left loaded 5 1 cells (2 ∷ [])
on_close-Left_example =
    on_close-Left loaded one_table_holds.0 5 1 cells (2 ∷ []) one_table_holds.1 one_table_holds.2
      (omega arith) buffer-Holds

-- The address `a:80`.
abbrev bound : Gate
bound = record gate { bind = b'a' ∷ b':' ∷ b'8' ∷ b'0' ∷ [] }

abbrev pub skynet : Skynet
skynet = record { listen = λ host port. 4; connect = λ ip port. 5; queryname = λ name. 6 }

split_bound : strchr b':' bound.bind ≡ some (b'a' ∷ [], b'8' ∷ b'0' ∷ [])
unfolding strchr
split_bound = refl

port_80 : bad_port (strtol (b'8' ∷ b'0' ∷ [])) ≡ false
unfolding strtol skip_space sign digits_value
port_80 = refl

port_a : bad_port (strtol (b'a' ∷ [])) ≡ true
unfolding strtol skip_space sign digits_value
port_a = refl

listen-close_again_example :
    listen skynet (close (listen skynet bound).0).0 ≡ ((close (listen skynet bound).0).0, [])
listen-close_again_example =
    listen-close_again skynet bound (b'a' ∷ []) (b'8' ∷ b'0' ∷ []) split_bound port_80 port_a

-- A gate with nobody to have the packet 65 66 of socket 5.
abbrev lonely : Gate
lonely = record gate { watchdog = 0; broker = 0 }

dispatch_message-unread_example :
    (db : DataBuffer) × (mp : MessagePool) × (xs' : Cells) × (fs' : List ℕ) × (sent : List Action)
    × (dispatch_message lonely 1 5 (packet 0 0 0 2 (65 ∷ 66 ∷ [])) 6
        ≡ ok (with_buffer lonely 1 (lonely.conn.cell 1) db mp, sent))
    × Holds db mp xs' fs'
    × (drain 6 lonely (lonely.conn.cell 1) 5 0 (65 ∷ 66 ∷ [])
        ≡ ok (db.header, pending db xs', sent))
dispatch_message-unread_example =
    dispatch_message-unread lonely 1 5 0 0 0 2 (65 ∷ 66 ∷ []) [] [] (omega arith) refl
      empty_buffer-Holds refl refl refl (omega arith) (omega arith) (omega arith) (omega arith)
