-- ===== src/Chat/Tests.antt =====
-- The theorems at a list of two connections.
use linux_exercises.Base.{ℕ, ◌≡◌, refl, true, false, none, some, List, [], ◌∷◌, ◌++◌, arith}
use linux_exercises.Chat.State.{
  Text, Conn, unused, Heap, write, Chat, done, self_connect, removed, stale_read, printed,
}
use linux_exercises.Chat.Registry.{update_cell, Cells, node, Linked, IsRegistry, drop_cell, cell_at}
use linux_exercises.Chat.Threads.{peer, Outside, recv_ends, arrives, others}
use linux_exercises.Chat.Arrivals.{Holds, others_cells, others_id, accept_cells, accept_id}
use linux_exercises.Chat.Reap.{reap_node, reap_connections}
use linux_exercises.Chat.Reaping.{Reaped, reap_node-stale_read}
use linux_exercises.Chat.Walk.{reap_connections-Reaped}
use linux_exercises.Chat.Command.{
  Net, Config, Dial, is_valid_ipv4, cmd_connect, cmd_terminate, cmd_send, cmd_exit,
}
use linux_exercises.Strings.{strtol, same_text}
use linux_exercises.Chat.Send.{send_events, cmd_send-send_events}
use linux_exercises.Base.{All}
use linux_exercises.Chat.Exchange.{IsShort, IsPiece, Conversed, send_all-Conversed}
use linux_exercises.Chat.Terminate.{Terminated, cmd_terminate-Terminated}
use linux_exercises.Chat.Exit.{Exited, cmd_exit-Exited}
use linux_exercises.Chat.Connect.{refusal, cmd_connect-refusal, cmd_connect-Holds}
use linux_exercises.Chat.Ids.{UniqueIds, id_used, UniqueIds-others}
use linux_exercises.Base.{if◌then◌else◌}
use linux_exercises.Chat.Arrivals.{ended}
use linux_exercises.Chat.Receive.{
  Received, bytes, over, heard, conn_recv_thread, conn_recv_thread-heard,
}
use linux_exercises.Strings.{atoi}
use linux_exercises.Chat.Main.{
  connect, end_peer, send_to, not_positive, connect_word, terminate_word, send_word, parse_line,
}
use linux_exercises.Chat.Lines.{IsWord, parse_line-commands}

abbrev pub older : Conn
older = record {
  id = 0;
  sockfd = 4;
  ip = b'9' ∷ [];
  port = 5000;
  thread = 7;
  active = true;
  should_remove = false;
}

-- Its peer has gone.
abbrev pub newer : Conn
newer = record {
  id = 1;
  sockfd = 5;
  ip = b'8' ∷ [];
  port = 6000;
  thread = 8;
  active = false;
  should_remove = true;
}

abbrev pub two_cells : Cells
two_cells = (10, newer) ∷ (20, older) ∷ []

abbrev pub two_heap : Heap
two_heap = write (write (λ p. unused) 20 (node older 0)) 10 (node newer 20)

abbrev pub two : Chat
two = record { heap = two_heap; conn_head = 10; next_conn_id = 2; log = [] }

two-Linked : Linked two_heap two_cells
unfolding write
two-Linked = (omega arith, refl, refl, (omega arith, refl, refl, tt))

pub two-IsRegistry : IsRegistry two two_cells
two-IsRegistry = record { head = refl; linked = two-Linked }

pub two-Holds : Holds 2 two_cells two
two-Holds = record { registry = two-IsRegistry; id = refl }

-- While the main thread waits, another peer arrives, and the older connection's thread ends.
abbrev busy : List Outside
busy = arrives (peer 6 (b'7' ∷ []) 7000 30 (some 9)) ∷ recv_ends 20 ∷ []

reap_connections-Reaped_example :
    (t : Chat) × (m : ℕ) × (ys : Cells) × (reap_connections 30 9 (busy ∷ []) two ≡ done tt t)
    × Holds m ys t
    × Reaped 2 (busy ∷ []) two_cells m ys
reap_connections-Reaped_example =
    reap_connections-Reaped 30 9 2 (busy ∷ []) two_cells two two-Holds ((refl, (refl, tt)), tt)
      (omega arith) (omega arith)

cmd_terminate-Terminated_example :
    Terminated 9 2 0 busy two_cells 20 older two (cmd_terminate 9 busy 0 two)
cmd_terminate-Terminated_example =
    cmd_terminate-Terminated 9 2 0 busy two_cells 20 older two two-Holds refl (refl, (refl, tt))
      (omega arith)

cmd_exit-Exited_example : Exited 9 2 (some 3) 6 busy two_cells two (cmd_exit 9 (some 3) 6 busy two)
cmd_exit-Exited_example =
    cmd_exit-Exited 9 2 (some 3) 6 busy two_cells two two-Holds (refl, (refl, tt)) (omega arith)

-- An `inet_pton` that knows one address.
abbrev pub one_net : Net
one_net = record { pton = λ t. elim t [ [] ↦ none | c ∷ t ↦ some c ]; ntop = λ a. a ∷ [] }

abbrev config : Config
config = record { local_ip = b'6' ∷ []; listen_port = 4000 }

abbrev pub dial : Dial
dial = record { socket = some 11; reached = true; fresh = 40; thread = some 12 }

abbrev pub new_peer : Text
new_peer = b'5' ∷ []

abbrev pub port_text : Text
port_text = b'4' ∷ b'0' ∷ b'0' ∷ b'0' ∷ []

own_address : refusal one_net config (b'6' ∷ []) port_text two_cells ≡ some self_connect
unfolding is_valid_ipv4 strtol same_text
own_address = refl

not_refused : refusal one_net config new_peer port_text two_cells ≡ none
unfolding is_valid_ipv4 strtol same_text
not_refused = refl

cmd_connect-refusal_example :
    cmd_connect 9 one_net config dial [] (b'6' ∷ []) port_text two
    ≡ done tt (record two { log = printed self_connect ∷ [] })
cmd_connect-refusal_example =
    cmd_connect-refusal 9 one_net config dial [] (b'6' ∷ []) port_text two_cells two two-IsRegistry
      (omega arith) own_address

cmd_connect-Holds_example :
    (t : Chat) × (cmd_connect 9 one_net config dial busy new_peer port_text two ≡ done tt t)
    × Holds
        (accept_id (others_id 2 busy) (peer 11 (b'5' ∷ []) (strtol port_text).value 40 (some 12)))
        (accept_cells
          (others_id 2 busy)
          (peer 11 (b'5' ∷ []) (strtol port_text).value 40 (some 12))
          (others_cells 2 busy two_cells))
        t
cmd_connect-Holds_example =
    cmd_connect-Holds 9 one_net config dial busy new_peer port_text two_cells two two-Holds
      (refl, (refl, tt)) refl (omega arith) not_refused refl refl refl

cmd_send-send_events_example :
    cmd_send 9 true 0 (b'h' ∷ []) two
    ≡ done tt (record two { log = send_events true 0 (b'h' ∷ []) two_cells ++ [] })
cmd_send-send_events_example =
    cmd_send-send_events 9 true 0 (b'h' ∷ []) two_cells two two-IsRegistry (omega arith)

-- The connection with the id 0 ends after two messages; the other end has it too.
abbrev two_messages : List Text
two_messages = (b'h' ∷ b'i' ∷ []) ∷ (b'!' ∷ []) ∷ []

-- They arrive together.
abbrev one_piece : List Text
one_piece = (b'h' ∷ b'i' ∷ b'!' ∷ []) ∷ []

two_messages-IsShort : All IsShort two_messages
two_messages-IsShort = omega arith

one_piece-IsPiece : All IsPiece one_piece
one_piece-IsPiece = ground arith

send_all-Conversed_example :
    Conversed 9 2 0 busy two_cells 20 older two_messages one_piece two 20 two_cells older two
send_all-Conversed_example =
    send_all-Conversed 9 2 0 busy two_cells 20 older two_messages one_piece two 20 two_cells older
      two two-Holds refl refl refl two_messages-IsShort one_piece-IsPiece refl (refl, (refl, tt))
      (omega arith) two-IsRegistry refl

UniqueIds-others_example :
    (t : Chat) × (ys : Cells) × (others 9 busy two ≡ done tt t)
    × IsRegistry t ys
    × UniqueIds t.next_conn_id ys
    × (id_used t.next_conn_id ys ≡ false)
UniqueIds-others_example =
    UniqueIds-others 9 busy two two-Holds (omega arith, refl, (omega arith, refl, tt))
      (refl, (refl, tt)) (omega arith) (omega arith)

reap_node-stale_read_example :
    (t : Chat) × (c : Conn) × (reap_node 9 10 two ≡ done tt t)
    × (cell_at 10 two_cells ≡ some c)
    × IsRegistry t (drop_cell 10 two_cells)
    × (t.next_conn_id ≡ 2)
    × (t.log ≡ printed (removed c.id) ∷ stale_read 10 ∷ [])
reap_node-stale_read_example =
    reap_node-stale_read 9 10 two_cells two two-IsRegistry refl (omega arith)

-- Two messages, and the end of the stream.
abbrev received : List Received
received = bytes (b'h' ∷ b'i' ∷ []) ∷ bytes (b'!' ∷ 0 ∷ b'x' ∷ []) ∷ bytes [] ∷ []

conn_recv_thread-heard_example :
    (g : Heap) × (conn_recv_thread received 20 two
      ≡ done tt (record two { heap = g; log = heard older received [] }))
    × IsRegistry
        (record two { heap = g })
        (if over received then update_cell 20 ended two_cells else two_cells)
conn_recv_thread-heard_example =
    conn_recv_thread-heard received 20 older two_cells two two-IsRegistry refl

port_text-IsWord : IsWord port_text
port_text-IsWord = ground arith

new_peer-IsWord : IsWord new_peer
new_peer-IsWord = ground arith

port_text-positive : not_positive (atoi port_text) ≡ false
unfolding atoi
port_text-positive = refl

parse_line-commands_example :
    (parse_line (connect_word ++ 32 ∷ (new_peer ++ 32 ∷ port_text)) ≡ connect new_peer port_text)
    × (parse_line (terminate_word ++ 32 ∷ port_text) ≡ end_peer (atoi port_text))
    × (parse_line (send_word ++ 32 ∷ (port_text ++ 32 ∷ (b'a' ∷ 32 ∷ b'b' ∷ [])))
        ≡ send_to (atoi port_text) (b'a' ∷ 32 ∷ b'b' ∷ []))
parse_line-commands_example =
    parse_line-commands new_peer port_text port_text (b'a' ∷ 32 ∷ b'b' ∷ []) new_peer-IsWord
      port_text-IsWord port_text-IsWord refl port_text-positive
