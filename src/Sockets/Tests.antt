-- ===== src/Sockets/Tests.antt =====
-- The theorems at concrete runs.
use linux_exercises.Base.{
  List, ℕ, suc, ◌≡◌, ◌≢◌, ◌≤◌, ◌↔◌, refl, arith, [], ◌∷◌, ◌++◌, map, none, some, true, length, take,
  ap, ◌-◌,
}
use linux_exercises.Strings.{Text, strncpy, cut_newline}
use linux_exercises.Io.{
  perror, bind_call, Setup, got, done, waiting, sent, shown, closed, opened, bound, listening,
  unlinked, inet, unix, from_client, from_server, path_is, client_at, client_gone, bye, ready,
  answer,
}
use linux_exercises.Sockets.Calls.{works}
use linux_exercises.Sockets.Handles.{Leaves}
use linux_exercises.Sockets.Tcp.{
  Client, create_server_socket, tcp_server, tcp_client, client_loop, handle_client, port,
}
use linux_exercises.Sockets.Tcp.Release.{tcp-Leaves}
use linux_exercises.Sockets.Tcp.Exchange.{
  answered, tcp_server-session, sent_on, echoed, events, with_answers, tcp-exchange,
}
use linux_exercises.Sockets.Udp.{udp_server}
use linux_exercises.Sockets.Udp as Udp
use linux_exercises.Sockets.Udp.Answers.{
  datagram, all_dealt_with, Arrival, Exchange, exchange, talked, udp-talk,
}
use linux_exercises.Sockets.Datagram.{serve, dgram_client, buffer_size, sun_path_size}
use linux_exercises.Sockets.Datagram.Exchange.{sent_text, arrives, dgram-exchange}

abbrev hi : Text
hi = b'h' ∷ b'i' ∷ []

abbrev line : Text
line = b'h' ∷ b'i' ∷ 10 ∷ []

abbrev path : Text
path = b'/' ∷ b'c' ∷ []

abbrev client : Client
client = record { fd = 4; ip = b'1' ∷ []; port_ = 5000 }

-- The second `bind` is refused, and the socket closed.
abbrev refused : Setup
refused = record { socket = some 3; pton = some 1; bind = none; listen = none; connect = some tt }

refused_bind : events (tcp_server refused none [] []) ≡ closed 3 ∷ perror bind_call ∷ opened 3 ∷ []
unfolding tcp_server create_server_socket
refused_bind = refl

tcp-Leaves_example :
    Leaves 3 (λ _. 0) (tcp_server refused (some client) (got hi ∷ []) [])
    × Leaves 3 (λ _. 0) (tcp_client refused ((hi, got hi) ∷ []) [])
tcp-Leaves_example = tcp-Leaves 3 refused (some client) (got hi ∷ []) ((hi, got hi) ∷ [])

tcp_server-session_example :
    tcp_server (works 3 1) (some client) (got hi ∷ got [] ∷ []) []
    ≡ done tt (
        closed 3
        ∷ closed 4
        ∷ shown client_gone
        ∷ answered 4 (hi ∷ []) (
            shown (client_at (b'1' ∷ []) 5000)
            ∷ opened 4
            ∷ shown ready
            ∷ listening 3
            ∷ bound 3 (inet 1 port)
            ∷ opened 3
            ∷ []))
tcp_server-session_example =
    tcp_server-session 3 1 client (hi ∷ []) ((omega arith, omega arith), tt)

nonzero : (n : ℕ) → suc n ≢ 0
nonzero n e = omega (arith, e)

tcp-exchange_example :
    (client_loop 3
        (with_answers (line ∷ hi ∷ []) (
          sent_on 4
            (events (handle_client 4 (map got (sent_on 3 (echoed 3 (line ∷ hi ∷ []) []))) []))))
        []
      ≡ done tt (echoed 3 (line ∷ hi ∷ []) []))
    × (sent_on 3 (echoed 3 (line ∷ hi ∷ []) []) ≡ line ∷ hi ∷ [])
tcp-exchange_example = tcp-exchange 3 4 (line ∷ hi ∷ []) (
  (omega arith, omega arith, (nonzero 103, (nonzero 104, (nonzero 9, tt)))),
  ((omega arith, omega arith, (nonzero 103, (nonzero 104, tt))), tt),
)

abbrev arrivals : List Arrival
arrivals = (b'1' ∷ [], 5000, some hi) ∷ (b'1' ∷ [], 5000, none) ∷ []

abbrev exchanges : List Exchange
exchanges = (line, some hi) ∷ (line, none) ∷ (hi, some []) ∷ []

udp-talk_example :
    (Udp.udp_server (works 3 1) (map datagram arrivals) []
      ≡ waiting
          (all_dealt_with 3 arrivals (shown ready ∷ bound 3 (inet 1 Udp.port) ∷ opened 3 ∷ [])))
    × (Udp.udp_client (works 4 1) (map exchange exchanges) []
        ≡ done tt (closed 4 ∷ shown bye ∷ talked 4 exchanges (shown ready ∷ opened 4 ∷ [])))
udp-talk_example =
    udp-talk 3 4 1 arrivals exchanges (omega arith, (tt, tt)) (omega arith, (tt, (omega arith, tt)))

line_sent : sent_text line ≢ []
unfolding cut_newline
line_sent e = absurd (omega (arith, ap length e))

path_named : path ≢ []
path_named e = absurd (omega (arith, ap length e))

dgram-exchange_example :
    (serve 5 (record { read = arrives (sent_text line); path = path; ok = true } ∷ []) []
      ≡ waiting (
          sent 5 (answer ++ sent_text line)
          ∷ shown (path_is path)
          ∷ shown (from_client (sent_text line))
          ∷ []))
    × (dgram_client path (works 3 1) (some line) true (arrives (answer ++ sent_text line)) []
        ≡ done tt (
            unlinked path
            ∷ closed 3
            ∷ shown (from_server (take (buffer_size - 1) (answer ++ sent_text line)))
            ∷ sent 3 (sent_text line)
            ∷ bound 3 (unix (strncpy (sun_path_size - 1) path))
            ∷ unlinked path
            ∷ opened 3
            ∷ []))
    × ((take (buffer_size - 1) (answer ++ sent_text line) ≡ answer ++ sent_text line)
        ↔ (length (sent_text line) ≤ 238))
dgram-exchange_example = dgram-exchange 3 1 5 path line path_named line_sent (omega arith)
