-- ===== src/Sockets/Udp/Answers.antt =====
-- What udp_server.c answers.
use linux_exercises.Base.{
  ℕ, ◌+◌, ◌≡◌, ◌<◌, refl, arith, List, [], ◌∷◌, ◌++◌, map, All, Option, none, some, length, ap,
}
use linux_exercises.Strings.{Text, c_string, length-c_string-le, snprintf-whole}
use linux_exercises.Io.{
  Event, Read, waiting, got, error, receive, and_then, done, closed, bye, from_server, sent, shown,
  perror, recvfrom_call, from_client, client_at, answer, opened, bound, inet, ready,
}
use linux_exercises.Sockets.Calls.{works, receive-got}
use linux_exercises.Sockets.Udp.{
  receive_message, Datagram, serve, udp_server, udp_client, client_loop, create_udp_client_socket,
  setup_server_address, create_udp_server_socket, buffer_size, port,
}

-- What a `recvfrom` with a peer gives: an error, or at most the bytes that the buffer holds with a
-- NUL behind them.
abbrev pub Arrival : Type 0
Arrival = (ip : Text) × (from_port : ℕ) × Option (List ℕ)

abbrev pub read_of : Option (List ℕ) → Read
read_of none = error
read_of (some b) = got b

abbrev pub datagram : Arrival → Datagram
datagram (ip, from_port, m) = record { read = read_of m; ip = ip; port_ = from_port }

abbrev pub FitsBuffer : Arrival → Type 0
FitsBuffer (ip, from_port, none) = Unit {0}
FitsBuffer (ip, from_port, some b) = length b < buffer_size

-- The events after a datagram, or an error, has been dealt with.
unfoldable pub dealt_with : (fd : ℕ) → Arrival → List Event → List Event
dealt_with fd (ip, from_port, none) log = perror recvfrom_call ∷ log
dealt_with fd (ip, from_port, some b) log =
    sent fd (answer ++ c_string b)
    ∷ shown (from_client (c_string b))
    ∷ shown (client_at ip from_port)
    ∷ log

unfoldable pub all_dealt_with : (fd : ℕ) → List Arrival → List Event → List Event
unfolding dealt_with
all_dealt_with fd [] log = log
all_dealt_with fd (a ∷ as') log = all_dealt_with fd as' (dealt_with fd a log)

serve-all_dealt_with :
    (fd : ℕ) (as' : List Arrival) (log : List Event)
    → All FitsBuffer as'
    → serve fd (map datagram as') log ≡ waiting (all_dealt_with fd as' log)
unfolding serve all_dealt_with receive_message receive dealt_with
serve-all_dealt_with fd [] log h = refl
serve-all_dealt_with fd ((ip, from_port, none) ∷ as') log h = serve-all_dealt_with fd as' _ h.1
serve-all_dealt_with fd ((ip, from_port, some b) ∷ as') log h =
    rw
      (
        receive-got buffer_size b log h.0,
        snprintf-whole (buffer_size + 18) answer (c_string b)
            (omega (arith, h.0, length-c_string-le b)),
      )
      (serve-all_dealt_with fd as' _ h.1)

udp_server-all_dealt_with :
    (fd a : ℕ) (as' : List Arrival)
    → All FitsBuffer as'
    → udp_server (works fd a) (map datagram as') []
      ≡ waiting (all_dealt_with fd as' (shown ready ∷ bound fd (inet a port) ∷ opened fd ∷ []))
unfolding udp_server create_udp_server_socket
udp_server-all_dealt_with fd a as' h = serve-all_dealt_with fd as' _ h

-- A line that `fgets` stores, and what the `recvfrom` after it gives.
abbrev pub Exchange : Type 0
Exchange = Text × Option (List ℕ)

abbrev pub FitsReply : Exchange → Type 0
FitsReply (line, none) = Unit {0}
FitsReply (line, some b) = length b < buffer_size

abbrev pub exchange : Exchange → Text × Read
exchange (line, m) = (line, read_of m)

-- The events after a reply, or an error.
abbrev pub after_reply : Option (List ℕ) → List Event → List Event
after_reply none log = perror recvfrom_call ∷ log
after_reply (some []) log = log
after_reply (some (b ∷ bs)) log = shown (from_server (c_string (b ∷ bs))) ∷ log

-- The events of a client that has made these exchanges.
unfoldable pub talked : (fd : ℕ) → List Exchange → List Event → List Event
talked fd [] log = log
talked fd (x ∷ xs) log = talked fd xs (after_reply x.1 (sent fd (c_string x.0) ∷ log))

receive-error : (log : List Event) → receive buffer_size error log ≡ done none log
unfolding receive
receive-error log = refl

client_loop-talked :
    (fd : ℕ) (xs : List Exchange) (log : List Event)
    → All FitsReply xs
    → client_loop fd (map exchange xs) log ≡ done tt (talked fd xs log)
unfolding client_loop talked receive_message
client_loop-talked fd [] log h = refl
client_loop-talked fd ((line, none) ∷ xs) log h =
    rw (receive-error (sent fd (c_string line) ∷ log)) (client_loop-talked fd xs _ h.1)
client_loop-talked fd ((line, some []) ∷ xs) log h =
    rw (receive-got buffer_size [] (sent fd (c_string line) ∷ log) h.0)
      (client_loop-talked fd xs _ h.1)
client_loop-talked fd ((line, some (b ∷ bs)) ∷ xs) log h =
    rw (receive-got buffer_size (b ∷ bs) (sent fd (c_string line) ∷ log) h.0)
      (client_loop-talked fd xs _ h.1)

-- With the calls of the set-up successful, and datagrams that leave room for a NUL: udp_server.c
-- deals with the datagrams, and the errors, that arrive, in their order, an error reported, a
-- datagram printed with its sender and the answer sent whole, an empty one too, and then waits;
-- udp_client.c sends each line, prints each reply that is not empty and reports each error, in
-- their order, then closes its socket and returns.
pub udp-talk :
    (s fd a : ℕ) (as' : List Arrival) (xs : List Exchange)
    → All FitsBuffer as'
    → All FitsReply xs
    → (udp_server (works s a) (map datagram as') []
        ≡ waiting (all_dealt_with s as' (shown ready ∷ bound s (inet a port) ∷ opened s ∷ [])))
      × (udp_client (works fd a) (map exchange xs) []
          ≡ done tt (closed fd ∷ shown bye ∷ talked fd xs (shown ready ∷ opened fd ∷ [])))
unfolding udp_client create_udp_client_socket setup_server_address
udp-talk s fd a as' xs h k = (
  udp_server-all_dealt_with s a as' h,
  ap (λ r. and_then r (λ _ log. done tt (closed fd ∷ shown bye ∷ log)))
      (client_loop-talked fd xs _ k),
)
