-- ===== src/Sockets/Tcp.antt =====
-- ipv4_socket/stream_socket: tcp_server.c and tcp_client.c.
pub mod Release
pub mod Exchange
use linux_exercises.Base.{ℕ, ◌+◌, List, [], ◌∷◌, Option, none, some}
use linux_exercises.Strings.{Text, c_string, snprintf}
use linux_exercises.Io.{
  inet, pton_call, bind_call, listen_call, connect_call, accept_call, ready, client_gone, bye,
  client_at, from_client, from_server, listening, opened, closed, bound, connected, sent, perror,
  shown, Io, pure, ◌>>=◌, ◌>>◌, tell, waiting, Setup, open_socket, or_close, Read, receive,
  on_message,
}

abbrev pub port : ℕ
port = 6789

abbrev pub buffer_size : ℕ
buffer_size = 1024

-- "Server receive: "
abbrev pub tcp_answer : Text
tcp_answer =
    b'S' ∷ b'e' ∷ b'r' ∷ b'v' ∷ b'e' ∷ b'r' ∷ 32 ∷ b'r' ∷ b'e' ∷ b'c' ∷ b'e' ∷ b'i' ∷ b'v' ∷ b'e'
    ∷ b':' ∷ 32 ∷ []

unfoldable pub create_server_socket : Setup → Io ℕ
create_server_socket r = do
  fd ← open_socket r
  a ← or_close r.pton pton_call fd
  or_close r.bind bind_call fd
  tell (bound fd (inet a port))
  or_close r.listen listen_call fd
  tell (listening fd)
  pure fd

-- What `accept` gives: the client's socket and address.
pub record Client : Type 0 where
  pub fd : ℕ
  pub ip : Text
  pub port_ : ℕ

unfoldable pub accept_client : Option Client → Io (Option Client)
accept_client none = do tell (perror accept_call); pure none
accept_client (some c) = do tell (opened c.fd); pure (some c)

abbrev hang_up : ℕ → Io (Unit {0})
hang_up fd = do tell (shown client_gone); tell (closed fd)

-- The list holds what each `read` gives, as far as the client has come.
unfoldable pub handle_client : (fd : ℕ) → List Read → Io (Unit {0})
handle_client fd [] = waiting
handle_client fd (r ∷ rs) = do
  m ← receive buffer_size r
  on_message m (hang_up fd) (hang_up fd) λ text. do
    tell (shown (from_client text))
    tell (sent fd (snprintf (buffer_size + 17) tcp_answer text))
    handle_client fd rs

abbrev pub serve_accepted : Option Client → List Read → Io (Unit {0})
serve_accepted none rs = pure tt
serve_accepted (some c) rs = do tell (shown (client_at c.ip c.port_)); handle_client c.fd rs

-- `main` of tcp_server.c.
unfoldable pub tcp_server : Setup → Option Client → List Read → Io (Unit {0})
tcp_server setup client rs = do
  server_fd ← create_server_socket setup
  tell (shown ready)
  m ← accept_client client
  serve_accepted m rs
  tell (closed server_fd)

unfoldable pub connect_to_server : Setup → Io ℕ
connect_to_server r = do
  fd ← open_socket r
  a ← or_close r.pton pton_call fd
  or_close r.connect connect_call fd
  tell (connected fd (inet a port))
  pure fd

-- Each line that `fgets` stores, with what the `read` after it gives; then the end of the input.
unfoldable pub client_loop : (fd : ℕ) → List (Text × Read) → Io (Unit {0})
client_loop fd [] = pure tt
client_loop fd ((line, r) ∷ rs) = do
  tell (sent fd (c_string line))
  m ← receive buffer_size r
  on_message m (pure tt) (pure tt) λ text. do tell (shown (from_server text)); client_loop fd rs

-- `main` of tcp_client.c.
unfoldable pub tcp_client : Setup → List (Text × Read) → Io (Unit {0})
tcp_client setup rs = do
  fd ← connect_to_server setup
  tell (shown ready)
  client_loop fd rs
  tell (shown bye)
  tell (closed fd)
