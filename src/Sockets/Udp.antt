-- ===== src/Sockets/Udp.antt =====
-- ipv4_socket/dgram_socket: udp_server.c and udp_client.c.
pub mod Answers
use linux_exercises.Base.{ℕ, ◌+◌, List, [], ◌∷◌, Option, none, some}
use linux_exercises.Strings.{Text, c_string, snprintf}
use linux_exercises.Io.{
  inet, pton_call, bind_call, recvfrom_call, ready, bye, client_at, from_client, from_server,
  closed, bound, sent, perror, shown, Io, pure, ◌>>=◌, ◌>>◌, tell, waiting, Setup, open_socket,
  or_close, or_die, Read, receive, on_message, answer,
}

abbrev pub port : ℕ
port = 6789

abbrev pub buffer_size : ℕ
buffer_size = 1024

unfoldable pub create_udp_server_socket : Setup → Io ℕ
create_udp_server_socket r = do
  fd ← open_socket r
  a ← or_close r.pton pton_call fd
  or_close r.bind bind_call fd
  tell (bound fd (inet a port))
  pure fd

abbrev pub or_perror : Option (ℕ × Text) → Io (Option (ℕ × Text))
or_perror none = do tell (perror recvfrom_call); pure none
or_perror (some m) = pure (some m)

-- Both programs have this function.
unfoldable pub receive_message : Read → Io (Option (ℕ × Text))
receive_message r = do m ← receive buffer_size r; or_perror m

-- A datagram, or the lack of one, with its sender.
pub record Datagram : Type 0 where
  pub read : Read
  pub ip : Text
  pub port_ : ℕ

abbrev pub answer_from : (fd : ℕ) → Datagram → Option (ℕ × Text) → Io (Unit {0})
answer_from fd d none = pure tt
answer_from fd d (some (n, text)) = do
  tell (shown (client_at d.ip d.port_))
  tell (shown (from_client text))
  tell (sent fd (snprintf (buffer_size + 18) answer text))

-- The loop of `main` in udp_server.c.
unfoldable pub serve : (fd : ℕ) → List Datagram → Io (Unit {0})
serve fd [] = waiting
serve fd (d ∷ ds) = do m ← receive_message d.read; answer_from fd d m; serve fd ds

unfoldable pub udp_server : Setup → List Datagram → Io (Unit {0})
udp_server setup ds = do fd ← create_udp_server_socket setup; tell (shown ready); serve fd ds

unfoldable pub create_udp_client_socket : Setup → Io ℕ
create_udp_client_socket r = open_socket r

unfoldable pub setup_server_address : Setup → Io ℕ
setup_server_address r = or_die r.pton pton_call

-- Each line that `fgets` stores, with what the `recvfrom` after it gives.
unfoldable pub client_loop : (fd : ℕ) → List (Text × Read) → Io (Unit {0})
client_loop fd [] = pure tt
client_loop fd ((line, r) ∷ rs) = do
  tell (sent fd (c_string line))
  m ← receive_message r
  on_message m (pure tt) (pure tt) λ text. tell (shown (from_server text))
  client_loop fd rs

-- `main` of udp_client.c.
unfoldable pub udp_client : Setup → List (Text × Read) → Io (Unit {0})
udp_client setup rs = do
  fd ← create_udp_client_socket setup
  a ← setup_server_address setup
  tell (shown ready)
  client_loop fd rs
  tell (shown bye)
  tell (closed fd)
