-- ===== src/Sockets/Stream.antt =====
-- unix_socket/stream_socket: unix_socket_server_stream.c and unix_socket_client_stream.c.
pub mod Release
use linux_exercises.Base.{ℕ, ◌+◌, ◌-◌, List, [], ◌∷◌, Option, none, some}
use linux_exercises.Strings.{Text, c_string, strncpy, snprintf}
use linux_exercises.Io.{
  unix, bind_call, listen_call, connect_call, accept_call, read_call, ready, client_connected,
  client_gone, from_client, from_server, listening, opened, closed, bound, connected, unlinked,
  sent, perror, shown, Io, pure, ◌>>=◌, ◌>>◌, tell, die, waiting, Setup, open_socket, or_close,
  Read, receive, on_message, answer,
}

abbrev pub buffer_size : ℕ
buffer_size = 1024

-- `sizeof(addr.sun_path)`
abbrev pub sun_path_size : ℕ
sun_path_size = 108

unfoldable pub init_server_socket : Setup → (path : Text) → Io ℕ
init_server_socket r path = do
  fd ← open_socket r
  tell (unlinked path)
  or_close r.bind bind_call fd
  tell (bound fd (unix (strncpy (sun_path_size - 1) path)))
  or_close r.listen listen_call fd
  tell (listening fd)
  pure fd

unfoldable pub accept_client : Option ℕ → Io ℕ
accept_client none = die accept_call
accept_client (some fd) = do tell (opened fd); pure fd

-- The loop of `main` in the server.
unfoldable pub serve : (fd : ℕ) → List Read → Io (Unit {0})
serve fd [] = waiting
serve fd (r ∷ rs) = do
  m ← receive buffer_size r
  on_message m (tell (perror read_call)) (tell (shown client_gone)) λ text. do
    tell (shown (from_client text))
    tell (sent fd (snprintf (buffer_size + 18) answer text))
    serve fd rs

-- `main` of the server.
unfoldable pub stream_server : (path : Text) → Setup → Option ℕ → List Read → Io (Unit {0})
stream_server path setup client rs = do
  server_fd ← init_server_socket setup path
  tell (shown ready)
  client_fd ← accept_client client
  tell (shown client_connected)
  serve client_fd rs
  tell (closed client_fd)
  tell (closed server_fd)
  tell (unlinked path)

unfoldable pub init_client_socket : Setup → (path : Text) → Io ℕ
init_client_socket r path = do
  fd ← open_socket r
  or_close r.connect connect_call fd
  tell (connected fd (unix (strncpy (sun_path_size - 1) path)))
  pure fd

-- Each line that `fgets` stores, with what the `read` after it gives; then the end of the input.
unfoldable pub client_loop : (fd : ℕ) → List (Text × Read) → Io (Unit {0})
client_loop fd [] = pure tt
client_loop fd ((line, r) ∷ rs) = do
  tell (sent fd (c_string line))
  m ← receive buffer_size r
  on_message m (tell (shown client_gone)) (tell (shown client_gone))
      λ text. do tell (shown (from_server text)); client_loop fd rs

-- `main` of the client.
unfoldable pub stream_client : (path : Text) → Setup → List (Text × Read) → Io (Unit {0})
stream_client path setup rs = do
  fd ← init_client_socket setup path
  client_loop fd rs
  tell (closed fd)
