-- ===== src/Sockets/Datagram.antt =====
-- unix_socket/dgram_socket: unix_socket_server_dgram.c and unix_socket_client_dgram.c.
pub mod Release
pub mod Exchange
use linux_exercises.Base.{ℕ, ◌+◌, ◌-◌, List, [], ◌∷◌, Option, none, some, Bool, true, false}
use linux_exercises.Strings.{Text, c_string, strncpy, snprintf, cut_newline}
use linux_exercises.Io.{
  unix, bind_call, recvfrom_call, sendto_call, ready, no_path, path_is, from_client, from_server,
  closed, bound, unlinked, sent, perror, shown, Io, pure, ◌>>=◌, ◌>>◌, tell, waiting, undefined,
  Setup, open_socket, or_close, Read, receive, on_message, answer,
}

abbrev pub buffer_size : ℕ
buffer_size = 256

-- `sizeof(sun_path)`
abbrev pub sun_path_size : ℕ
sun_path_size = 108

-- `init_server_socket` and, with the same body, `init_client_socket`.
unfoldable pub init_socket : Setup → (path : Text) → Io ℕ
init_socket r path = do
  fd ← open_socket r
  tell (unlinked path)
  or_close r.bind bind_call fd
  tell (bound fd (unix (strncpy (sun_path_size - 1) path)))
  pure fd

abbrev pub or_perror : Option (ℕ × Text) → Io (Option (ℕ × Text))
or_perror none = do tell (perror recvfrom_call); pure none
or_perror (some m) = pure (some m)

unfoldable pub receive_message : Read → Io (Option (ℕ × Text))
receive_message r = do m ← receive buffer_size r; or_perror m

-- A failed `sendto` leaves no datagram.
unfoldable pub send_response : (fd : ℕ) → Text → (ok : Bool) → Io (Unit {0})
send_response fd msg true = tell (sent fd msg)
send_response fd msg false = tell (perror sendto_call)

-- A datagram, or the lack of one, its sender's path, and whether the answer can be sent.
pub record Datagram : Type 0 where
  pub read : Read
  pub path : Text
  pub ok : Bool

abbrev show_path : Text → Io (Unit {0})
show_path [] = tell (shown no_path)
show_path (c ∷ cs) = tell (shown (path_is (c ∷ cs)))

-- The loop of `main` in the server.
unfoldable pub serve : (fd : ℕ) → List Datagram → Io (Unit {0})
serve fd [] = waiting
serve fd (d ∷ ds) = do
  m ← receive_message d.read
  on_message m (pure tt) (pure tt) λ text. do
    tell (shown (from_client text))
    show_path d.path
    send_response fd (snprintf (buffer_size + 32) answer text) d.ok
  serve fd ds

unfoldable pub dgram_server : (path : Text) → Setup → List Datagram → Io (Unit {0})
dgram_server path setup ds = do fd ← init_socket setup path; tell (shown ready); serve fd ds

-- What follows `recvfrom` in `receive_response`.
abbrev pub show_response : Option (ℕ × Text) → Io (Unit {0})
show_response none = tell (perror recvfrom_call)
show_response (some (n, text)) = tell (shown (from_server text))

abbrev pub send_line : (fd : ℕ) → Option Text → (ok : Bool) → Io (Unit {0})
send_line fd none ok = λ log. undefined
send_line fd (some line) ok = send_response fd (c_string (cut_newline line)) ok

-- `main` of the client, on what `fgets` stores, if anything, whether `sendto` succeeds, and what
-- `recvfrom` gives. Without a line the buffer is read before anything is written to it.
unfoldable pub dgram_client :
    (path : Text) → Setup → Option Text → (ok : Bool) → Read → Io (Unit {0})
dgram_client path setup input ok r = do
  fd ← init_socket setup path
  send_line fd input ok
  m ← receive buffer_size r
  show_response m
  tell (closed fd)
  tell (unlinked path)
