-- ===== src/Io.antt =====
-- What a program with sockets does to the system, and what the system gives it. A program runs on
-- the results of its calls, and leaves the calls with an effect and the lines that it prints.
use linux_exercises.Base.{
  ℕ, zero, suc, List, [], ◌∷◌, Option, none, some, ltb, length, if◌then◌else◌,
}
use linux_exercises.Strings.{Text, c_string}

pub data Address : Type 0 where
  inet : (ip port : ℕ) → Address
  unix : (path : Text) → Address

-- The calls whose failure is reported by `perror`.
pub data Call : Type 0 where
  socket_call pton_call bind_call listen_call connect_call accept_call read_call : Call
  recvfrom_call sendto_call thread_call : Call

pub data Line : Type 0 where
  usage bad_port help ready client_connected client_gone no_path bye : Line
  client_at : (ip : Text) → (port : ℕ) → Line
  path_is : Text → Line
  local_address : (ip : Text) → (port : ℕ) → Line
  from_client from_server : Text → Line

pub data Event : Type 0 where
  opened closed listening : (fd : ℕ) → Event
  bound connected : (fd : ℕ) → Address → Event
  unlinked : (path : Text) → Event
  sent : (fd : ℕ) → Text → Event
  perror : Call → Event
  shown : Line → Event

-- How a program stands: `main` has returned, or it has ended with EXIT_FAILURE, or it waits in a
-- call, or it has done what C leaves undefined. The latest event stands first.
pub data Run (A : Type 0) : Type 0 where
  done : A → List Event → Run A
  failure waiting : List Event → Run A
  undefined : Run A

abbrev pub Io : Type 0 → Type 0
Io A = List Event → Run A

abbrev pub pure : {A : Type 0} → A → Io A
pure = done

module _ {A B : Type 0} where
  abbrev pub and_then : Run A → (A → Io B) → Run B
  and_then (done a log) k = k a log
  and_then (failure log) k = failure log
  and_then (waiting log) k = waiting log
  and_then undefined k = undefined

  infixl 5 ◌>>=◌ ◌>>◌
  abbrev pub ◌>>=◌ : Io A → (A → Io B) → Io B
  m >>= k = λ log. and_then (m log) k

  abbrev pub ◌>>◌ : Io A → Io B → Io B
  m >> k = m >>= λ _. k

abbrev pub tell : Event → Io (Unit {0})
tell e log = done tt (e ∷ log)

-- `perror(...); exit(EXIT_FAILURE);`
abbrev pub die : {A : Type 0} → Call → Io A
die c log = failure (perror c ∷ log)

-- The same, once the socket is closed.
abbrev pub close_and_die : {A : Type 0} → Call → (fd : ℕ) → Io A
close_and_die c fd log = failure (closed fd ∷ perror c ∷ log)

-- The results of the calls that set a socket up; `pton` is the address that `inet_pton` gives.
pub record Setup : Type 0 where
  pub socket : Option ℕ
  pub pton : Option ℕ
  pub bind : Option (Unit {0})
  pub listen : Option (Unit {0})
  pub connect : Option (Unit {0})

abbrev pub opened_or_die : Option ℕ → Io ℕ
opened_or_die none = die socket_call
opened_or_die (some fd) = do tell (opened fd); pure fd

abbrev pub open_socket : Setup → Io ℕ
open_socket r = opened_or_die r.socket

-- A call on the open socket: `if (call(...) < 0) { perror(...); close(fd); exit(EXIT_FAILURE); }`.
abbrev pub or_close : {A : Type 0} → Option A → Call → (fd : ℕ) → Io A
or_close none c fd = close_and_die c fd
or_close (some a) c fd = pure a

-- The same, with the socket left open.
abbrev pub or_die : {A : Type 0} → Option A → Call → Io A
or_die none c = die c
or_die (some a) c = pure a

-- What a `read` or `recvfrom` gives: bytes, an error, or nothing so far.
pub data Read : Type 0 where
  got : List ℕ → Read
  error pending : Read

-- A read of at most `size - 1` bytes into a buffer of `size`, and the NUL behind them: the number of
-- bytes and the string in the buffer.
unfoldable pub receive : (size : ℕ) → Read → Io (Option (ℕ × Text))
receive size pending = waiting
receive size error = pure none
receive size (got b) =
    if ltb (length b) size then pure (some (length b, c_string b)) else λ log. undefined

-- What a loop does about an error, about no byte, and about a message.
abbrev pub on_message :
    {A : Type 0} → Option (ℕ × Text) → (failed none_left : Io A) → (Text → Io A) → Io A
on_message none failed none_left next = failed
on_message (some (zero, text)) failed none_left next = none_left
on_message (some (suc n, text)) failed none_left next = next text

-- "Server received: "
abbrev pub answer : Text
answer =
    b'S' ∷ b'e' ∷ b'r' ∷ b'v' ∷ b'e' ∷ b'r' ∷ 32 ∷ b'r' ∷ b'e' ∷ b'c' ∷ b'e' ∷ b'i' ∷ b'v' ∷ b'e'
    ∷ b'd' ∷ b':' ∷ 32 ∷ []
