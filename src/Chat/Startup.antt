-- ===== src/Chat/Startup.antt =====
-- The start of app/main_p2pchat.c, up to its command loop, and src/utils.c.
use linux_exercises.Base.{
  ℕ, ◌||◌, Bool, true, false, Option, none, some, List, [], ◌∷◌, ltb, if◌then◌else◌,
}
use linux_exercises.Strings.{Text, atoi}
use linux_exercises.Io.{
  inet, bind_call, listen_call, thread_call, usage, help, bad_port, local_address, Line, opened,
  closed, bound, connected, listening, shown, Io, Run, done, failure, pure, ◌>>=◌, ◌>>◌, tell,
  or_die, opened_or_die,
}
use linux_exercises.Chat.Command.{Net, Config, localhost}
use linux_exercises.Chat.State.{Chat, unused, null}
use linux_exercises.Chat.State as State
use linux_exercises.Chat.Main.{not_positive, Round, main_loop}

-- What the calls of `get_local_ip` return: the socket, whether `connect` succeeds, and the address
-- that `getsockname` finds.
pub record Probe : Type 0 where
  pub socket : Option ℕ
  pub reached : Bool
  pub name : Option ℕ

-- `inet_addr("8.8.8.8")`, in either byte order.
abbrev pub name_server : ℕ
name_server = 134744072

abbrev pub connect_if : Bool → (fd : ℕ) → Io (Unit {0})
connect_if true fd = tell (connected fd (inet name_server 53))
connect_if false fd = pure tt

abbrev pub address_of : Net → Option ℕ → Option Text
address_of net none = none
address_of net (some a) = some (net.ntop a)

abbrev pub probe_with : Net → Probe → Option ℕ → Io (Option Text)
probe_with net p none = pure none
probe_with net p (some fd) = do
  tell (opened fd)
  connect_if p.reached fd
  tell (closed fd)
  pure (address_of net p.name)

-- The text in `buf` where the result is 0.
unfoldable pub get_local_ip : Net → Probe → Io (Option Text)
get_local_ip net p = probe_with net p p.socket

abbrev pub or_localhost : Option Text → Text
or_localhost none = localhost
or_localhost (some ip) = ip

-- What the calls of `main` return.
pub record Calls : Type 0 where
  pub probe : Probe
  pub socket : Option ℕ
  pub bind : Option (Unit {0})
  pub listen : Option (Unit {0})
  pub thread : Option ℕ

abbrev pub give_up : {A : Type 0} → Line → Io A
give_up l log = failure (shown l ∷ log)

-- `server_sock`, `listener_thread_id`, and the globals that the commands read.
pub record Started : Type 0 where
  pub server : ℕ
  pub listener : ℕ
  pub config : Config

-- With the port in range.
unfoldable pub start_server : Net → Calls → (port : ℕ) → Io Started
start_server net c port = do
  ip ← get_local_ip net c.probe
  tell (shown (local_address (or_localhost ip) port))
  fd ← opened_or_die c.socket
  or_die c.bind bind_call
  tell (bound fd (inet 0 port))
  or_die c.listen listen_call
  tell (listening fd)
  thread ← or_die c.thread thread_call
  tell (shown help)
  pure (record {
    server = fd;
    listener = thread;
    config = record { local_ip = or_localhost ip; listen_port = port };
  })

-- `listen_port <= 0 || listen_port > 65535`
abbrev pub out_of_range : ℕ → Bool
out_of_range port = not_positive port || ltb 65535 port

-- `main` up to the command loop, on the arguments after the program's name.
unfoldable pub startup : Net → Calls → (args : List Text) → Io Started
startup net c (portstr ∷ []) =
    if out_of_range (atoi portstr) then give_up bad_port else start_server net c (atoi portstr)
startup net c _ = give_up usage

abbrev pub empty_chat : Chat
empty_chat = record { heap = λ p. unused; conn_head = null; next_conn_id = 1; log = [] }

abbrev pub after_startup :
    (rounds fuel : ℕ) → Net → List Round → Run Started → Option (State.Run (Unit {0}))
after_startup rounds fuel net rs (done m log) =
    some (main_loop rounds fuel net m.config (some m.server) m.listener rs empty_chat)
after_startup rounds fuel net rs _ = none

-- `main`; none where it ends before its command loop.
unfoldable pub p2p_main :
    (rounds fuel : ℕ)
    → Net
    → Calls
    → (args : List Text) → List Round
    → Option (State.Run (Unit {0}))
p2p_main rounds fuel net c args rs = after_startup rounds fuel net rs (startup net c args [])
