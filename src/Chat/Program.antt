-- ===== src/Chat/Program.antt =====
-- The chat program from its start, where no other thread acts.
use linux_exercises.Base.{
  ℕ, ◌≤◌, ◌≡◌, ◌≢◌, ◌<◌, ◌⊎◌, refl, Bool, true, false, Option, none, some, List, [], ◌∷◌,
  if◌then◌else◌, map, arith, Bool-cases, inl, inr,
}
use linux_exercises.Strings.{Text, atoi, c_string, cut_newline}
use linux_exercises.Io.{
  Event, done, failure, bad_port, inet, listening, help, bound, opened, shown, local_address,
  connected, closed,
}
use linux_exercises.Chat.State.{Ptr, Chat, unused}
use linux_exercises.Chat.State as State
use linux_exercises.Chat.Command.{Net, Dial}
use linux_exercises.Chat.Main.{Round, Action, end_peer, leave, parse_line}
use linux_exercises.Chat.Startup.{
  Started, Probe, address_of, get_local_ip, or_localhost, Calls, start_server, out_of_range,
  startup,
}
use linux_exercises.Chat.Registry.{Cells, has}
use linux_exercises.Chat.Arrivals.{Holds}
use linux_exercises.Chat.Loop.{quiet}

-- The line, if any, and the results of the calls, of a round.
abbrev pub Step : Type 0
Step = Option Text × Dial × Bool

-- The line is not one that makes main join a thread.
abbrev pub StaysBy : Action → Type 0
StaysBy (end_peer id) = ⊥
StaysBy leave = ⊥
StaysBy _ = Unit

abbrev pub StaysOn : Option Text → Type 0
StaysOn none = Unit
StaysOn (some line) = StaysBy (parse_line (cut_newline (c_string line)))

abbrev pub Stays : Step → Type 0
Stays i = StaysOn i.0

abbrev pub quiet_rounds : List Step → List Round
quiet_rounds is = map (λ (i : Step). quiet i.0 i.1 i.2) is

-- `malloc` gives each round another address than those that follow.
abbrev pub Apart : Ptr → List Step → Type 0
Apart p [] = Unit
Apart p (i ∷ is) = (i.1.fresh ≢ p) × Apart p is

abbrev pub Fresh : List Step → Cells → Type 0
Fresh [] xs = Unit
Fresh (i ∷ is) xs = (has i.1.fresh xs ≡ false) × Apart i.1.fresh is × Fresh is xs

-- The loop returns, and its state stands for a list of connections.
pub record Runs (r : State.Run (Unit {0})) : Type 0 where
  pub state : Chat
  pub id : ℕ
  pub cells : Cells
  pub returns : r ≡ State.done tt state
  pub holds : Holds id cells state

-- The events of `get_local_ip`.
abbrev pub probed : Probe → Option ℕ → List Event → List Event
probed p none log = log
probed p (some fd) log =
    closed fd
    ∷ (if p.reached then connected fd (inet 134744072 53) ∷ opened fd ∷ log else opened fd ∷ log)

-- The address that it finds.
abbrev pub ip_of : Net → (socket name : Option ℕ) → Text
ip_of net (some fd) (some a) = net.ntop a
ip_of net _ _ = b'1' ∷ b'2' ∷ b'7' ∷ b'.' ∷ b'0' ∷ b'.' ∷ b'0' ∷ b'.' ∷ b'1' ∷ []

abbrev pub found_ip : Net → Probe → Option ℕ → Text
found_ip net p o = ip_of net o p.name

found_ip-or_localhost :
    (net : Net) (g : ℕ) (o : Option ℕ) → or_localhost (address_of net o) ≡ ip_of net (some g) o
found_ip-or_localhost net g none = refl
found_ip-or_localhost net g (some a) = refl

-- The calls all succeed.
abbrev pub server_calls : (probe : Probe) → (fd thread : ℕ) → Calls
server_calls probe fd thread = record {
  probe = probe;
  socket = some fd;
  bind = some tt;
  listen = some tt;
  thread = some thread;
}

start_server-Started :
    (net : Net) (p : Probe) (fd thread port : ℕ) (o : Option ℕ)
    → p.socket ≡ o
    → start_server net (server_calls p fd thread) port []
      ≡ done
          (record {
            server = fd;
            listener = thread;
            config = record { local_ip = found_ip net p o; listen_port = port };
          })
          (shown help
            ∷ listening fd
            ∷ bound fd (inet 0 port)
            ∷ opened fd
            ∷ shown (local_address (found_ip net p o) port)
            ∷ probed p o [])
unfolding start_server get_local_ip
start_server-Started net p fd thread port none e = rw e
start_server-Started net p fd thread port (some g) e = elim (Bool-cases p.reached) [
  | inl r ↦ rw (e, r, found_ip-or_localhost net g p.name) refl
  | inr r ↦ rw (e, r, found_ip-or_localhost net g p.name) refl
]

bad_range : (port : ℕ) → out_of_range port ≡ true → (port ≡ 0) ⊎ (65535 < port)
bad_range port h = ground arith

-- What main has set up, and the events up to its command loop, the latest first.
abbrev pub listener_of : Net → Probe → (fd thread port : ℕ) → Started
listener_of net p fd thread port = record {
  server = fd;
  listener = thread;
  config = record { local_ip = found_ip net p p.socket; listen_port = port };
}

abbrev pub startup_log : Net → Probe → (fd port : ℕ) → List Event
startup_log net p fd port =
    shown help
    ∷ listening fd
    ∷ bound fd (inet 0 port)
    ∷ opened fd
    ∷ shown (local_address (found_ip net p p.socket) port)
    ∷ probed p p.socket []

in_range : (port : ℕ) → out_of_range port ≡ false → (1 ≤ port) × (port ≤ 65535)
in_range port h = ground arith

-- With a port in range and the other calls successful.
started_as :
    (net : Net) (p : Probe) (fd thread : ℕ) (portstr : Text)
    → out_of_range (atoi portstr) ≡ false
    → startup net (server_calls p fd thread) (portstr ∷ []) []
      ≡ done (listener_of net p fd thread (atoi portstr)) (startup_log net p fd (atoi portstr))
unfolding startup
started_as net p fd thread portstr h =
    rw h (start_server-Started net p fd thread (atoi portstr) p.socket refl)

-- Where the other calls of main succeed: if the argument is a number from 1 to 65535 as atoi
-- reads it, main of the chat listens on that port of any address, with the address that
-- getsockname gives in get_local_ip, or 127.0.0.1 where socket or getsockname fails there, and
-- get_local_ip has closed the socket that it opened; otherwise main says that the port is bad and
-- ends with failure, and makes no call.
pub startup-listens :
    (net : Net) (p : Probe) (fd thread : ℕ) (portstr : Text)
    → ((1 ≤ atoi portstr)
        × (atoi portstr ≤ 65535)
        × (startup net (server_calls p fd thread) (portstr ∷ []) []
            ≡ done
                (listener_of net p fd thread (atoi portstr))
                (startup_log net p fd (atoi portstr))))
      ⊎ (((atoi portstr ≡ 0) ⊎ (65535 < atoi portstr))
          × (startup net (server_calls p fd thread) (portstr ∷ []) []
              ≡ failure (shown bad_port ∷ [])))
unfolding startup
startup-listens net p fd thread portstr = elim (Bool-cases (out_of_range (atoi portstr))) [
  | inl h ↦ inr (bad_range (atoi portstr) h, rw h refl)
  | inr h ↦
      let r = in_range (atoi portstr) h in inl (r.0, r.1, started_as net p fd thread portstr h)
]
