-- ===== src/Chat/State.antt =====
-- include/common.h: the list node `PeerConn` and the globals, with the heap in which the nodes lie,
-- and the commands that read and write it.
use linux_exercises.Base.{ℕ, Bool, List, ◌∷◌, ◌==◌, if◌then◌else◌}
pub use linux_exercises.Strings.{Text}

abbrev pub Ptr : Type 0
Ptr = ℕ

abbrev pub null : Ptr
null = 0

abbrev pub max_msg_len : ℕ
max_msg_len = 100

-- The fields of `PeerConn` but the link; `id` is the bit pattern of an `int`.
pub record Conn : Type 0 where
  pub id : ℕ
  pub sockfd : ℕ
  pub ip : Text
  pub port : ℕ
  pub thread : ℕ
  pub active : Bool
  pub should_remove : Bool

pub record PeerConn : Type 0 where
  pub conn : Conn
  pub next : Ptr

-- A freed node keeps its bytes until `malloc` hands it out again.
pub data Cell : Type 0 where
  unused : Cell
  live freed : PeerConn → Cell

abbrev pub Heap : Type 0
Heap = Ptr → Cell

unfoldable pub write : Heap → Ptr → Cell → Heap
write h p c q = if q == p then c else h q

-- What the program prints, each line with its arguments.
pub data Line : Type 0 where
  invalid_ip invalid_port self_connect : Line
  duplicate : (ip : Text) → (port id : ℕ) → Line
  socket_failed pton_failed connect_failed no_memory no_thread : Line
  connected : (ip : Text) → (port id : ℕ) → Line
  accepted : (ip : Text) → (port id : ℕ) → Line
  accept_failed : Line
  row : (id : ℕ) → (ip : Text) → (port : ℕ) → Line
  not_found : (id : ℕ) → Line
  terminated removed : (id : ℕ) → Line
  too_long : Line
  not_active : (id : ℕ) → Line
  send_failed : Line
  sent_to : (id : ℕ) → (ip : Text) → (port : ℕ) → Line
  wants_disconnect peer_closed recv_failed : (ip : Text) → (port : ℕ) → Line
  message : (ip : Text) → (port : ℕ) → Text → Line
  help_text : Line
  shown_ip : Text → Line
  shown_port : ℕ → Line
  connect_usage terminate_usage send_usage invalid_id leaving good_bye unknown_command : Line

-- What is seen from outside: output, and the calls on sockets and threads. `stale_read` records a
-- read of a freed node, which C leaves undefined.
pub data Event : Type 0 where
  printed : Line → Event
  send_disconnect shut closed : (fd : ℕ) → Event
  sent : (fd : ℕ) → List ℕ → Event
  joined : (thread : ℕ) → Event
  stale_read : Ptr → Event

-- The globals, the heap, and the events so far, the latest first.
pub record Chat : Type 0 where
  pub heap : Heap
  pub conn_head : Ptr
  pub next_conn_id : ℕ
  pub log : List Event

-- `fault` is a NULL or wild pointer dereferenced; `out_of_fuel` a loop that had too few rounds.
pub data Run (A : Type 0) : Type 0 where
  done : A → Chat → Run A
  fault : Run A
  out_of_fuel : Run A

abbrev pub Cmd : Type 0 → Type 0
Cmd A = Chat → Run A

abbrev pub pure : {A : Type 0} → A → Cmd A
pure = done

module _ {A B : Type 0} where
  abbrev pub and_then : Run A → (A → Cmd B) → Run B
  and_then (done a s) k = k a s
  and_then fault k = fault
  and_then out_of_fuel k = out_of_fuel

  infixl 5 ◌>>=◌ ◌>>◌
  abbrev pub ◌>>=◌ : Cmd A → (A → Cmd B) → Cmd B
  m >>= k = λ s. and_then (m s) k

  abbrev pub ◌>>◌ : Cmd A → Cmd B → Cmd B
  m >> k = m >>= λ _. k

abbrev pub tell : Event → Cmd (Unit {0})
tell e s = done tt (record s { log = e ∷ s.log })

abbrev pub put : Ptr → Cell → Cmd (Unit {0})
put p c s = done tt (record s { heap = write s.heap p c })

abbrev pub get_head : Cmd Ptr
get_head s = done s.conn_head s

abbrev pub set_head : Ptr → Cmd (Unit {0})
set_head p s = done tt (record s { conn_head = p })

-- `*p`
unfoldable pub load : Ptr → Cmd PeerConn
load p s = if p == null then fault else elim (s.heap p) [
  | unused ↦ fault
  | live n ↦ done n s
  | freed n ↦ done n (record s { log = stale_read p ∷ s.log })
]

-- `*p = n` for a node in use.
unfoldable pub store : Ptr → PeerConn → Cmd (Unit {0})
store p n = load p >> put p (live n)

unfoldable pub set_next : Ptr → Ptr → Cmd (Unit {0})
set_next p q = do n ← load p; put p (live (record n { next = q }))

-- An assignment to fields of `*p` other than the link.
unfoldable pub update : Ptr → (Conn → Conn) → Cmd (Unit {0})
update p f = do n ← load p; put p (live (record n { conn = f n.conn }))

unfoldable pub free : Ptr → Cmd (Unit {0})
free p = do n ← load p; put p (freed n)
