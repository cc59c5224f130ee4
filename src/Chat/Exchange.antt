-- ===== src/Chat/Exchange.antt =====
-- What one peer sends and the other prints: cmd_send and cmd_terminate of src/command.c at one end of a
-- connection, conn_recv_thread of src/connection.c at the other.
use mathlib.Core.List.{append-nil, append_assoc}
use linux_exercises.Base.{
  ℕ, ◌+◌, ◌<◌, ◌≤◌, ◌≡◌, refl, true, false, ◌&&◌, some, some-eq-some, List, [], ◌∷◌, ◌++◌, map,
  arith, ◌==◌, subst, ltb, if◌then◌else◌, length, All, ap, sym, ◌∙◌, Bool-cases, inl, inr,
}
use linux_exercises.Strings.{NoNul, c_string-NoNul}
use linux_exercises.Chat.State.{
  Text, Ptr, Conn, Heap, Chat, done, Event, printed, sent, send_disconnect, sent_to, message,
  wants_disconnect, max_msg_len, Cmd, pure, ◌>>◌,
}
use linux_exercises.Chat.Command.{cmd_send, cmd_terminate}
use linux_exercises.Chat.Threads.{Outside}
use linux_exercises.Chat.Registry.{Cells, cell_at, IsRegistry, update_cell}
use linux_exercises.Chat.Arrivals.{Holds, AllFit, ended}
use linux_exercises.Chat.Receive.{
  bytes, starts_with, disconnect_text, conn_recv_thread, heard, over, conn_recv_thread-heard,
}
use linux_exercises.Chat.Send.{find?, send_events, cmd_send-send_events}
use linux_exercises.Chat.Terminate.{has_id, off, goodbye, Terminated, cmd_terminate-Terminated}

-- The bytes that have been sent on a socket, oldest first.
abbrev pub stream : (fd : ℕ) → List Event → Text
stream fd [] = []
stream fd (sent g m ∷ log) = let before = stream fd log in if g == fd then before ++ m else before
stream fd (send_disconnect g ∷ log) =
    let before = stream fd log in if g == fd then before ++ disconnect_text else before
stream fd (_ ∷ log) = stream fd log

abbrev pub concat : List Text → Text
concat [] = []
concat (t ∷ ts) = t ++ concat ts

-- A message that cmd_send takes.
abbrev pub IsShort : Text → Type 0
IsShort m = length m ≤ max_msg_len

-- What a `recv` can give, and what does not look like the end of the conversation.
abbrev pub IsPiece : Text → Type 0
IsPiece m = (0 < length m) × NoNul m × (starts_with disconnect_text m ≡ false)

-- One `send` command after the other, each with success.
unfoldable pub send_all : (fuel : ℕ) → (id : ℕ) → List Text → Cmd (Unit {0})
send_all fuel id [] = pure tt
send_all fuel id (m ∷ ms) = cmd_send fuel true id m >> send_all fuel id ms

abbrev pub after_sends : (id : ℕ) → Conn → List Text → List Event → List Event
after_sends id c [] log = log
after_sends id c (m ∷ ms) log =
    after_sends id c ms (printed (sent_to id c.ip c.port) ∷ sent c.sockfd m ∷ log)

-- The lines that the other end prints.
abbrev pub lines : Conn → List Text → List Event → List Event
lines d [] log = log
lines d (m ∷ ms) log = lines d ms (printed (message d.ip d.port m) ∷ log)

same : (n : ℕ) → (n == n) ≡ true
same n = ground arith

stream-after_sends :
    (id : ℕ) (c : Conn) (ms : List Text) (log : List Event)
    → stream c.sockfd (after_sends id c ms log) ≡ stream c.sockfd log ++ concat ms
stream-after_sends id c [] log = sym (append-nil (stream c.sockfd log))
stream-after_sends id c (m ∷ ms) log =
    stream-after_sends id c ms (printed (sent_to id c.ip c.port) ∷ sent c.sockfd m ∷ log)
    ∙ rw (same c.sockfd) (append_assoc (stream c.sockfd log) m (concat ms))

stream-goodbye :
    (c : Conn) (log : List Event)
    → stream c.sockfd (goodbye c log) ≡ stream c.sockfd log ++ disconnect_text
stream-goodbye c log = rw (same c.sockfd) refl

-- The first connection with an id, if it is active, is the first active one with that id.
find?-active :
    (id : ℕ) (xs : Cells) (p : Ptr) (c : Conn)
    → find? (has_id id) xs ≡ some (p, c)
    → c.active ≡ true
    → find? (λ x. x.id == id && x.active) xs ≡ some (p, c)
find?-active id [] p c e a = absurd (cc)
find?-active id ((r, d) ∷ xs) p c e a = elim (Bool-cases (d.id == id)) [
  | inl y ↦
      let q = some-eq-some (r, d) (p, c) (rw y at e) in
      let b : d.active ≡ true = ap (λ x. x.1.active) q ∙ a in simp (y, b) (rw y at e)
  | inr n ↦ rw n (find?-active id xs p c (rw n at e) a)
]

send_events-plain :
    (id : ℕ) (m : Text) (xs : Cells) (p : Ptr) (c : Conn)
    → IsShort m
    → find? (λ x. x.id == id && x.active) xs ≡ some (p, c)
    → send_events true id m xs ≡ printed (sent_to id c.ip c.port) ∷ sent c.sockfd m ∷ []
send_events-plain id m xs p c h e = rw (short m h, e) refl
  where
    short : (m : Text) → length m ≤ max_msg_len → ltb max_msg_len (length m) ≡ false
    short m l = ground arith

send_all-after_sends :
    (fuel id : ℕ) (ms : List Text) (xs : Cells) (p : Ptr) (c : Conn) (s : Chat)
    → IsRegistry s xs
    → length xs < fuel
    → find? (λ x. x.id == id && x.active) xs ≡ some (p, c)
    → All IsShort ms
    → send_all fuel id ms s ≡ done tt (record s { log = after_sends id c ms s.log })
unfolding send_all
send_all-after_sends fuel id [] xs p c s r lt e h = refl
send_all-after_sends fuel id (m ∷ ms) xs p c s r lt e h =
    let one = cmd_send-send_events fuel true id m xs s r lt in
    let two = send_events-plain id m xs p c h.0 e in
    rw (one, two)
      (send_all-after_sends fuel id ms xs p c
        (record s { log = printed (sent_to id c.ip c.port) ∷ sent c.sockfd m ∷ s.log })
        (record { head = r.head; linked = r.linked }) lt e h.1)

-- A piece is printed, and does not end the conversation.
heard-lines :
    (d : Conn) (ms : List Text) (log : List Event)
    → All IsPiece ms
    → heard d (map bytes ms ++ bytes disconnect_text ∷ []) log
      ≡ printed (wants_disconnect d.ip d.port) ∷ lines d ms log
heard-lines d [] log h = refl
heard-lines d ([] ∷ ms) log h = absurd (omega (arith, h.0.0))
heard-lines d ((x ∷ m) ∷ ms) log h =
    rw (c_string-NoNul (x ∷ m) h.0.1, h.0.2)
      (heard-lines d ms (printed (message d.ip d.port (x ∷ m)) ∷ log) h.1)

over-lines :
    (ms : List Text) → All IsPiece ms → over (map bytes ms ++ bytes disconnect_text ∷ []) ≡ true
over-lines [] h = refl
over-lines ([] ∷ ms) h = absurd (omega (arith, h.0.0))
over-lines ((x ∷ m) ∷ ms) h = rw (c_string-NoNul (x ∷ m) h.0.1, h.0.2) (over-lines ms h.1)

-- The two ends of a connection: the terminal of one after its messages, the thread of the other,
-- with the pieces that its `recv`s give.
pub record Conversed (fuel n id : ℕ) (os : List Outside) (xs : Cells) (p : Ptr) (c : Conn)
    (msgs pieces : List Text) (s : Chat) (q : Ptr) (ys : Cells) (d : Conn) (b : Chat) : Type 0 where
  pub state : Chat
  pub sends : send_all fuel id msgs s ≡ done tt state
  pub ends : Terminated fuel n id os xs p c state (cmd_terminate fuel os id state)
  pub pours : stream c.sockfd ends.waiting.log ≡ concat pieces ++ disconnect_text
  pub heap : Heap
  pub hears :
      conn_recv_thread (map bytes pieces ++ bytes disconnect_text ∷ []) q b
      ≡ done tt (record b {
        heap = heap;
        log = printed (wants_disconnect d.ip d.port) ∷ lines d pieces b.log;
      })
  pub marks : IsRegistry (record b { heap = heap }) (update_cell q ended ys)

-- Where send always succeeds, nothing has been sent on the socket before, and with enough fuel:
-- cmd_send of messages of at most 100 bytes each to the first connection with an id, which is
-- active, and then cmd_terminate of that id, send just the bytes of the messages, in order, and
-- `CMD:DISCONNECT` behind them. However the stream splits the bytes of the messages into pieces,
-- none of them empty, with a NUL, or beginning with `CMD:DISCONNECT`, where each recv at the
-- other end gives one piece, and the last just `CMD:DISCONNECT`: the receiving thread prints the
-- pieces, in order, then that the peer wants to disconnect, and marks its own connection as
-- ended.
pub send_all-Conversed :
    (fuel n id : ℕ) (os : List Outside) (xs : Cells) (p : Ptr) (c : Conn) (msgs pieces : List Text)
    (s : Chat) (q : Ptr) (ys : Cells) (d : Conn) (b : Chat)
    → Holds n xs s
    → find? (has_id id) xs ≡ some (p, c)
    → c.active ≡ true
    → stream c.sockfd s.log ≡ []
    → All IsShort msgs
    → All IsPiece pieces
    → concat pieces ≡ concat msgs
    → AllFit n os (update_cell p off xs)
    → length xs + length os < fuel
    → IsRegistry b ys
    → cell_at q ys ≡ some d
    → Conversed fuel n id os xs p c msgs pieces s q ys d b
send_all-Conversed fuel n id os xs p c msgs pieces s q ys d b h e a w short plain whole fit lt r
      at =
    let t : Chat = record s { log = after_sends id c msgs s.log } in
    let t_holds : Holds n xs t = record {
      registry = record { head = h.registry.head; linked = h.registry.linked };
      id = h.id;
    } in
    let z = cmd_terminate-Terminated fuel n id os xs p c t t_holds e fit lt in
    let (g, f, k) =
      conn_recv_thread-heard (map bytes pieces ++ bytes disconnect_text ∷ []) q d ys b r at in
    record {
      state = t;
      sends =
          send_all-after_sends fuel id msgs xs p c s h.registry (omega (arith, lt))
            (find?-active id xs p c e a) short;
      ends = z;
      pours =
          ap (stream c.sockfd) z.said
          ∙ stream-goodbye c t.log
          ∙ ap (λ x. x ++ disconnect_text)
              (stream-after_sends id c msgs s.log ∙ ap (λ x. x ++ concat msgs) w ∙ sym whole);
      heap = g;
      hears =
          f ∙ ap (λ x. done tt (record b { heap = g; log = x })) (heard-lines d pieces b.log plain);
      marks =
          subst (λ x. IsRegistry (record b { heap = g }) (if x then update_cell q ended ys else ys))
            (over-lines pieces plain) k;
    }
