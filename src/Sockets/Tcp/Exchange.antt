-- ===== src/Sockets/Tcp/Exchange.antt =====
-- What tcp_server.c and tcp_client.c say to each other.
use linux_exercises.Base.{
  ℕ, ◌+◌, ◌≡◌, ◌<◌, ◌∙◌, ap, refl, arith, List, [], ◌∷◌, ◌++◌, map, All, some, length,
  length-append, ◌==◌, sym, ==_iff, if◌then◌else◌,
}
use mathlib.Core.List.{append_assoc, append-nil}
use linux_exercises.Strings.{
  Text, c_string, NoNul, c_string-NoNul, length-c_string-le, snprintf, snprintf-whole,
}
use linux_exercises.Io.{
  Event, Read, Run, done, failure, waiting, undefined, got, receive, sent, shown, closed, opened,
  bound, listening, inet, from_client, from_server, client_at, client_gone, ready, tell, and_then,
}
use linux_exercises.Sockets.Calls.{works, receive-got}
use linux_exercises.Sockets.Tcp.{
  Client, accept_client, create_server_socket, handle_client, tcp_server, client_loop, tcp_answer,
  port, buffer_size,
}

-- The bytes of one `read`: some, and no more than the buffer holds with a NUL behind them.
abbrev pub IsChunk : List ℕ → Type 0
IsChunk b = (0 < length b) × (length b < buffer_size)

-- The events of a server that has answered these reads, the latest first.
unfoldable pub answered : (fd : ℕ) → List (List ℕ) → List Event → List Event
answered fd [] log = log
answered fd (b ∷ bs) log =
    answered fd bs (sent fd (tcp_answer ++ c_string b) ∷ shown (from_client (c_string b)) ∷ log)

whole :
    (b : List ℕ)
    → length b < buffer_size
    → snprintf (buffer_size + 17) tcp_answer (c_string b) ≡ tcp_answer ++ c_string b
whole b h =
    snprintf-whole (buffer_size + 17) tcp_answer (c_string b)
      (omega (arith, h, length-c_string-le b))

handle_client-answered :
    (fd : ℕ) (bs : List (List ℕ)) (rs : List Read) (log : List Event)
    → All IsChunk bs
    → handle_client fd (map got bs ++ rs) log ≡ handle_client fd rs (answered fd bs log)
unfolding handle_client answered
handle_client-answered fd [] rs log h = refl
handle_client-answered fd ([] ∷ bs) rs log h = absurd (omega (arith, h.0.0))
handle_client-answered fd ((c ∷ cs) ∷ bs) rs log h =
    rw (receive-got buffer_size (c ∷ cs) log h.0.1, whole (c ∷ cs) h.0.1)
      (handle_client-answered fd bs rs _ h.1)

-- With every call successful, and reads that each give at least one byte and leave room for the
-- NUL up to one that gives none, tcp_server.c sets its socket up, announces the client, prints
-- every message and sends the answer to it whole, in order, then closes the client's socket and
-- after it its own, and returns.
pub tcp_server-session :
    (g a : ℕ) (c : Client) (bs : List (List ℕ))
    → All IsChunk bs
    → tcp_server (works g a) (some c) (map got bs ++ got [] ∷ []) []
      ≡ done tt (
          closed g
          ∷ closed c.fd
          ∷ shown client_gone
          ∷ answered c.fd bs (
              shown (client_at c.ip c.port_)
              ∷ opened c.fd
              ∷ shown ready
              ∷ listening g
              ∷ bound g (inet a port)
              ∷ opened g
              ∷ []))
unfolding tcp_server create_server_socket accept_client handle_client receive
tcp_server-session g a c bs h =
    ap (λ r. and_then r (λ _. tell (closed g))) (handle_client-answered c.fd bs (got [] ∷ []) _ h)

-- The texts that were sent on a descriptor, the first one first.
unfoldable pub sent_on : (fd : ℕ) → List Event → List Text
sent_on fd [] = []
sent_on fd (sent g t ∷ log) = let rest = sent_on fd log in if fd == g then rest ++ t ∷ [] else rest
sent_on fd (_ ∷ log) = sent_on fd log

-- The events of a client whose lines have been answered.
unfoldable pub echoed : (fd : ℕ) → List Text → List Event → List Event
echoed fd [] log = log
echoed fd (l ∷ ls) log = echoed fd ls (shown (from_server (tcp_answer ++ l)) ∷ sent fd l ∷ log)

-- A line that `fgets` stores, whose answer a client's buffer holds.
abbrev pub IsLine : Text → Type 0
IsLine l = (0 < length l) × (length tcp_answer + length l < buffer_size) × NoNul l

abbrev pub events : {A : Type 0} → Run A → List Event
events (done a log) = log
events (failure log) = log
events (waiting log) = log
events undefined = []

-- Each line with the answer that is read after it.
abbrev pub with_answers : List Text → List Text → List (Text × Read)
with_answers (l ∷ ls) (t ∷ ts) = (l, got t) ∷ with_answers ls ts
with_answers _ _ = []

IsChunk-IsLine : (ls : List Text) → All IsLine ls → All IsChunk ls
IsChunk-IsLine [] h = tt
IsChunk-IsLine (l ∷ ls) h = ((h.0.0, omega (arith, h.0.1)), IsChunk-IsLine ls h.1)

-- What is sent last stands last.
sent_on-sent :
    (fd : ℕ) (t : Text) (log : List Event) (ts : List Text)
    → sent_on fd (sent fd t ∷ log) ++ ts ≡ sent_on fd log ++ t ∷ ts
unfolding sent_on
sent_on-sent fd t log ts = rw ((==_iff fd fd).1 refl) (append_assoc (sent_on fd log) (t ∷ []) ts)

sent_on-answered :
    (fd : ℕ) (ls : List Text) (log : List Event)
    → All IsLine ls
    → sent_on fd (answered fd ls log) ≡ sent_on fd log ++ map (λ l. tcp_answer ++ l) ls
unfolding answered sent_on
sent_on-answered fd [] log h = sym (append-nil (sent_on fd log))
sent_on-answered fd (l ∷ ls) log h = rw (c_string-NoNul l h.0.2) (
    sent_on-answered fd ls _ h.1
    ∙ sent_on-sent fd (tcp_answer ++ l) (shown (from_client l) ∷ log)
        (map (λ l. tcp_answer ++ l) ls))

sent_on-echoed :
    (fd : ℕ) (ls : List Text) (log : List Event)
    → sent_on fd (echoed fd ls log) ≡ sent_on fd log ++ ls
unfolding echoed sent_on
sent_on-echoed fd [] log = sym (append-nil (sent_on fd log))
sent_on-echoed fd (l ∷ ls) log = sent_on-echoed fd ls _ ∙ sent_on-sent fd l log ls

client_loop-echoed :
    (fd : ℕ) (ls : List Text) (log : List Event)
    → All IsLine ls
    → client_loop fd (with_answers ls (map (λ l. tcp_answer ++ l) ls)) log
      ≡ done tt (echoed fd ls log)
unfolding client_loop echoed
client_loop-echoed fd [] log h = refl
client_loop-echoed fd (l ∷ ls) log h =
    rw
      (
        receive-got buffer_size (tcp_answer ++ l) (sent fd (c_string l) ∷ log)
            (omega (arith, h.0.1, length-append tcp_answer l)),
        c_string-NoNul l h.0.2,
      )
      (client_loop-echoed fd ls _ h.1)

-- What a server sends that reads these lines.
server_answers :
    (c : ℕ) (ls : List Text)
    → All IsLine ls
    → sent_on c (events (handle_client c (map got ls) [])) ≡ map (λ l. tcp_answer ++ l) ls
unfolding handle_client sent_on
server_answers c ls h =
    ap (λ r. sent_on c (events r))
      (ap (λ rs. handle_client c rs []) (sym (append-nil (map got ls)))
        ∙ handle_client-answered c ls [] [] (IsChunk-IsLine ls h))
    ∙ sent_on-answered c ls [] h

-- For lines without a NUL that are not empty, and whose answers fit in a buffer of the client: a
-- server of tcp_server.c that reads the lines a client of tcp_client.c sends, one at a time,
-- answers each, and the client that reads these answers, one at a time, prints after each line
-- the text `Server receive: ` followed by just that line, has sent the lines unchanged, and ends.
pub tcp-exchange :
    (g c : ℕ) (ls : List Text)
    → All IsLine ls
    → (client_loop g
          (with_answers ls
            (sent_on c (events (handle_client c (map got (sent_on g (echoed g ls []))) []))))
          []
        ≡ done tt (echoed g ls []))
      × (sent_on g (echoed g ls []) ≡ ls)
unfolding handle_client sent_on
tcp-exchange g c ls h = (
  rw (sent_on-echoed g ls [], server_answers c ls h) (client_loop-echoed g ls [] h),
  sent_on-echoed g ls [],
)
