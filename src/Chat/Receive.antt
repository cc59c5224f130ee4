-- ===== src/Chat/Receive.antt =====
-- `conn_recv_thread` of src/connection.c: the thread that reads from one peer.
use linux_exercises.Base.{
  ℕ, ◌≡◌, ◌≢◌, refl, Bool, true, false, ◌&&◌, List, [], ◌∷◌, ◌++◌, arith, ◌==◌, if◌then◌else◌,
  Bool-cases, ==_iff, some, some-eq-some, inl, inr, subst, ap, ◌∙◌,
}
use linux_exercises.Strings.{c_string}
use linux_exercises.Chat.State.{
  Text, Ptr, null, Conn, Heap, Chat, done, Event, printed, wants_disconnect, peer_closed,
  recv_failed, message, Cmd, pure, ◌>>=◌, ◌>>◌, tell, load,
}
use linux_exercises.Chat.Connection.{recv_thread_ends}
use linux_exercises.Chat.Registry.{
  Cells, Linked, first, has, cell_at, node, IsRegistry, update_cell,
}
use linux_exercises.Chat.Nodes.{load-ok, update-IsRegistry}
use linux_exercises.Chat.Arrivals.{ended}

-- What a `recv` returns: how many bytes it has stored, which are told, none of them if it returns 0,
-- or -1 with `errno` EINTR or another.
pub data Received : Type 0 where
  bytes : List ℕ → Received
  interrupted broken : Received

abbrev pub starts_with : Text → Text → Bool
starts_with [] cs = true
starts_with (p ∷ ps) [] = false
starts_with (p ∷ ps) (c ∷ cs) = p == c && starts_with ps cs

-- "CMD:DISCONNECT"
abbrev pub disconnect_text : Text
disconnect_text =
    b'C' ∷ b'M' ∷ b'D' ∷ b':' ∷ b'D' ∷ b'I' ∷ b'S' ∷ b'C' ∷ b'O' ∷ b'N' ∷ b'N' ∷ b'E' ∷ b'C' ∷ b'T'
    ∷ []

-- The loop; the result says whether it has been left. Where the list of results ends, the thread
-- waits in `recv`.
unfoldable pub recv_loop : List Received → Ptr → Cmd Bool
recv_loop [] p = pure false
recv_loop (bytes [] ∷ rs) p = do
  n ← load p
  tell (printed (peer_closed n.conn.ip n.conn.port))
  pure true
recv_loop (bytes (x ∷ b) ∷ rs) p = do
  n ← load p
  if starts_with disconnect_text (c_string (x ∷ b))
      then (do tell (printed (wants_disconnect n.conn.ip n.conn.port)); pure true)
      else (do tell (printed (message n.conn.ip n.conn.port (c_string (x ∷ b)))); recv_loop rs p)
recv_loop (interrupted ∷ rs) p = do n ← load p; recv_loop rs p
recv_loop (broken ∷ rs) p = do
  n ← load p
  tell (printed (recv_failed n.conn.ip n.conn.port))
  pure true

unfoldable pub conn_recv_thread : List Received → Ptr → Cmd (Unit {0})
conn_recv_thread rs p = do b ← recv_loop rs p; if b then recv_thread_ends p else pure tt

-- Whether these results end the conversation.
abbrev pub is_last : Received → Bool
is_last (bytes []) = true
is_last (bytes (x ∷ b)) = starts_with disconnect_text (c_string (x ∷ b))
is_last interrupted = false
is_last broken = true

abbrev pub over : List Received → Bool
over [] = false
over (r ∷ rs) = if is_last r then true else over rs

-- What is printed for one result.
abbrev pub line_of : Conn → Received → List Event
line_of c (bytes []) = printed (peer_closed c.ip c.port) ∷ []
line_of c (bytes (x ∷ b)) =
    if starts_with disconnect_text (c_string (x ∷ b))
    then printed (wants_disconnect c.ip c.port) ∷ []
    else printed (message c.ip c.port (c_string (x ∷ b))) ∷ []
line_of c interrupted = []
line_of c broken = printed (recv_failed c.ip c.port) ∷ []

-- The lines up to the result that ends the conversation, the latest first.
abbrev pub heard : Conn → List Received → List Event → List Event
heard c [] log = log
heard c (r ∷ rs) log = if is_last r then line_of c r ++ log else heard c rs (line_of c r ++ log)

recv_loop-heard :
    (rs : List Received) (p : Ptr) (c : Conn) (q : Ptr) (s : Chat)
    → p ≢ null
    → s.heap p ≡ node c q
    → recv_loop rs p s ≡ done (over rs) (record s { log = heard c rs s.log })
unfolding recv_loop
recv_loop-heard [] p c q s ne e = refl
recv_loop-heard (bytes [] ∷ rs) p c q s ne e = rw (load-ok s p ne e)
recv_loop-heard (bytes (x ∷ b) ∷ rs) p c q s ne e =
    elim (Bool-cases (starts_with disconnect_text (c_string (x ∷ b)))) [
      | inl y ↦ rw (load-ok s p ne e, y)
      | inr n ↦
          rw (load-ok s p ne e, n)
            (recv_loop-heard rs p c q
              (record s { log = printed (message c.ip c.port (c_string (x ∷ b))) ∷ s.log }) ne e)
    ]
recv_loop-heard (interrupted ∷ rs) p c q s ne e =
    rw (load-ok s p ne e) (recv_loop-heard rs p c q s ne e)
recv_loop-heard (broken ∷ rs) p c q s ne e = rw (load-ok s p ne e)

-- The node of a cell.
cell_at-node :
    (h : Heap) (p : Ptr) (xs : Cells) (c : Conn)
    → Linked h xs
    → cell_at p xs ≡ some c
    → (p ≢ null) × (has p xs ≡ true) × (q : Ptr) × (h p ≡ node c q)
cell_at-node h p [] c l e = absurd (cc)
cell_at-node h p ((a, d) ∷ xs) c l e = elim (Bool-cases (a == p)) [
  | inl y ↦
      let z = (==_iff a p).0 y in
      let w = some-eq-some d c (rw y at e) in
      subst (λ x. (x ≢ null) × (has x ((a, d) ∷ xs) ≡ true) × (q : Ptr) × (h x ≡ node c q)) z
        (l.0, ground arith, first xs, l.1 ∙ ap (λ x. node x (first xs)) w)
  | inr n ↦ let r = cell_at-node h p xs c l.3 (rw n at e) in (r.0, ground (arith, r.1), r.2, r.3)
]

-- The receiving thread of a connection in the list prints a line for each result of recv, but
-- none for EINTR, in order, up to the first that ends the conversation: a message, that the peer
-- wants to disconnect, that it has closed, where recv returns 0, or that recv has failed. Exactly
-- if there is a result that ends the conversation, the thread clears active and sets
-- should_remove on its own cell, and no other cell changes.
pub conn_recv_thread-heard :
    (rs : List Received) (p : Ptr) (c : Conn) (xs : Cells) (s : Chat)
    → IsRegistry s xs
    → cell_at p xs ≡ some c
    → (g : Heap) × (conn_recv_thread rs p s
        ≡ done tt (record s { heap = g; log = heard c rs s.log }))
      × IsRegistry (record s { heap = g }) (if over rs then update_cell p ended xs else xs)
unfolding conn_recv_thread recv_thread_ends
conn_recv_thread-heard rs p c xs s r e =
    let (ne, i, q, at) = cell_at-node s.heap p xs c r.linked e in
    let t : Chat = record s { log = heard c rs s.log } in
    elim (Bool-cases (over rs)) [
      | inl y ↦
          let (g, u, k, _, _) =
            update-IsRegistry t {p = p} ended {xs = xs}
              (record { head = r.head; linked = r.linked }) i in
          (
            g,
            rw (recv_loop-heard rs p c q s ne at, y, u),
            rw y (record { head = k.head; linked = k.linked }),
          )
      | inr n ↦ (
        s.heap,
        rw (recv_loop-heard rs p c q s ne at, n),
        rw n (record { head = r.head; linked = r.linked }),
      )
    ]
