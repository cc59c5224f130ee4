-- ===== src/Chat/Send.antt =====
-- `cmd_send`, `cmd_list` and `cmd_terminate` on cells.
use linux_exercises.Base.{
  ℕ, zero, suc, ◌<◌, ◌≡◌, ◌≢◌, refl, Bool, true, ◌&&◌, Option, none, some, some-eq-some, List, [],
  ◌∷◌, ◌++◌, arith, ◌==◌, ltb, if◌then◌else◌, length, ap, subst, ◌∙◌, Bool-cases, Option-cases, inl,
  inr,
}
use linux_exercises.Chat.State.{
  Text, Ptr, null, max_msg_len, Conn, Heap, Chat, done, Event, printed, sent, row, too_long,
  not_active, send_failed, sent_to,
}
use linux_exercises.Chat.Connection.{find_loop}
use linux_exercises.Chat.Command.{list_loop, cmd_send}
use linux_exercises.Chat.Registry.{Cells, first, has, node, Linked, IsRegistry, find_cells}
use linux_exercises.Chat.Nodes.{load-ok, find_loop-find_cells}
use linux_exercises.Chat.Lists.{not_null}

-- The first cell that passes the test.
abbrev pub find? : (Conn → Bool) → Cells → Option (Ptr × Conn)
find? test [] = none
find? test ((a, c) ∷ xs) = if test c then some (a, c) else find? test xs

pub record Found (h : Heap) (test : Conn → Bool) (prev : Ptr) (xs : Cells) (p : Ptr) (c : Conn)
    : Type 0 where
  pub walked : (find_cells test prev xs).1 ≡ p
  pub mem : has p xs ≡ true
  pub ne_null : p ≢ null
  pub next : Ptr
  pub holds : h p ≡ node c next
  pub passes : test c ≡ true

pub find?-Found :
    (h : Heap) (test : Conn → Bool) (prev : Ptr) (xs : Cells) {p : Ptr} {c : Conn}
    → Linked h xs
    → find? test xs ≡ some (p, c)
    → Found h test prev xs p c
find?-Found h test prev [] l e = absurd (cc)
find?-Found h test prev ((a, d) ∷ xs) {p} {c} l e = elim (Bool-cases (test d)) [
  | inl t ↦
      let q = some-eq-some (a, d) (p, c) (rw t at e) in
      subst (λ (x : Ptr × Conn). Found h test prev ((a, d) ∷ xs) x.0 x.1) q
        (record {
          walked = rw t;
          mem = ground arith;
          ne_null = l.0;
          next = first xs;
          holds = l.1;
          passes = t;
        })
  | inr t ↦
      let f = find?-Found h test a xs l.3 (rw t at e) in
      record {
        walked = rw t f.walked;
        mem = ground (arith, f.mem);
        ne_null = f.ne_null;
        next = f.next;
        holds = f.holds;
        passes = f.passes;
      }
]

pub find?-none :
    (test : Conn → Bool) (prev : Ptr) (xs : Cells)
    → find? test xs ≡ none
    → (find_cells test prev xs).1 ≡ null
find?-none test prev [] e = refl
find?-none test prev ((a, d) ∷ xs) e = ground (arith, find?-none test a xs)

-- The search of a command, from the head of the list.
pub walk :
    (fuel : ℕ) (test : Conn → Bool) (xs : Cells) (s : Chat)
    → IsRegistry s xs
    → length xs < fuel
    → find_loop fuel test null s.conn_head s ≡ done (find_cells test null xs) s
walk fuel test xs s r lt =
    ap (λ x. find_loop fuel test null x s) r.head
    ∙ find_loop-find_cells fuel test null xs s r.linked lt

-- What `cmd_send` makes visible, the latest first.
abbrev pub send_events : (ok : Bool) → (id : ℕ) → (msg : Text) → Cells → List Event
send_events ok id msg xs =
    if ltb max_msg_len (length msg)
    then printed too_long ∷ []
    else elim (find? (λ c. c.id == id && c.active) xs) [
      | none ↦ printed (not_active id) ∷ []
      | some (p, c) ↦
          (if ok then printed (sent_to id c.ip c.port) else printed send_failed)
          ∷ sent c.sockfd msg
          ∷ []
    ]

-- With enough fuel cmd_send returns, changes nothing but the output, and sends exactly if the
-- message has at most 100 bytes and a connection with that id is active: then the message, whole,
-- to the socket of the first such connection.
pub cmd_send-send_events :
    (fuel : ℕ) (ok : Bool) (id : ℕ) (msg : Text) (xs : Cells) (s : Chat)
    → IsRegistry s xs
    → length xs < fuel
    → cmd_send fuel ok id msg s ≡ done tt (record s { log = send_events ok id msg xs ++ s.log })
unfolding cmd_send
cmd_send-send_events fuel ok id msg xs s r lt = elim (Bool-cases (ltb max_msg_len (length msg))) [
  | inl long ↦ rw long
  | inr short ↦ rw short (elim (Option-cases (find? (λ c. c.id == id && c.active) xs)) [
    | inl e ↦ rw (w, e, find?-none _ null xs e)
    | inr ((p, c), e) ↦
        let f = find?-Found s.heap _ null xs r.linked e in
        rw (w, e, f.walked, not_null f.ne_null, load-ok s p f.ne_null f.holds)
          (elim (Bool-cases ok) [ inl y ↦ rw y | inr n ↦ rw n ])
  ])
]
  where
    w :
        find_loop fuel (λ c. c.id == id && c.active) null s.conn_head s
        ≡ done (find_cells (λ c. c.id == id && c.active) null xs) s
    w = walk fuel (λ c. c.id == id && c.active) xs s r lt

-- The rows that the loop of `cmd_list` prints, pushed on a log in their order.
abbrev pub rows : Cells → List Event → List Event
rows [] log = log
rows ((a, c) ∷ xs) log = rows xs (if c.active then printed (row c.id c.ip c.port) ∷ log else log)

-- With enough fuel the loop of cmd_list returns and prints a row for each active connection, in
-- the order of the list, and for no other.
pub list_loop-rows :
    (fuel : ℕ) (xs : Cells) (s : Chat)
    → Linked s.heap xs
    → length xs < fuel
    → list_loop fuel (first xs) s ≡ done tt (record s { log = rows xs s.log })
unfolding list_loop
list_loop-rows zero xs s l lt = absurd (omega arith)
list_loop-rows (suc k) [] s l lt = refl
list_loop-rows (suc k) ((a, c) ∷ xs) s l lt = elim (Bool-cases c.active) [
  | inl y ↦
      simp (not_null l.0, load-ok s a l.0 l.1, y)
        (list_loop-rows k xs (record s { log = printed (row c.id c.ip c.port) ∷ s.log }) l.3
          (omega arith))
  | inr n ↦ simp (not_null l.0, load-ok s a l.0 l.1, n) (list_loop-rows k xs s l.3 (omega arith))
]
