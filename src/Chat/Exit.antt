-- ===== src/Chat/Exit.antt =====
-- `cmd_exit` on cells.
use linux_exercises.Base.{
  ℕ, zero, suc, ◌+◌, ◌<◌, ◌≡◌, refl, Bool, true, false, Option, none, some, List, [], ◌∷◌, arith,
  ◌==◌, if◌then◌else◌, length, ap, sym, ◌∙◌, subst, ==_iff, Bool-cases, inl, inr, false≢true,
}
use linux_exercises.Chat.State.{
  Ptr, null, Conn, Heap, Chat, Run, done, Event, printed, send_disconnect, shut, closed, joined,
  leaving, write, update, free,
}
use linux_exercises.Chat.Threads.{Outside, others}
use linux_exercises.Chat.Command.{exit_close_loop, exit_free_loop, close_server, cmd_exit}
use linux_exercises.Chat.Registry.{
  Cells, first, has, node, Linked, Linked-write, write_same, write_other,
}
use linux_exercises.Chat.Nodes.{load-ok}
use linux_exercises.Chat.Removal.{freed_node}
use linux_exercises.Chat.Lists.{not_null}
use linux_exercises.Chat.Arrivals.{Holds, AllFit, others_id, others_cells, others-Holds}
use linux_exercises.Chat.Reaping.{length-others_cells}
use linux_exercises.Chat.Terminate.{off}

-- Every active connection marked as closed.
abbrev pub all_off : Cells → Cells
all_off [] = []
all_off ((a, c) ∷ xs) = (a, if c.active then off c else c) ∷ all_off xs

-- The events of the first loop, pushed on a log in their order.
abbrev pub closings : Cells → List Event → List Event
closings [] log = log
closings ((a, c) ∷ xs) log =
    closings xs
      (if c.active then closed c.sockfd ∷ shut c.sockfd ∷ send_disconnect c.sockfd ∷ log else log)

-- Those of the second.
abbrev pub joins : Cells → List Event → List Event
joins [] log = log
joins ((a, c) ∷ xs) log = joins xs (joined c.thread ∷ log)

first-all_off : (xs : Cells) → first (all_off xs) ≡ first xs
first-all_off [] = refl
first-all_off ((a, c) ∷ xs) = refl

has-all_off : (b : Ptr) (xs : Cells) → has b (all_off xs) ≡ has b xs
has-all_off b [] = refl
has-all_off b ((a, c) ∷ xs) = ground (arith, has-all_off b xs)

length-all_off : (xs : Cells) → length (all_off xs) ≡ length xs
length-all_off [] = refl
length-all_off ((a, c) ∷ xs) = ap suc (length-all_off xs)

record Closed (xs : Cells) (s : Chat) (r : Run (Unit {0})) : Type 0 where
  heap : Heap
  returns : r ≡ done tt (record s { heap = heap; log = closings xs s.log })
  linked : Linked heap (all_off xs)
  same : (b : Ptr) → has b xs ≡ false → heap b ≡ s.heap b

exit_close_loop-Closed :
    (k : ℕ) (xs : Cells) (s : Chat)
    → Linked s.heap xs
    → length xs < k
    → Closed xs s (exit_close_loop k (first xs) s)
unfolding exit_close_loop update
exit_close_loop-Closed zero xs s l lt = absurd (omega arith)
exit_close_loop-Closed (suc k) [] s l lt = record {
  heap = s.heap;
  returns = refl;
  linked = tt;
  same = λ b o. refl;
}
exit_close_loop-Closed (suc k) ((a, c) ∷ xs) s l lt = elim (Bool-cases c.active) [
  | inl y ↦
      let u : Chat = record s {
        log = closed c.sockfd ∷ shut c.sockfd ∷ send_disconnect c.sockfd ∷ s.log;
      } in
      let t : Chat = record u { heap = write s.heap a (node (off c) (first xs)) } in
      let rest = exit_close_loop-Closed k xs t (Linked-write s.heap xs a _ l.3 l.2) (omega arith) in
      record {
        heap = rest.heap;
        returns = rw (not_null l.0, load-ok s a l.0 l.1, y, load-ok u a l.0 l.1) rest.returns;
        linked = (
          l.0,
          rest.same a l.2 ∙ write_same s.heap a _ ∙ rw (y, first-all_off xs),
          has-all_off a xs ∙ l.2,
          rest.linked,
        );
        same = λ b o. rest.same b (ground arith) ∙ write_other s.heap _ (ground arith);
      }
  | inr n ↦
      let rest = exit_close_loop-Closed k xs s l.3 (omega arith) in
      record {
        heap = rest.heap;
        returns = rw (not_null l.0, load-ok s a l.0 l.1, n) rest.returns;
        linked = (
          l.0,
          rest.same a l.2 ∙ l.1 ∙ rw (n, first-all_off xs),
          has-all_off a xs ∙ l.2,
          rest.linked,
        );
        same = λ b o. rest.same b (ground arith);
      }
]

record Freed (xs : Cells) (s : Chat) (r : Run (Unit {0})) : Type 0 where
  heap : Heap
  returns : r ≡ done tt (record s { heap = heap; log = joins xs s.log })
  all_freed : (b : Ptr) → has b xs ≡ true → (c : Conn) × (q : Ptr) × (heap b ≡ freed_node c q)
  same : (b : Ptr) → has b xs ≡ false → heap b ≡ s.heap b

exit_free_loop-Freed :
    (k : ℕ) (xs : Cells) (s : Chat)
    → Linked s.heap xs
    → length xs < k
    → Freed xs s (exit_free_loop k (first xs) s)
unfolding exit_free_loop free
exit_free_loop-Freed zero xs s l lt = absurd (omega arith)
exit_free_loop-Freed (suc k) [] s l lt = record {
  heap = s.heap;
  returns = refl;
  all_freed = λ b i. absurd (false≢true i);
  same = λ b o. refl;
}
exit_free_loop-Freed (suc k) ((a, c) ∷ xs) s l lt =
    let u : Chat = record s { log = joined c.thread ∷ s.log } in
    let t : Chat = record u { heap = write s.heap a (freed_node c (first xs)) } in
    let rest = exit_free_loop-Freed k xs t (Linked-write s.heap xs a _ l.3 l.2) (omega arith) in
    record {
      heap = rest.heap;
      returns = rw (not_null l.0, load-ok s a l.0 l.1, load-ok u a l.0 l.1) rest.returns;
      all_freed = λ b i. elim (Bool-cases (a == b)) [
        | inl e ↦ (
          c,
          first xs,
          subst (λ x. rest.heap x ≡ freed_node c (first xs)) ((==_iff a b).0 e)
              (rest.same a l.2 ∙ write_same s.heap a _),
        )
        | inr e ↦ rest.all_freed b (ground arith)
      ];
      same = λ b o. rest.same b (ground arith) ∙ write_other s.heap _ (ground arith);
    }

abbrev pub server_closed : Option ℕ → List Event → List Event
server_closed none log = log
server_closed (some fd) log = closed fd ∷ log

close_server-server_closed :
    (server : Option ℕ) (s : Chat)
    → close_server server s ≡ done tt (record s { log = server_closed server s.log })
close_server-server_closed none s = refl
close_server-server_closed (some fd) s = refl

-- A run of `cmd_exit`: the states about the wait for the listener, and the end.
pub record Exited (fuel n : ℕ) (server : Option ℕ) (listener : ℕ) (os : List Outside) (xs : Cells)
    (s : Chat) (r : Run Bool) : Type 0 where
  pub waiting : Chat
  pub joined_ : Chat
  pub state : Chat
  pub returns : r ≡ done false state
  pub acts : others fuel os waiting ≡ done tt joined_
  pub said :
      waiting.log ≡ joined listener ∷ closings xs (server_closed server (printed leaving ∷ s.log))
  pub closed_ : Holds n (all_off xs) waiting
  pub reported : state.log ≡ joins (others_cells n os (all_off xs)) joined_.log
  pub empty : Holds (others_id n os) [] state
  pub all_freed :
      (b : Ptr)
      → has b (others_cells n os (all_off xs)) ≡ true
      → (c : Conn) × (q : Ptr) × (state.heap b ≡ freed_node c q)

-- With enough fuel, whatever the other threads do during the wait for the listener, and where
-- each receiving thread that is joined ends, cmd_exit returns: the server socket is closed, then
-- each active connection, in the order of the list, told to disconnect, shut, closed and marked,
-- before the wait; then the threads of all connections that the other threads have left in the
-- list are joined, in its order, all their nodes freed, and the list is empty.
pub cmd_exit-Exited :
    (fuel n : ℕ) (server : Option ℕ) (listener : ℕ) (os : List Outside) (xs : Cells) (s : Chat)
    → Holds n xs s
    → AllFit n os (all_off xs)
    → length xs + length os < fuel
    → Exited fuel n server listener os xs s (cmd_exit fuel server listener os s)
unfolding cmd_exit
cmd_exit-Exited fuel n server listener os xs s h fit lt =
    let s₀ : Chat = record s { log = server_closed server (printed leaving ∷ s.log) } in
    let a = exit_close_loop-Closed fuel xs s₀ h.registry.linked (omega arith) in
    let s₁ : Chat = record s₀ { heap = a.heap; log = joined listener ∷ closings xs s₀.log } in
    let h₁ : Holds n (all_off xs) s₁ = record {
      registry = record { head = h.registry.head ∙ sym (first-all_off xs); linked = a.linked };
      id = h.id;
    } in
    let (s₂, e₂, h₂) = others-Holds fuel os s₁ h₁ fit (omega (arith, length-all_off xs)) in
    let ys = others_cells n os (all_off xs) in
    let b =
      exit_free_loop-Freed fuel ys s₂ h₂.registry.linked
        (omega (arith, length-all_off xs, length-others_cells n os (all_off xs))) in
    let w₁ = ap (λ x. exit_close_loop fuel x s₀) h.registry.head ∙ a.returns in
    let w₂ = ap (λ x. exit_free_loop fuel x s₂) h₂.registry.head ∙ b.returns in
    record {
      waiting = s₁;
      joined_ = s₂;
      state = record s₂ { heap = b.heap; log = joins ys s₂.log; conn_head = null };
      returns = rw (
        close_server-server_closed server (record s { log = printed leaving ∷ s.log }),
        w₁,
        e₂,
        w₂,
      );
      acts = e₂;
      said = refl;
      closed_ = h₁;
      reported = refl;
      empty = record { registry = record { head = refl; linked = tt }; id = h₂.id };
      all_freed = b.all_freed;
    }
