-- ===== src/Chat/Threads.antt =====
-- src/listener.c and the threads beside the main one: what happens to the list of connections while
-- a command waits with `conn_mutex` released.
use linux_exercises.Base.{
  ℕ, zero, suc, Bool, true, false, not, ◌&&◌, Option, none, some, List, [], ◌∷◌, ◌==◌,
  if◌then◌else◌,
}
use linux_exercises.Chat.State.{
  Text, Ptr, null, Line, printed, closed, accepted, connected, accept_failed, no_memory, no_thread,
  Cmd, out_of_fuel, pure, ◌>>=◌, ◌>>◌, tell, get_head, set_head, load, set_next, update, free,
}
use linux_exercises.Chat.Connection.{
  add_connection, recv_thread_ends, scan_loop, remove_node_locked,
}

-- `while (cur && cur->next != p) cur = cur->next;`
unfoldable pub before_loop : ℕ → (p cur : Ptr) → Cmd Ptr
before_loop zero p cur = λ _. out_of_fuel
before_loop (suc k) p cur =
    if cur == null
    then pure null
    else do n ← load cur; if n.next == p then pure cur else before_loop k p n.next

-- Takes a node out again for which no thread could be started.
unfoldable pub rollback : ℕ → Ptr → Cmd (Unit {0})
rollback fuel p = do
  head ← get_head
  (if head == p then (do n ← load p; set_head n.next) else do
    cur ← before_loop fuel p head
    if cur == null then pure tt else do n ← load p; set_next cur n.next)
  free p

-- What `accept` returns, and then `malloc` and `pthread_create`.
pub data Accept : Type 0 where
  failed : Accept
  peer : (newfd : ℕ) → (ip : Text) → (port : ℕ) → (fresh : Ptr) → (thread : Option ℕ) → Accept

-- What comes after `pthread_create` in the loop of `listener_thread`; `line` is what is printed of a
-- connection that has its thread.
unfoldable pub started :
    ℕ → (line : Text → ℕ → ℕ → Line) → (newfd : ℕ) → Ptr → Option ℕ → Cmd (Unit {0})
started fuel line newfd p none = do tell (printed no_thread); tell (closed newfd); rollback fuel p
started fuel line newfd p (some t) = do
  update p (λ c. record c { thread = t })
  n ← load p
  tell (printed (line n.conn.ip n.conn.port n.conn.id))

-- A connected socket is put in the list, and its thread started. `cmd_connect` does the same.
unfoldable pub admit :
    ℕ
    → (line : Text → ℕ → ℕ → Line) → (newfd : ℕ) → Text
    → (port : ℕ) → (fresh : Ptr) → Option ℕ
    → Cmd (Unit {0})
admit fuel line newfd ip port fresh thread = do
  p ← add_connection fresh newfd ip port
  if p == null
      then (do tell (printed no_memory); tell (closed newfd))
      else started fuel line newfd p thread

-- One round of the loop of `listener_thread` while `running` is set.
unfoldable pub accept_one : ℕ → Accept → Cmd (Unit {0})
accept_one fuel failed = tell (printed accept_failed)
accept_one fuel (peer newfd ip port fresh thread) = admit fuel accepted newfd ip port fresh thread

-- What another thread does between two of the main thread's holds of `conn_mutex`.
pub data Outside : Type 0 where
  recv_ends : Ptr → Outside
  arrives : Accept → Outside

unfoldable pub outside : ℕ → Outside → Cmd (Unit {0})
outside fuel (recv_ends p) = recv_thread_ends p
outside fuel (arrives a) = accept_one fuel a

unfoldable pub others : ℕ → List Outside → Cmd (Unit {0})
others fuel [] = pure tt
others fuel (o ∷ os) = do outside fuel o; others fuel os

-- What is done to the list while the listener waits in `accept`: what a receiving thread does, and of
-- the commands of the main thread what `cmd_connect` does with a connected socket, the mark of
-- `cmd_terminate` and `cmd_exit` on a connection that they close, and the removal of a node by
-- `cmd_terminate` or `reap_connections`. The main thread's output and its calls on sockets are left
-- out; `cmd_exit` frees the list only once the listener has ended.
pub data Act : Type 0 where
  other : Outside → Act
  dials : (sock : ℕ) → (ip : Text) → (port : ℕ) → (fresh : Ptr) → (thread : Option ℕ) → Act
  marks removes : Ptr → Act

unfoldable pub one_act : ℕ → Act → Cmd (Unit {0})
one_act fuel (other o) = outside fuel o
one_act fuel (dials sock ip port fresh thread) = admit fuel connected sock ip port fresh thread
one_act fuel (marks p) = update p (λ c. record c { active = false })
one_act fuel (removes p) = do
  head ← get_head
  r ← scan_loop fuel p null head
  if r.1 == p then remove_node_locked r.0 r.1 else pure tt

unfoldable pub acts : ℕ → List Act → Cmd (Unit {0})
acts fuel [] = pure tt
acts fuel (a ∷ as') = do one_act fuel a; acts fuel as'

-- A round of the loop of `listener_thread`: `running` as the loop looks at it, what the other
-- threads do until `accept` returns, what comes of `accept`, and `running` as it is looked at again
-- where that has failed.
pub record Turn : Type 0 where
  pub running : Bool
  pub meanwhile : List Act
  pub accepted_ : Accept
  pub still_running : Bool

abbrev pub has_failed : Accept → Bool
has_failed failed = true
has_failed (peer newfd ip port fresh thread) = false

-- The result says whether the thread has ended; otherwise it waits in `accept`.
unfoldable pub listener_thread : ℕ → List Turn → Cmd Bool
listener_thread fuel [] = pure false
listener_thread fuel (t ∷ ts) = if not t.running then pure true else do
  acts fuel t.meanwhile
  if has_failed t.accepted_ && not t.still_running
      then pure true
      else (do accept_one fuel t.accepted_; listener_thread fuel ts)
