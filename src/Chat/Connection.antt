-- ===== src/Chat/Connection.antt =====
-- src/connection.c: the list of connections.
use linux_exercises.Base.{ℕ, zero, suc, ◌+◌, ◌%◌, ◌^◌, Bool, true, false, ◌==◌, if◌then◌else◌}
use linux_exercises.Chat.State.{
  Text, Ptr, null, Conn, live, done, out_of_fuel, Cmd, pure, ◌>>=◌, ◌>>◌, put, get_head, set_head,
  load, set_next, update, free,
}

-- `__sync_fetch_and_add(&next_conn_id, 1)` on an `int`.
abbrev pub fetch_id : Cmd ℕ
fetch_id s = done s.next_conn_id (record s { next_conn_id = (s.next_conn_id + 1) % 2 ^ 32 })

abbrev pub new_conn : (id sockfd : ℕ) → Text → (port : ℕ) → Conn
new_conn id sockfd ip port = record {
  id = id;
  sockfd = sockfd;
  ip = ip;
  port = port;
  thread = 0;
  active = true;
  should_remove = false;
}

-- `fresh` is what `malloc` returns; `ip` and `port` are the peer's address as `inet_ntop` and
-- `ntohs` give it.
unfoldable pub add_connection : (fresh : Ptr) → (sockfd : ℕ) → Text → (port : ℕ) → Cmd Ptr
add_connection fresh sockfd ip port = if fresh == null then pure null else do
  id ← fetch_id
  head ← get_head
  put fresh (live (record { conn = new_conn id sockfd ip port; next = head }))
  set_head fresh
  pure fresh

-- A walk from `cur` to the first node that passes the test; the node before it comes first.
unfoldable pub find_loop : ℕ → (Conn → Bool) → (prev cur : Ptr) → Cmd (Ptr × Ptr)
find_loop zero test prev cur = λ _. out_of_fuel
find_loop (suc k) test prev cur =
    if cur == null
    then pure (prev, null)
    else do n ← load cur; if test n.conn then pure (prev, cur) else find_loop k test cur n.next

unfoldable pub find_connection_by_id : ℕ → (id : ℕ) → Cmd Ptr
find_connection_by_id fuel id = do
  head ← get_head
  r ← find_loop fuel (λ c. c.id == id) null head
  pure r.1

-- The last lines of `conn_recv_thread`, under the lock.
unfoldable pub recv_thread_ends : Ptr → Cmd (Unit {0})
recv_thread_ends p = update p (λ c. record c { active = false; should_remove = true })

unfoldable pub remove_node_locked : (prev cur : Ptr) → Cmd (Unit {0})
remove_node_locked prev cur =
    if cur == null
    then pure tt
    else do n ← load cur; (if prev == null then set_head n.next else set_next prev n.next); free cur

-- `while (scan && scan != cur) { scan_prev = scan; scan = scan->next; }`
unfoldable pub scan_loop : ℕ → (target prev scan : Ptr) → Cmd (Ptr × Ptr)
scan_loop zero target prev scan = λ _. out_of_fuel
scan_loop (suc k) target prev scan =
    if scan == null
    then pure (prev, null)
    else if scan == target
    then pure (prev, scan)
    else do n ← load scan; scan_loop k target scan n.next
