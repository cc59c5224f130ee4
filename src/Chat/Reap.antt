-- ===== src/Chat/Reap.antt =====
-- `reap_connections` of src/connection.c.
use linux_exercises.Base.{ℕ, zero, suc, List, [], ◌∷◌, ◌==◌, if◌then◌else◌}
use linux_exercises.Chat.State.{
  Ptr, null, printed, joined, removed, Cmd, out_of_fuel, pure, ◌>>=◌, ◌>>◌, tell, get_head, load,
}
use linux_exercises.Chat.Connection.{scan_loop, remove_node_locked}
use linux_exercises.Chat.Threads.{Outside, others}

-- What other threads do during each `pthread_join`, a list for each.
abbrev pub Waits : Type 0
Waits = List (List Outside)

abbrev pub now : Waits → List Outside
now [] = []
now (w ∷ ws) = w

abbrev pub after : Waits → Waits
after [] = []
after (w ∷ ws) = ws

-- The search for `cur` after the join, its removal, and the line that is printed from the node.
unfoldable pub reap_node : ℕ → Ptr → Cmd (Unit {0})
reap_node fuel cur = do
  head ← get_head
  r ← scan_loop fuel cur null head
  if r.1 == cur
      then (do remove_node_locked r.0 r.1; n ← load cur; tell (printed (removed n.conn.id)))
      else pure tt

-- `fuel` bounds the walks of `reap_node`, the first number the rounds of the loop.
unfoldable pub reap_loop : ℕ → ℕ → Waits → Ptr → Cmd (Unit {0})
reap_loop zero fuel ws cur = λ _. out_of_fuel
reap_loop (suc k) fuel ws cur = if cur == null then pure tt else do
  n ← load cur
  if n.conn.should_remove
      then (do
        tell (joined n.conn.thread)
        others fuel (now ws)
        reap_node fuel cur
        head ← get_head
        reap_loop k fuel (after ws) head)
      else reap_loop k fuel ws n.next

unfoldable pub reap_connections : ℕ → ℕ → Waits → Cmd (Unit {0})
reap_connections rounds fuel ws = do head ← get_head; reap_loop rounds fuel ws head
