-- ===== src/Chat/Command.antt =====
-- src/command.c: the commands of the user, as the main thread runs them. Where a command lets go of
-- `conn_mutex` and takes it again, the list of actions of the other threads in between is an
-- argument; so are the results of the calls on sockets, memory and threads.
use linux_exercises.Base.{
  ℕ, zero, suc, Bool, true, false, not, ◌&&◌, ◌||◌, Option, none, some, List, [], ◌∷◌, ◌==◌, ltb,
  length, if◌then◌else◌,
}
use linux_exercises.Chat.State.{
  leaving, Text, Ptr, null, max_msg_len, printed, send_disconnect, shut, closed, sent, joined,
  invalid_ip, invalid_port, self_connect, duplicate, socket_failed, pton_failed, connect_failed,
  connected, row, not_found, terminated, too_long, not_active, send_failed, sent_to, Cmd,
  out_of_fuel, pure, ◌>>=◌, ◌>>◌, tell, get_head, set_head, load, update, free,
}
use linux_exercises.Strings.{is_empty, same_text, strtol}
use linux_exercises.Chat.Connection.{find_loop, scan_loop, remove_node_locked}
use linux_exercises.Chat.Threads.{admit, Outside, others}
use linux_exercises.Chat.Reap.{Waits, reap_connections}

-- `inet_pton` and `inet_ntop` for IPv4.
pub record Net : Type 0 where
  pub pton : Text → Option ℕ
  pub ntop : ℕ → Text

unfoldable pub is_valid_ipv4 : Net → Text → Bool
is_valid_ipv4 net ip =
    if is_empty ip then false else elim (net.pton ip) [ none ↦ false | some a ↦ true ]

-- The globals that `cmd_connect` reads.
pub record Config : Type 0 where
  pub local_ip : Text
  pub listen_port : ℕ

abbrev pub localhost : Text
localhost = b'1' ∷ b'2' ∷ b'7' ∷ b'.' ∷ b'0' ∷ b'.' ∷ b'0' ∷ b'.' ∷ b'1' ∷ []

-- What `socket`, `connect`, `malloc` and `pthread_create` return to `cmd_connect`.
pub record Dial : Type 0 where
  pub socket : Option ℕ
  pub reached : Bool
  pub fresh : Ptr
  pub thread : Option ℕ

-- From the second `inet_pton` on, with a socket.
unfoldable pub connect_socket :
    ℕ → Net → Dial → List Outside → (sock : ℕ) → Text → ℕ → Cmd (Unit {0})
connect_socket fuel net d os sock ip port = elim (net.pton ip) [
  | none ↦ (do tell (printed pton_failed); tell (closed sock))
  | some a ↦
      if not d.reached
      then (do tell (printed connect_failed); tell (closed sock))
      else (do others fuel os; admit fuel connected sock (net.ntop a) port d.fresh d.thread)
]

abbrev pub try_socket : ℕ → Net → Dial → List Outside → Text → ℕ → Option ℕ → Cmd (Unit {0})
try_socket fuel net d os ip port none = tell (printed socket_failed)
try_socket fuel net d os ip port (some sock) = connect_socket fuel net d os sock ip port

-- From the search for a duplicate on, with a valid address and port.
unfoldable pub connect_to : ℕ → Net → Dial → List Outside → Text → ℕ → Cmd (Unit {0})
connect_to fuel net d os ip port = do
  head ← get_head
  r ← find_loop fuel (λ c. c.active && c.port == port && same_text c.ip ip) null head
  if r.1 == null
      then try_socket fuel net d os ip port d.socket
      else (do n ← load r.1; tell (printed (duplicate ip port n.conn.id)))

-- `*endp != '\0' || port_l <= 0 || port_l > 65535`, and the test for an empty text.
abbrev pub bad_port : Text → Bool
bad_port portstr =
    let r = strtol portstr in
    is_empty portstr || not (is_empty r.rest) || r.negative || r.value == 0 || ltb 65535 r.value

unfoldable pub cmd_connect :
    ℕ → Net → Config → Dial → List Outside → (ip portstr : Text) → Cmd (Unit {0})
cmd_connect fuel net cfg d os ip portstr =
    if not (is_valid_ipv4 net ip)
    then tell (printed invalid_ip)
    else if bad_port portstr
    then tell (printed invalid_port)
    else (let port = (strtol portstr).value in
        if (same_text ip cfg.local_ip || same_text ip localhost) && port == cfg.listen_port
        then tell (printed self_connect)
        else connect_to fuel net d os ip port)

-- The loop of `cmd_list`.
unfoldable pub list_loop : ℕ → Ptr → Cmd (Unit {0})
list_loop zero cur = λ _. out_of_fuel
list_loop (suc k) cur = if cur == null then pure tt else do
  n ← load cur
  (if n.conn.active then tell (printed (row n.conn.id n.conn.ip n.conn.port)) else pure tt)
  list_loop k n.next

unfoldable pub cmd_list : (rounds fuel : ℕ) → Waits → Cmd (Unit {0})
cmd_list rounds fuel ws = do head ← get_head; list_loop fuel head; reap_connections rounds fuel ws

-- From the message to the peer on, with the node found. The thread is taken to end during the join:
-- `os` is what is done until then.
unfoldable pub terminate_node : ℕ → List Outside → (id : ℕ) → Ptr → Cmd (Unit {0})
terminate_node fuel os id cur = do
  n ← load cur
  tell (send_disconnect n.conn.sockfd)
  tell (shut n.conn.sockfd)
  tell (closed n.conn.sockfd)
  update cur (λ c. record c { active = false })
  tell (joined n.conn.thread)
  others fuel os
  head ← get_head
  r ← scan_loop fuel cur null head
  if r.1 == cur then (do remove_node_locked r.0 r.1; tell (printed (terminated id))) else pure tt

unfoldable pub cmd_terminate : ℕ → List Outside → (id : ℕ) → Cmd (Unit {0})
cmd_terminate fuel os id = do
  head ← get_head
  r ← find_loop fuel (λ c. c.id == id) null head
  if r.1 == null then tell (printed (not_found id)) else terminate_node fuel os id r.1

-- `ok` says whether `send` succeeds.
unfoldable pub cmd_send : ℕ → (ok : Bool) → (id : ℕ) → (msg : Text) → Cmd (Unit {0})
cmd_send fuel ok id msg = if ltb max_msg_len (length msg) then tell (printed too_long) else do
  head ← get_head
  r ← find_loop fuel (λ c. c.id == id && c.active) null head
  if r.1 == null then tell (printed (not_active id)) else (do
    n ← load r.1
    tell (sent n.conn.sockfd msg)
    if ok then tell (printed (sent_to id n.conn.ip n.conn.port)) else tell (printed send_failed))

-- The first loop of `cmd_exit`: every active connection is closed.
unfoldable pub exit_close_loop : ℕ → Ptr → Cmd (Unit {0})
exit_close_loop zero cur = λ _. out_of_fuel
exit_close_loop (suc k) cur = if cur == null then pure tt else do
  n ← load cur
  (if n.conn.active
      then (do
        tell (send_disconnect n.conn.sockfd)
        tell (shut n.conn.sockfd)
        tell (closed n.conn.sockfd)
        update cur (λ c. record c { active = false }))
      else pure tt)
  exit_close_loop k n.next

-- The second: every thread is joined and every node freed, where each thread has ended by then;
-- Chat.Joins has the joins that wait.
unfoldable pub exit_free_loop : ℕ → Ptr → Cmd (Unit {0})
exit_free_loop zero cur = λ _. out_of_fuel
exit_free_loop (suc k) cur =
    if cur == null
    then pure tt
    else do n ← load cur; tell (joined n.conn.thread); free cur; exit_free_loop k n.next

abbrev pub close_server : Option ℕ → Cmd (Unit {0})
close_server none = pure tt
close_server (some fd) = tell (closed fd)

-- The new value of `running` is returned. `server` is `server_sock` unless that is negative.
unfoldable pub cmd_exit : ℕ → (server : Option ℕ) → (listener : ℕ) → List Outside → Cmd Bool
cmd_exit fuel server listener os = do
  tell (printed leaving)
  close_server server
  head ← get_head
  exit_close_loop fuel head
  tell (joined listener)
  others fuel os
  head ← get_head
  exit_free_loop fuel head
  set_head null
  pure false
