-- ===== src/Sockets/Tcp/Release.antt =====
-- The descriptors that tcp_server.c and tcp_client.c close.
use linux_exercises.Base.{ℕ, ◌+◌, ◌≡◌, refl, List, [], ◌∷◌, Option, none, some}
use linux_exercises.Strings.{Text}
use linux_exercises.Io.{Event, pton_call, listen_call, bind_call, connect_call, Setup, Read}
use linux_exercises.Sockets.Handles.{
  unit, balance, Leaves, and_then-Leaves, acquire-some, use_handle-some, release-some,
  opened_or_die-Leaves, or_close-Leaves, receive-Leaves, on_message-Leaves,
}
use linux_exercises.Sockets.Tcp.{
  Client, accept_client, create_server_socket, handle_client, tcp_server, connect_to_server,
  client_loop, tcp_client, buffer_size,
}

module _ (fd : ℕ) where
  create_server_socket-Leaves :
      (r : Setup) (log : List Event)
      → balance fd log ≡ some 0
      → Leaves fd (λ g. unit fd g + 0) (create_server_socket r log)
  unfolding create_server_socket
  create_server_socket-Leaves r log h =
      and_then-Leaves fd _ _ _ (opened_or_die-Leaves fd r.socket log h) λ g log h.
        and_then-Leaves fd _ _ _ (or_close-Leaves fd r.pton pton_call g log h) λ a log h.
          and_then-Leaves fd _ _ _ (or_close-Leaves fd r.bind bind_call g log h) λ _ log h.
            and_then-Leaves fd _ _ _
              (or_close-Leaves fd r.listen listen_call g _ (use_handle-some (unit fd g) 0 h))
              λ _ log h. use_handle-some (unit fd g) 0 h

  handle_client-Leaves :
      (g n : ℕ) (rs : List Read) (log : List Event)
      → balance fd log ≡ some (unit fd g + n)
      → Leaves fd (λ _. n) (handle_client g rs log)
  unfolding handle_client
  handle_client-Leaves g n [] log h = tt
  handle_client-Leaves g n (r ∷ rs) log h =
      and_then-Leaves fd _ _ _ (receive-Leaves fd (unit fd g + n) buffer_size r log h) λ m log h.
        on_message-Leaves fd _ m _ _ _ log (release-some (unit fd g) n h)
          (release-some (unit fd g) n h)
          λ t. handle_client-Leaves g n rs _ (use_handle-some (unit fd g) n h)

  tcp_server-Leaves :
      (r : Setup) (client : Option Client) (rs : List Read)
      → Leaves fd (λ _. 0) (tcp_server r client rs [])
  unfolding tcp_server accept_client
  tcp_server-Leaves r none rs =
      and_then-Leaves fd _ _ _ (create_server_socket-Leaves r [] refl)
        λ g log h. release-some (unit fd g) 0 h
  tcp_server-Leaves r (some c) rs =
      and_then-Leaves fd _ _ _ (create_server_socket-Leaves r [] refl) λ g log h.
        and_then-Leaves fd _ _ _
          (handle_client-Leaves c.fd (unit fd g + 0) rs _ (acquire-some (unit fd c.fd) _ h))
          λ _ log h. release-some (unit fd g) 0 h

  connect_to_server-Leaves :
      (r : Setup) (log : List Event)
      → balance fd log ≡ some 0
      → Leaves fd (λ g. unit fd g + 0) (connect_to_server r log)
  unfolding connect_to_server
  connect_to_server-Leaves r log h =
      and_then-Leaves fd _ _ _ (opened_or_die-Leaves fd r.socket log h) λ g log h.
        and_then-Leaves fd _ _ _ (or_close-Leaves fd r.pton pton_call g log h) λ a log h.
          and_then-Leaves fd _ _ _ (or_close-Leaves fd r.connect connect_call g log h)
            λ _ log h. use_handle-some (unit fd g) 0 h

  client_loop-Leaves :
      (g n : ℕ) (rs : List (Text × Read)) (log : List Event)
      → balance fd log ≡ some (unit fd g + n)
      → Leaves fd (λ _. unit fd g + n) (client_loop g rs log)
  unfolding client_loop
  client_loop-Leaves g n [] log h = h
  client_loop-Leaves g n ((line, r) ∷ rs) log h =
      and_then-Leaves fd _ _ _
        (receive-Leaves fd (unit fd g + n) buffer_size r _ (use_handle-some (unit fd g) n h))
        λ m log h. on_message-Leaves fd _ m _ _ _ log h h λ t. client_loop-Leaves g n rs _ h

  tcp_client-Leaves :
      (r : Setup) (rs : List (Text × Read)) → Leaves fd (λ _. 0) (tcp_client r rs [])
  unfolding tcp_client
  tcp_client-Leaves r rs = and_then-Leaves fd _ _ _ (connect_to_server-Leaves r [] refl) λ g log h.
      and_then-Leaves fd _ _ _ (client_loop-Leaves g 0 rs _ h)
        λ _ log h. release-some (unit fd g) 0 h

  -- Whatever the results of the calls, tcp_server.c and tcp_client.c, on every run that returns
  -- or exits with failure, have closed each descriptor as often as they opened it, and never
  -- bound, listened on, connected, sent on or closed one that was not open.
  pub tcp-Leaves :
      (r : Setup) (client : Option Client) (rs : List Read) (lines : List (Text × Read))
      → Leaves fd (λ _. 0) (tcp_server r client rs []) × Leaves fd (λ _. 0) (tcp_client r lines [])
  tcp-Leaves r client rs lines = (tcp_server-Leaves r client rs, tcp_client-Leaves r lines)
