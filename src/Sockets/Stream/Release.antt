-- ===== src/Sockets/Stream/Release.antt =====
-- The descriptors that unix_socket_server_stream.c and unix_socket_client_stream.c close.
use linux_exercises.Base.{ℕ, ◌+◌, ◌≡◌, refl, List, [], ◌∷◌, some}
use linux_exercises.Strings.{Text}
use linux_exercises.Io.{Event, listen_call, bind_call, connect_call, Setup, Read}
use linux_exercises.Sockets.Handles.{
  unit, balance, Leaves, and_then-Leaves, acquire-some, use_handle-some, release-some,
  opened_or_die-Leaves, or_close-Leaves, receive-Leaves, on_message-Leaves,
}
use linux_exercises.Sockets.Stream.{
  accept_client, init_server_socket, serve, stream_server, init_client_socket, client_loop,
  stream_client, buffer_size,
}

module _ (fd : ℕ) where
  init_server_socket-Leaves :
      (r : Setup) (path : Text) (log : List Event)
      → balance fd log ≡ some 0
      → Leaves fd (λ g. unit fd g + 0) (init_server_socket r path log)
  unfolding init_server_socket
  init_server_socket-Leaves r path log h =
      and_then-Leaves fd _ _ _ (opened_or_die-Leaves fd r.socket log h) λ g log h.
        and_then-Leaves fd _ _ _ (or_close-Leaves fd r.bind bind_call g _ h) λ _ log h.
          and_then-Leaves fd _ _ _
            (or_close-Leaves fd r.listen listen_call g _ (use_handle-some (unit fd g) 0 h))
            λ _ log h. use_handle-some (unit fd g) 0 h

  serve-Leaves :
      (g n : ℕ) (rs : List Read) (log : List Event)
      → balance fd log ≡ some (unit fd g + n)
      → Leaves fd (λ _. unit fd g + n) (serve g rs log)
  unfolding serve
  serve-Leaves g n [] log h = tt
  serve-Leaves g n (r ∷ rs) log h =
      and_then-Leaves fd _ _ _ (receive-Leaves fd (unit fd g + n) buffer_size r log h) λ m log h.
        on_message-Leaves fd _ m _ _ _ log h h
          λ t. serve-Leaves g n rs _ (use_handle-some (unit fd g) n h)

  stream_server-Leaves :
      (path : Text) (r : Setup) (client : ℕ) (rs : List Read)
      → Leaves fd (λ _. 0) (stream_server path r (some client) rs [])
  unfolding stream_server accept_client
  stream_server-Leaves path r client rs =
      and_then-Leaves fd _ _ _ (init_server_socket-Leaves r path [] refl) λ g log h.
        and_then-Leaves fd _ _ _
          (serve-Leaves client (unit fd g + 0) rs _ (acquire-some (unit fd client) _ h))
          λ _ log h. release-some (unit fd g) 0 (release-some (unit fd client) (unit fd g + 0) h)

  init_client_socket-Leaves :
      (r : Setup) (path : Text) (log : List Event)
      → balance fd log ≡ some 0
      → Leaves fd (λ g. unit fd g + 0) (init_client_socket r path log)
  unfolding init_client_socket
  init_client_socket-Leaves r path log h =
      and_then-Leaves fd _ _ _ (opened_or_die-Leaves fd r.socket log h) λ g log h.
        and_then-Leaves fd _ _ _ (or_close-Leaves fd r.connect connect_call g _ h)
          λ _ log h. use_handle-some (unit fd g) 0 h

  client_loop-Leaves :
      (g n : ℕ) (rs : List (Text × Read)) (log : List Event)
      → balance fd log ≡ some (unit fd g + n)
      → Leaves fd (λ _. unit fd g + n) (client_loop g rs log)
  unfolding client_loop
  client_loop-Leaves g n [] log h = h
  client_loop-Leaves g n ((line, r) ∷ rs) log h =
      and_then-Leaves fd _ _ _
        (receive-Leaves fd (unit fd g + n) buffer_size r _ (use_handle-some (unit fd g) n h))
        λ m log h. on_message-Leaves fd _ m _ _ _ log h h λ t. client_loop-Leaves g n rs _ h

  stream_client-Leaves :
      (path : Text) (r : Setup) (rs : List (Text × Read))
      → Leaves fd (λ _. 0) (stream_client path r rs [])
  unfolding stream_client
  stream_client-Leaves path r rs =
      and_then-Leaves fd _ _ _ (init_client_socket-Leaves r path [] refl) λ g log h.
        and_then-Leaves fd _ _ _ (client_loop-Leaves g 0 rs _ h)
          λ _ log h. release-some (unit fd g) 0 h

  -- If accept succeeds, unix_socket_server_stream.c, and unix_socket_client_stream.c in any case,
  -- on every run that returns or exits with failure, have closed each descriptor as often as they
  -- opened it, and never used or closed one that was not open.
  stream-Leaves :
      (path : Text) (r : Setup) (client : ℕ) (rs : List Read) (lines : List (Text × Read))
      → Leaves fd (λ _. 0) (stream_server path r (some client) rs [])
        × Leaves fd (λ _. 0) (stream_client path r lines [])
  stream-Leaves path r client rs lines =
      (stream_server-Leaves path r client rs, stream_client-Leaves path r lines)
