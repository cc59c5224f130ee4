-- ===== src/Sockets/Datagram/Release.antt =====
-- The descriptors that unix_socket_client_dgram.c closes.
use linux_exercises.Base.{ℕ, ◌+◌, ◌≡◌, refl, List, [], Option, none, some, Bool, true, false}
use linux_exercises.Strings.{Text}
use linux_exercises.Io.{Event, bind_call, Setup, Read}
use linux_exercises.Sockets.Handles.{
  unit, balance, Leaves, and_then-Leaves, use_handle-some, release-some, opened_or_die-Leaves,
  or_close-Leaves, receive-Leaves,
}
use linux_exercises.Sockets.Datagram.{
  init_socket, send_response, send_line, show_response, dgram_client, buffer_size,
}

module _ (fd : ℕ) where
  init_socket-Leaves :
      (r : Setup) (path : Text) (log : List Event)
      → balance fd log ≡ some 0
      → Leaves fd (λ g. unit fd g + 0) (init_socket r path log)
  unfolding init_socket
  init_socket-Leaves r path log h =
      and_then-Leaves fd _ _ _ (opened_or_die-Leaves fd r.socket log h) λ g log h.
        and_then-Leaves fd _ _ _ (or_close-Leaves fd r.bind bind_call g _ h)
          λ _ log h. use_handle-some (unit fd g) 0 h

  send_line-Leaves :
      (g n : ℕ) (input : Option Text) (ok : Bool) (log : List Event)
      → balance fd log ≡ some (unit fd g + n)
      → Leaves fd (λ _. unit fd g + n) (send_line g input ok log)
  unfolding send_response
  send_line-Leaves g n none ok log h = tt
  send_line-Leaves g n (some line) true log h = use_handle-some (unit fd g) n h
  send_line-Leaves g n (some line) false log h = h

  show_response-Leaves :
      (n : ℕ) (m : Option (ℕ × Text)) (log : List Event)
      → balance fd log ≡ some n
      → Leaves fd (λ _. n) (show_response m log)
  show_response-Leaves n none log h = h
  show_response-Leaves n (some m) log h = h

  -- The client closes its socket on every run that returns or exits with failure.
  dgram_client-Leaves :
      (path : Text) (r : Setup) (input : Option Text) (ok : Bool) (m : Read)
      → Leaves fd (λ _. 0) (dgram_client path r input ok m [])
  unfolding dgram_client
  dgram_client-Leaves path r input ok m =
      and_then-Leaves fd _ _ _ (init_socket-Leaves r path [] refl) λ g log h.
        and_then-Leaves fd _ _ _ (send_line-Leaves g 0 input ok log h) λ _ log h.
          and_then-Leaves fd _ _ _ (receive-Leaves fd (unit fd g + 0) buffer_size m log h)
            λ m log h.
              and_then-Leaves fd _ _ _ (show_response-Leaves (unit fd g + 0) m log h)
                λ _ log h. release-some (unit fd g) 0 h
