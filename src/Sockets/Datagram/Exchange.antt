-- ===== src/Sockets/Datagram/Exchange.antt =====
-- What unix_socket_server_dgram.c and unix_socket_client_dgram.c say to each other.
use linux_exercises.Base.{
  subst, ℕ, zero, suc, ◌+◌, ◌-◌, ◌≡◌, ◌<◌, ◌≤◌, ◌≢◌, ◌↔◌, ◌∙◌, ap, refl, arith, List, [], ◌∷◌, ◌++◌,
  some, length, length-append, take, take-le-length, length-take-le, true,
}
use linux_exercises.Strings.{
  Text, c_string, strncpy, NoNul, c_string-NoNul, NoNul-c_string, length-c_string-le,
  snprintf-whole, cut_newline,
}
use linux_exercises.Io.{
  Event, Read, done, waiting, got, pending, receive, sent, shown, closed, opened, bound, unlinked,
  unix, from_client, from_server, path_is, answer,
}
use linux_exercises.Sockets.Calls.{works, receive-got}
use linux_exercises.Sockets.Datagram.{
  init_socket, receive_message, send_response, Datagram, serve, dgram_client, sun_path_size,
  buffer_size,
}

-- What the client sends of a line.
abbrev pub sent_text : (line : Text) → Text
sent_text line = c_string (cut_newline line)

-- What a read of a datagram with this text gives.
abbrev pub arrives : Text → Read
arrives t = got (take (buffer_size - 1) t)

length-cut_newline-le : (t : Text) → length (cut_newline t) ≤ length t
unfolding cut_newline
length-cut_newline-le [] = omega arith
length-cut_newline-le (c ∷ t) = ground (arith, length-cut_newline-le t)

length-sent_text-le :
    (line : Text) → length line < buffer_size → length (sent_text line) < buffer_size
length-sent_text-le line h =
    omega (arith, length-c_string-le (cut_newline line), length-cut_newline-le line, h)

take-NoNul : (n : ℕ) (t : Text) → NoNul t → NoNul (take n t)
take-NoNul zero t h = tt
take-NoNul (suc n) [] h = tt
take-NoNul (suc n) (c ∷ t) h = (h.0, take-NoNul n t h.1)

receive-arrives :
    (t : Text) (log : List Event)
    → NoNul t
    → receive buffer_size (arrives t) log
      ≡ done (some (length (take (buffer_size - 1) t), take (buffer_size - 1) t)) log
receive-arrives t log h =
    receive-got buffer_size (take (buffer_size - 1) t) log
      (omega (arith, length-take-le (buffer_size - 1) t))
    ∙ ap (λ u. done (some (length (take (buffer_size - 1) t), u)) log)
        (c_string-NoNul (take (buffer_size - 1) t) (take-NoNul (buffer_size - 1) t h))

dgram_server-answer :
    (fd : ℕ) (t path : Text) (ds : List Datagram) (log : List Event)
    → NoNul t
    → t ≢ []
    → path ≢ []
    → length t < buffer_size
    → serve fd (record { read = arrives t; path = path; ok = true } ∷ ds) log
      ≡ serve fd ds (sent fd (answer ++ t) ∷ shown (path_is path) ∷ shown (from_client t) ∷ log)
unfolding serve receive_message send_response
dgram_server-answer fd [] path ds log n e p h = absurd (e refl)
dgram_server-answer fd (c ∷ t) [] ds log n e p h = absurd (p refl)
dgram_server-answer fd (c ∷ t) (d ∷ path) ds log n e p h =
    rw
      (
        receive-arrives (c ∷ t) log n,
        take-le-length (buffer_size - 1) (c ∷ t) (omega (arith, h)),
        snprintf-whole (buffer_size + 32) answer (c ∷ t) (omega (arith, h)),
      )
      refl

NoNul-answer : (t : Text) → NoNul t → NoNul (answer ++ t)
NoNul-answer t h =
    subst NoNul (ap (λ u. answer ++ u) (c_string-NoNul t h)) (NoNul-c_string (answer ++ t))

whole_iff : (t : Text) → (take (buffer_size - 1) (answer ++ t) ≡ answer ++ t) ↔ (length t ≤ 238)
whole_iff t = (
  (λ e.
      omega (
        arith,
        ap length e,
        length-take-le (buffer_size - 1) (answer ++ t),
        length-append answer t,
      )),
  λ h. take-le-length (buffer_size - 1) (answer ++ t) (omega (arith, length-append answer t, h)),
)

dgram_client-shows :
    (fd a : ℕ) (path line : Text)
    → dgram_client path (works fd a) (some line) true (arrives (answer ++ sent_text line)) []
      ≡ done tt (
          unlinked path
          ∷ closed fd
          ∷ shown (from_server (take (buffer_size - 1) (answer ++ sent_text line)))
          ∷ sent fd (sent_text line)
          ∷ bound fd (unix (strncpy (sun_path_size - 1) path))
          ∷ unlinked path
          ∷ opened fd
          ∷ [])
unfolding dgram_client init_socket send_response
dgram_client-shows fd a path line =
    rw
      (receive-arrives (answer ++ sent_text line)
        (sent fd (sent_text line)
          ∷ bound fd (unix (strncpy (sun_path_size - 1) path))
          ∷ unlinked path
          ∷ opened fd
          ∷ [])
        (NoNul-answer (sent_text line) (NoNul-c_string (cut_newline line))))
      refl

-- For a line of at most 255 bytes that is not empty up to its newline, and a client with a path:
-- unix_socket_server_dgram.c prints the line and the path and sends `Server received: ` with the
-- line, whole; unix_socket_client_dgram.c sends the line without its newline, prints the first
-- 255 bytes of that answer, closes its socket, and unlinks its path; these bytes are the whole
-- answer exactly if the line has at most 238.
pub dgram-exchange :
    (fd a s : ℕ) (path line : Text)
    → path ≢ []
    → sent_text line ≢ []
    → length line < buffer_size
    → (serve s (record { read = arrives (sent_text line); path = path; ok = true } ∷ []) []
        ≡ waiting (
            sent s (answer ++ sent_text line)
            ∷ shown (path_is path)
            ∷ shown (from_client (sent_text line))
            ∷ []))
      × (dgram_client path (works fd a) (some line) true (arrives (answer ++ sent_text line)) []
          ≡ done tt (
              unlinked path
              ∷ closed fd
              ∷ shown (from_server (take (buffer_size - 1) (answer ++ sent_text line)))
              ∷ sent fd (sent_text line)
              ∷ bound fd (unix (strncpy (sun_path_size - 1) path))
              ∷ unlinked path
              ∷ opened fd
              ∷ []))
      × ((take (buffer_size - 1) (answer ++ sent_text line) ≡ answer ++ sent_text line)
          ↔ (length (sent_text line) ≤ 238))
unfolding serve
dgram-exchange fd a s path line p e h = (
  dgram_server-answer s (sent_text line) path [] [] (NoNul-c_string (cut_newline line)) e p
      (length-sent_text-le line h),
  dgram_client-shows fd a path line,
  whole_iff (sent_text line),
)

-- For a line that is empty up to its newline, unix_socket_client_dgram.c sends an empty datagram,
-- unix_socket_server_dgram.c does nothing about it, and the client that gets no answer waits.
dgram-empty_line :
    (fd a s : ℕ) (path line : Text)
    → sent_text line ≡ []
    → (serve s (record { read = arrives (sent_text line); path = path; ok = true } ∷ []) []
        ≡ waiting [])
      × (dgram_client path (works fd a) (some line) true pending []
          ≡ waiting (
              sent fd []
              ∷ bound fd (unix (strncpy (sun_path_size - 1) path))
              ∷ unlinked path
              ∷ opened fd
              ∷ []))
unfolding serve receive_message receive dgram_client init_socket send_response
dgram-empty_line fd a s path line e = (rw e refl, rw e refl)
