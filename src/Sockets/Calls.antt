-- ===== src/Sockets/Calls.antt =====
-- Calls that succeed.
use linux_exercises.Base.{ℕ, ◌≡◌, ◌<◌, arith, List, some, length}
use linux_exercises.Strings.{c_string}
use linux_exercises.Io.{Event, Setup, done, got, receive}

-- The calls all succeed, and the socket is `g`.
abbrev pub works : (g a : ℕ) → Setup
works g a = record {
  socket = some g;
  pton = some a;
  bind = some tt;
  listen = some tt;
  connect = some tt;
}

pub receive-got :
    (size : ℕ) (b : List ℕ) (log : List Event)
    → length b < size
    → receive size (got b) log ≡ done (some (length b, c_string b)) log
unfolding receive
receive-got size b log h = ground arith
