-- ===== src/Sockets/Handles.antt =====
-- What the programs of ex1_4sockets hold open, read off their events.
use linux_exercises.Strings.{Text}
use linux_exercises.Base.{
  ℕ, zero, suc, ◌+◌, ◌-◌, ◌≡◌, ◌∙◌, ap, arith, List, [], ◌∷◌, Option, none, some, ◌==◌, leb,
  if◌then◌else◌,
}
use linux_exercises.Io.{
  Event, opened, closed, listening, bound, connected, sent, Run, done, failure, waiting, undefined,
  Io, Call, opened_or_die, or_close, Read, got, error, pending, receive, on_message, and_then,
}

-- One for the descriptor itself, and none for any other.
abbrev pub unit : (fd g : ℕ) → ℕ
unit fd g = if fd == g then 1 else 0

abbrev pub acquire : (u : ℕ) → Option ℕ → Option ℕ
acquire u none = none
acquire u (some n) = some (u + n)

abbrev pub use_handle : (u : ℕ) → Option ℕ → Option ℕ
use_handle u none = none
use_handle u (some n) = if leb u n then some n else none

abbrev pub release : (u : ℕ) → Option ℕ → Option ℕ
release u none = none
release u (some n) = if leb u n then some (n - u) else none

-- How often a descriptor is open, the latest event first; none if it was used or closed when it was
-- not open.
abbrev pub balance : (fd : ℕ) → List Event → Option ℕ
balance fd [] = some 0
balance fd (opened g ∷ log) = acquire (unit fd g) (balance fd log)
balance fd (closed g ∷ log) = release (unit fd g) (balance fd log)
balance fd (listening g ∷ log) = use_handle (unit fd g) (balance fd log)
balance fd (bound g a ∷ log) = use_handle (unit fd g) (balance fd log)
balance fd (connected g a ∷ log) = use_handle (unit fd g) (balance fd log)
balance fd (sent g t ∷ log) = use_handle (unit fd g) (balance fd log)
balance fd (_ ∷ log) = balance fd log

-- Once a run has returned, the descriptor is open as often as `f` says; once it has failed, not at
-- all.
abbrev pub Leaves : {A : Type 0} → (fd : ℕ) → (A → ℕ) → Run A → Type 0
Leaves fd f (done a log) = balance fd log ≡ some (f a)
Leaves fd f (failure log) = balance fd log ≡ some 0
Leaves fd f (waiting log) = Unit
Leaves fd f undefined = Unit

pub and_then-Leaves :
    {A B : Type 0} (fd : ℕ) {f : A → ℕ} (g : B → ℕ) (m : Run A) (k : A → Io B)
    → Leaves fd f m
    → ((a : A) (log : List Event) → balance fd log ≡ some (f a) → Leaves fd g (k a log))
    → Leaves fd g (and_then m k)
and_then-Leaves fd g (done a log) k h next = next a log h
and_then-Leaves fd g (failure log) k h next = h
and_then-Leaves fd g (waiting log) k h next = tt
and_then-Leaves fd g undefined k h next = tt

pub acquire-some : (u n : ℕ) {b : Option ℕ} → b ≡ some n → acquire u b ≡ some (u + n)
acquire-some u n h = ap (acquire u) h

pub use_handle-some : (u n : ℕ) {b : Option ℕ} → b ≡ some (u + n) → use_handle u b ≡ some (u + n)
use_handle-some u n h = ap (use_handle u) h ∙ ground arith

pub release-some : (u n : ℕ) {b : Option ℕ} → b ≡ some (u + n) → release u b ≡ some n
release-some u n h = ap (release u) h ∙ ground arith

pub opened_or_die-Leaves :
    (fd : ℕ) (o : Option ℕ) (log : List Event)
    → balance fd log ≡ some 0
    → Leaves fd (λ g. unit fd g + 0) (opened_or_die o log)
opened_or_die-Leaves fd none log h = h
opened_or_die-Leaves fd (some g) log h = acquire-some (unit fd g) 0 h

pub or_close-Leaves :
    {A : Type 0} (fd : ℕ) (o : Option A) (c : Call) (g : ℕ) (log : List Event)
    → balance fd log ≡ some (unit fd g + 0)
    → Leaves fd (λ _. unit fd g + 0) (or_close o c g log)
or_close-Leaves fd none c g log h = release-some (unit fd g) 0 h
or_close-Leaves fd (some a) c g log h = h

pub receive-Leaves :
    (fd n size : ℕ) (r : Read) (log : List Event)
    → balance fd log ≡ some n
    → Leaves fd (λ _. n) (receive size r log)
unfolding receive
receive-Leaves fd n size (got b) log h = ground arith
receive-Leaves fd n size error log h = h
receive-Leaves fd n size pending log h = tt

pub on_message-Leaves :
    {A : Type 0} (fd : ℕ) (f : A → ℕ) (m : Option (ℕ × Text)) (failed none_left : Io A)
    (next : Text → Io A) (log : List Event)
    → Leaves fd f (failed log)
    → Leaves fd f (none_left log)
    → ((t : Text) → Leaves fd f (next t log))
    → Leaves fd f (on_message m failed none_left next log)
on_message-Leaves fd f none failed none_left next log a b c = a
on_message-Leaves fd f (some (zero, t)) failed none_left next log a b c = b
on_message-Leaves fd f (some (suc n, t)) failed none_left next log a b c = c t
