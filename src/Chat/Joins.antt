-- ===== src/Chat/Joins.antt =====
-- The last part of `cmd_exit`, which joins the receiving threads while it holds `conn_mutex`, beside
-- the end of `conn_recv_thread`, which takes `conn_mutex`.
use linux_exercises.Base.{
  ℕ, zero, suc, ◌≡◌, ◌↔◌, refl, Bool, true, false, Option, none, some, List, [], ◌∷◌, length,
  replicate, sym, ◌∙◌, ap, false≢true,
}

-- Where a receiving thread is: before the end of its loop, at `pthread_mutex_lock`, or over. Its hold
-- of the lock is one step.
pub data Recv : Type 0 where
  reading at_lock ended : Recv

unfoldable pub recv_step : (held : Bool) → Recv → Option Recv
recv_step held reading = some at_lock
recv_step true at_lock = none
recv_step false at_lock = some ended
recv_step held ended = none

abbrev pub in_front : Recv → Option (List Recv) → Option (List Recv)
in_front r none = none
in_front r (some qs) = some (r ∷ qs)

abbrev pub as_first : List Recv → Option Recv → Option (List Recv)
as_first rs none = none
as_first rs (some q) = some (q ∷ rs)

-- The thread in the given place of the list.
unfoldable pub recv_turn : (held : Bool) → ℕ → List Recv → Option (List Recv)
unfolding recv_step
recv_turn held i [] = none
recv_turn held zero (r ∷ rs) = as_first rs (recv_step held r)
recv_turn held (suc i) (r ∷ rs) = in_front r (recv_turn held i rs)

pub data Who : Type 0 where
  main_thread : Who
  receiver : (place : ℕ) → Who

-- The threads that main has not yet joined; it holds `conn_mutex` until there are none.
unfoldable pub join_turn : Who → List Recv → Option (List Recv)
join_turn main_thread (ended ∷ rs) = some rs
join_turn main_thread _ = none
join_turn (receiver i) [] = none
join_turn (receiver i) (r ∷ rs) = recv_turn true i (r ∷ rs)

abbrev pub or_stay : List Recv → Option (List Recv) → List Recv
or_stay rs none = rs
or_stay rs (some qs) = qs

-- A schedule, in which a thread that cannot go on is passed over.
unfoldable pub join_run : List Who → List Recv → List Recv
join_run [] rs = rs
join_run (w ∷ ws) rs = join_run ws (or_stay rs (join_turn w rs))

abbrev pub all_ended : List Recv → Bool
all_ended [] = true
all_ended (ended ∷ rs) = all_ended rs
all_ended (_ ∷ rs) = false

or_stay-in_front :
    (r : Recv) (rs : List Recv) (o : Option (List Recv))
    → or_stay (r ∷ rs) (in_front r o) ≡ r ∷ or_stay rs o
or_stay-in_front r rs none = refl
or_stay-in_front r rs (some qs) = refl

all_ended-cons :
    (r : Recv) (qs rs : List Recv)
    → (all_ended qs ≡ true → all_ended rs ≡ true)
    → all_ended (r ∷ qs) ≡ true
    → all_ended (r ∷ rs) ≡ true
all_ended-cons reading qs rs f e = e
all_ended-cons at_lock qs rs f e = e
all_ended-cons ended qs rs f e = f e

recv_turn-ended :
    (i : ℕ) (rs : List Recv)
    → all_ended (or_stay rs (recv_turn true i rs)) ≡ true
    → all_ended rs ≡ true
unfolding recv_turn recv_step
recv_turn-ended i [] e = refl
recv_turn-ended zero (reading ∷ rs) e = e
recv_turn-ended zero (at_lock ∷ rs) e = e
recv_turn-ended zero (ended ∷ rs) e = e
recv_turn-ended (suc i) (r ∷ rs) e =
    all_ended-cons r (or_stay rs (recv_turn true i rs)) rs (recv_turn-ended i rs)
      (sym (ap all_ended (or_stay-in_front r rs (recv_turn true i rs))) ∙ e)

join_turn-ended :
    (w : Who) (rs : List Recv)
    → all_ended (or_stay rs (join_turn w rs)) ≡ true
    → all_ended rs ≡ true
unfolding join_turn
join_turn-ended main_thread [] e = refl
join_turn-ended main_thread (reading ∷ rs) e = e
join_turn-ended main_thread (at_lock ∷ rs) e = e
join_turn-ended main_thread (ended ∷ rs) e = e
join_turn-ended (receiver i) [] e = refl
join_turn-ended (receiver i) (r ∷ rs) e = recv_turn-ended i (r ∷ rs) e

join_run-ended :
    (ws : List Who) (rs : List Recv) → all_ended (join_run ws rs) ≡ true → all_ended rs ≡ true
unfolding join_run
join_run-ended [] rs e = e
join_run-ended (w ∷ ws) rs e =
    join_turn-ended w rs (join_run-ended ws (or_stay rs (join_turn w rs)) e)

join_run-main :
    (rs : List Recv) → all_ended rs ≡ true → join_run (replicate (length rs) main_thread) rs ≡ []
unfolding join_run join_turn
join_run-main [] e = refl
join_run-main (reading ∷ rs) e = absurd (false≢true e)
join_run-main (at_lock ∷ rs) e = absurd (false≢true e)
join_run-main (ended ∷ rs) e = join_run-main rs e

-- The last part of cmd_exit, which joins the receiving threads one after the other while it holds
-- conn_mutex, can come to its end, by some order of steps of main and of these threads, exactly
-- if each of them had ended, its own hold of conn_mutex included, before main took it; otherwise
-- main waits for ever.
pub joins_all_iff_ended :
    (rs : List Recv) → ((ws : List Who) × (join_run ws rs ≡ [])) ↔ (all_ended rs ≡ true)
joins_all_iff_ended rs = (
  (λ r. join_run-ended r.0 rs (ap all_ended r.1)),
  λ e. (replicate (length rs) main_thread, join_run-main rs e),
)
