-- ===== src/Restaurant/Ending.antt =====
-- How app/main.c ends.
use linux_exercises.Base.{
  ℕ, ◌-◌, ◌≡◌, refl, Bool, true, false, List, [], ◌∷◌, ◌++◌, if◌then◌else◌, leb, ltb, length, ap,
  sym, subst, map, ◌⊎◌, inl, inr,
}
use linux_exercises.Restaurant.Shared.{SharedData, print_tray_status}
use linux_exercises.Restaurant.Main.{
  Pid, Event, made_child, called_kill, called_waitpid, status, simulation_finished, removed_memory,
  Stage, starting, live, leaving, ended, killed, killing, waiting, removing, Main, begin,
  cleanup_all, handle_sigint, interrupt, Input, handler_set, goes_on, ctrl_c, fork_returns, wakes,
  num_children, live_step, main_step, main_run,
}
use linux_exercises.Restaurant.Cleanup.{
  children_in, Cleaned, Interrupted, Under, StageOk, MainOk, called, interrupted, at_first,
}

if-MainOk : (b : Bool) (m k : Main) → MainOk m → MainOk k → MainOk (if b then m else k)
if-MainOk true m k o p = o
if-MainOk false m k o p = p

stays : (m : Main) (s : Stage) → m.stage ≡ s → StageOk s m.children m.log → MainOk m
stays m s e h = subst (λ x. StageOk x m.children m.log) (sym e) h

handle_sigint-MainOk :
    (m : Main) (left : List Event) → Cleaned m.children m.log left → MainOk (handle_sigint m)
unfolding handle_sigint
handle_sigint-MainOk m left c = interrupted m.children m.log left c

interrupt-MainOk :
    (h : Bool) (m : Main) (s : Stage) (left : List Event)
    → m.stage ≡ s
    → StageOk s m.children m.log
    → Under h m.children m.log left
    → MainOk (interrupt h m)
interrupt-MainOk true m s left e o u = stays m s e o
interrupt-MainOk false m s left e o u = handle_sigint-MainOk m left u

live_step-MainOk :
    (start : ℕ) (i : Input) (m : Main)
    → m.stage ≡ live
    → StageOk live m.children m.log
    → MainOk (live_step start i m)
unfolding live_step children_in
live_step-MainOk start ctrl_c m e h = handle_sigint-MainOk m _ (at_first m.children m.log h.0 h.1)
live_step-MainOk start (fork_returns p) m e h =
    if-MainOk (leb num_children (length m.children)) m _ (stays m live e h) (
      stays (record m { children = m.children ++ p ∷ []; log = made_child p ∷ m.log }) live e
        (h.0, ap (λ l. l ++ p ∷ []) h.1))
live_step-MainOk start (wakes now seen) m e h =
    let l = status (print_tray_status seen) ∷ m.log in
    if-MainOk (ltb (length m.children) num_children) m _ (stays m live e h) (
      if-MainOk (leb 60 (now - start))
        (record m { stage = killing false m.children; log = simulation_finished ∷ l })
        (record m { log = l }) (at_first m.children (simulation_finished ∷ l) h.0 h.1)
        (stays (record m { log = l }) live e h))
live_step-MainOk start handler_set m e h = stays m live e h
live_step-MainOk start goes_on m e h = stays m live e h

-- The next call of a cleanup.
cleanup_all-MainOk :
    (s : Stage) (m : Main) → m.stage ≡ s → StageOk s m.children m.log → MainOk (cleanup_all s m)
unfolding cleanup_all
cleanup_all-MainOk (killing h (p ∷ ps)) m e o = called m.children m.log h (called_kill p) _ o
cleanup_all-MainOk (killing h []) m e o = o
cleanup_all-MainOk (waiting h (p ∷ ps)) m e o = called m.children m.log h (called_waitpid p) _ o
cleanup_all-MainOk (waiting h []) m e o = o
cleanup_all-MainOk (removing false) m e o = called m.children m.log false removed_memory [] o
cleanup_all-MainOk (removing true) m e o = inr (called m.children m.log true removed_memory [] o)
cleanup_all-MainOk starting m e o = stays m starting e o
cleanup_all-MainOk live m e o = stays m live e o
cleanup_all-MainOk leaving m e o = stays m leaving e o
cleanup_all-MainOk ended m e o = stays m ended e o
cleanup_all-MainOk killed m e o = stays m killed e o

main_step-MainOk :
    (start : ℕ) (s : Stage) (i : Input) (m : Main)
    → m.stage ≡ s
    → StageOk s m.children m.log
    → MainOk (main_step start s i m)
unfolding main_step children_in
main_step-MainOk start starting handler_set m e (z, o) =
    subst (λ l. StageOk live m.children l) (sym o) (tt, sym z)
main_step-MainOk start starting ctrl_c m e o = o
main_step-MainOk start starting goes_on m e o = stays m starting e o
main_step-MainOk start starting (fork_returns p) m e o = stays m starting e o
main_step-MainOk start starting (wakes n d) m e o = stays m starting e o
main_step-MainOk start live i m e o = live_step-MainOk start i m e o
main_step-MainOk start (killing h ps) goes_on m e o = cleanup_all-MainOk (killing h ps) m e o
main_step-MainOk start (killing h ps) ctrl_c m e o = interrupt-MainOk h m (killing h ps) _ e o o
main_step-MainOk start (killing h ps) handler_set m e o = stays m (killing h ps) e o
main_step-MainOk start (killing h ps) (fork_returns p) m e o = stays m (killing h ps) e o
main_step-MainOk start (killing h ps) (wakes n d) m e o = stays m (killing h ps) e o
main_step-MainOk start (waiting h ps) goes_on m e o = cleanup_all-MainOk (waiting h ps) m e o
main_step-MainOk start (waiting h ps) ctrl_c m e o = interrupt-MainOk h m (waiting h ps) _ e o o
main_step-MainOk start (waiting h ps) handler_set m e o = stays m (waiting h ps) e o
main_step-MainOk start (waiting h ps) (fork_returns p) m e o = stays m (waiting h ps) e o
main_step-MainOk start (waiting h ps) (wakes n d) m e o = stays m (waiting h ps) e o
main_step-MainOk start (removing h) goes_on m e o = cleanup_all-MainOk (removing h) m e o
main_step-MainOk start (removing h) ctrl_c m e o = interrupt-MainOk h m (removing h) _ e o o
main_step-MainOk start (removing h) handler_set m e o = stays m (removing h) e o
main_step-MainOk start (removing h) (fork_returns p) m e o = stays m (removing h) e o
main_step-MainOk start (removing h) (wakes n d) m e o = stays m (removing h) e o
main_step-MainOk start leaving goes_on m e o = inl o
main_step-MainOk start leaving ctrl_c m e o = handle_sigint-MainOk m [] o
main_step-MainOk start leaving handler_set m e o = stays m leaving e o
main_step-MainOk start leaving (fork_returns p) m e o = stays m leaving e o
main_step-MainOk start leaving (wakes n d) m e o = stays m leaving e o
main_step-MainOk start ended handler_set m e o = stays m ended e o
main_step-MainOk start ended goes_on m e o = stays m ended e o
main_step-MainOk start ended ctrl_c m e o = stays m ended e o
main_step-MainOk start ended (fork_returns p) m e o = stays m ended e o
main_step-MainOk start ended (wakes n d) m e o = stays m ended e o
main_step-MainOk start killed handler_set m e o = stays m killed e o
main_step-MainOk start killed goes_on m e o = stays m killed e o
main_step-MainOk start killed ctrl_c m e o = stays m killed e o
main_step-MainOk start killed (fork_returns p) m e o = stays m killed e o
main_step-MainOk start killed (wakes n d) m e o = stays m killed e o

main_run-MainOk : (start : ℕ) (is : List Input) (m : Main) → MainOk m → MainOk (main_run start is m)
unfolding main_run
main_run-MainOk start [] m o = o
main_run-MainOk start (i ∷ is) m o =
    main_run-MainOk start is (main_step start m.stage i m)
      (main_step-MainOk start m.stage i m refl o)

-- Whatever the results of fork, the times and the moments of Ctrl+C, but with none between a fork
-- and the store of its result: once main has ended after it has set its handler, it has called
-- kill for each child that it has forked, in their order, then waitpid for each, and then removed
-- the memory. Before that it has made no such call; or a Ctrl+C has cut off the cleanup that main
-- had begun when its minute was over, after any number of these calls, in the same order, and the
-- handler has made all of them from the beginning.
pub main_run-Ended :
    (start : ℕ) (is : List Input)
    → (main_run start is begin).stage ≡ ended
    → Cleaned (main_run start is begin).children (main_run start is begin).log []
      ⊎ Interrupted (main_run start is begin).children (main_run start is begin).log []
main_run-Ended start is e =
    let m = main_run start is begin in
    subst (λ s. StageOk s m.children m.log) e (main_run-MainOk start is begin (refl, refl))

-- What `main` is given until it sleeps, and the times and the memory that it sees as it wakes.
abbrev pub forks : (a b c d e : Pid) → List Input
forks a b c d e =
    handler_set
    ∷ fork_returns a
    ∷ fork_returns b
    ∷ fork_returns c
    ∷ fork_returns d
    ∷ fork_returns e
    ∷ []

abbrev pub sleeps : List (ℕ × (ℕ → SharedData)) → List Input
sleeps ws = map (λ (w : ℕ × (ℕ → SharedData)). wakes w.0 w.1) ws
