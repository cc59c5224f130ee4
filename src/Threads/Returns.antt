-- ===== src/Threads/Returns.antt =====
-- What becomes of the texts of fun_thread_join.c.
use linux_exercises.Base.{
  Steps, CanStep, Steps-work, ℕ, ◌+◌, ◌≤◌, ◌≡◌, ◌⊎◌, inl, inr, refl, true, false, List, [], ◌∷◌,
  arith,
}
use linux_exercises.Threads.Results.{
  Worker, absent, printing, allocating, filling, over, freed, spoilt, Line, Main, creating1,
  creating2, joining1, joining2, showing1, showing2, freeing1, freeing2, returned, undefined,
  Program, worker_step, main_step, main_thread, thread1, thread2, turn, start,
}
use linux_exercises.Threads.Results.Invariant.{IsAround, Shown, StageOk, program, work, turn-Went}

abbrev ProgramOk : Program → Type 0
ProgramOk s = StageOk s.main s.first s.second s.log

Steps-ProgramOk :
    {n : ℕ} {s : Program} → Steps (turn true) start n s → ProgramOk s × (n + work s ≤ 14)
Steps-ProgramOk =
    Steps-work (turn true) ProgramOk work
      (λ t s u v e. let w = turn-Went t s.main s.first s.second s.log u v e in (w.ok, w.less))
      (refl, refl)

-- A thread that is waited for has a step, or main has.
join_can1 :
    (a b : Worker) (log : List Line) → IsAround a → CanStep (turn true) (program joining1 a b log)
unfolding turn worker_step main_step
join_can1 printing b log h = (thread1, _, refl)
join_can1 allocating b log h = (thread1, _, refl)
join_can1 (filling true) b log h = (thread1, _, refl)
join_can1 (filling false) b log h = absurd h
join_can1 over b log h = (main_thread, _, refl)
join_can1 absent b log h = absurd h
join_can1 freed b log h = absurd h
join_can1 spoilt b log h = absurd h

join_can2 :
    (a b : Worker) (log : List Line) → IsAround b → CanStep (turn true) (program joining2 a b log)
unfolding turn worker_step main_step
join_can2 a printing log h = (thread2, _, refl)
join_can2 a allocating log h = (thread2, _, refl)
join_can2 a (filling true) log h = (thread2, _, refl)
join_can2 a (filling false) log h = absurd h
join_can2 a over log h = (main_thread, _, refl)
join_can2 a absent log h = absurd h
join_can2 a freed log h = absurd h
join_can2 a spoilt log h = absurd h

-- Main has printed the two results last, in their order, and freed both texts.
abbrev pub HasReturned : Program → Type 0
HasReturned s =
    (s.main ≡ returned) × (s.first ≡ freed) × (s.second ≡ freed) × Shown (2 ∷ 1 ∷ []) s.log

can_step :
    (m : Main) (a b : Worker) (log : List Line)
    → StageOk m a b log
    → CanStep (turn true) (program m a b log) ⊎ HasReturned (program m a b log)
unfolding turn main_step
can_step creating1 a b log h = inl (main_thread, _, refl)
can_step creating2 a b log h = inl (main_thread, _, refl)
can_step joining1 a b log h = inl (join_can1 a b log h.0)
can_step joining2 a b log h = inl (join_can2 a b log h.1)
can_step showing1 a b log h = inl (main_thread, _, refl)
can_step showing2 a b log h = inl (main_thread, _, refl)
can_step freeing1 a b log h = inl (main_thread, _, refl)
can_step freeing2 a b log h = inl (main_thread, _, refl)
can_step returned a b log h = inr (refl, h.0, h.1, h.2)
can_step undefined a b log h = absurd h

-- Where every call of fun_thread_join.c succeeds, its main and its two threads make at most 14
-- steps, in whatever order, and can go on until main has returned; then the results of thread 1
-- and thread 2 have been printed last, in this order, both texts have been freed, and nothing
-- undefined has been done.
pub results_returned :
    {n : ℕ} {s : Program}
    → Steps (turn true) start n s
    → (n ≤ 14) × (CanStep (turn true) s ⊎ HasReturned s)
results_returned {n} {s} r =
    let (ok, bound) = Steps-ProgramOk r in
    (omega (arith, bound), can_step s.main s.first s.second s.log ok)
