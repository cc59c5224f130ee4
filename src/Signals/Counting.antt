-- ===== src/Signals/Counting.antt =====
-- When the counting programs exit.
use linux_exercises.Base.{
  ℕ, ◌+◌, ◌<◌, ◌≤◌, ◌≡◌, refl, Bool, true, false, List, [], ◌∷◌, ◌++◌, ◌==◌, leb, length, arith,
  Bool-cases, inl, inr,
}
use linux_exercises.Signals.Counter.{
  Event, alarm_set, Wake, Run, exited, paused, tested, count_loop, sigint_main, sigalrm_main,
}

-- The count after these returns of `pause`.
abbrev pub total : ℕ → List Wake → ℕ
total count [] = count
total count (w ∷ ws) = total (tested count w) ws

abbrev pub has_exited : Run → Bool
has_exited (exited log) = true
has_exited (paused count log) = false

total-le : (count : ℕ) (ws : List Wake) → count + length ws ≤ total count ws
total-le count [] = omega arith
total-le count (w ∷ ws) = omega (arith, total-le (tested count w) ws)

-- A loop that ends at a bound ends exactly if the count gets there.
count_loop-total :
    (bound : ℕ) (again : Bool) (count : ℕ) (ws : List Wake) (log : List Event)
    → count < bound
    → has_exited (count_loop (leb bound) again count ws log) ≡ leb bound (total count ws)
unfolding count_loop
count_loop-total bound again count [] log h = ground arith
count_loop-total bound again count (w ∷ ws) log h = elim (Bool-cases (leb bound (tested count w))) [
  | inl e ↦ rw e (ground (arith, total-le (tested count w) ws))
  | inr e ↦ rw e (count_loop-total bound again (tested count w) ws _ (ground arith))
]

-- Past its number, a loop that ends only there goes on for ever.
count_loop-missed :
    (again : Bool) (count : ℕ) (ws : List Wake) (log : List Event)
    → 3 ≤ count
    → has_exited (count_loop (λ n. n == 3) again count ws log) ≡ false
unfolding count_loop
count_loop-missed again count [] log h = refl
count_loop-missed again count (w ∷ ws) log h = elim (Bool-cases (tested count w == 3)) [
  | inl e ↦ absurd (ground arith)
  | inr e ↦ rw e (count_loop-missed again (tested count w) ws _ (omega arith))
]

count_loop-append :
    (again : Bool) (count : ℕ) (ws rest : List Wake) (log : List Event)
    → has_exited (count_loop (λ n. n == 3) again count ws log) ≡ false
    → 3 ≤ total count ws
    → has_exited (count_loop (λ n. n == 3) again count (ws ++ rest) log) ≡ false
unfolding count_loop
count_loop-append again count [] rest log e h = count_loop-missed again count rest log h
count_loop-append again count (w ∷ ws) rest log e h = elim (Bool-cases (tested count w == 3)) [
  | inl t ↦ absurd (cc (rw t at e))
  | inr t ↦ rw t (count_loop-append again (tested count w) ws rest _ (rw t at e) h)
]

-- However many signals are handled at a time, ex2_sigalrm_timer.c has exited exactly if the count, at
-- the last time that it is tested, is at least 10.
sigalrm_main-exit : (ws : List Wake) → has_exited (sigalrm_main ws) ≡ leb 10 (total 0 ws)
unfolding sigalrm_main
sigalrm_main-exit ws = count_loop-total 10 true 0 ws (alarm_set 1 ∷ []) (omega arith)

-- If ex1_creat_run_signal.c has not exited while the count has come to 3 or more, since signals
-- came together, it does not exit whatever signals follow.
sigint_main-missed :
    (ws rest : List Wake)
    → has_exited (sigint_main ws) ≡ false
    → 3 ≤ total 0 ws
    → has_exited (sigint_main (ws ++ rest)) ≡ false
unfolding sigint_main
sigint_main-missed ws rest e h = count_loop-append false 0 ws rest [] e h
