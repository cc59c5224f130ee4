-- ===== src/Threads/Tests.antt =====
-- The theorems at concrete runs.
use linux_exercises.Base.{
  true, Steps, CanStep, Option, ℕ, zero, suc, ◌+◌, ◌*◌, ◌↔◌, ◌≤◌, ◌<◌, ◌⊎◌, false, ◌≡◌, refl, none,
  some, List, [], ◌∷◌, ◌++◌, total, Option-cases, inl, inr,
}
use linux_exercises.Threads.RwLock.{step, System, turn, start, Reach, here, later}
use linux_exercises.Threads.Readers.{reads, writes, unwritten, lock_counts}
use linux_exercises.Threads.Mailbox.{
  Mailbox, produce, consume, empty_box, number_datas, BoxReach, untouched, producer_turn,
  consumer_turn,
}
use linux_exercises.Threads.Handover.{inside, handover}
use linux_exercises.Threads.Race
use linux_exercises.Threads.Race.{Race, printed, num_threads, increments}
use linux_exercises.Threads.Race.Outcome.{printed_iff}
use linux_exercises.Threads.Results
use linux_exercises.Threads.Results.{
  Program, joining1, printing, over, working, main_thread, thread2, worker_step, main_step,
}
use linux_exercises.Threads.Returns.{HasReturned, results_returned}

-- A schedule, in which a thread that waits is passed over.
run : List ℕ → System → System
run [] s = s
run (j ∷ js) s = run js (elim (turn j s) [ none ↦ s | some t ↦ t ])

run-Reach : (js : List ℕ) (s : System) → Reach start s → Reach start (run js s)
unfolding run
run-Reach [] s r = r
run-Reach (j ∷ js) s r = elim (Option-cases (turn j s)) [
  | inl e ↦ rw e (run-Reach js s r)
  | inr (t, e) ↦ rw e (run-Reach js t (later r j e))
]

-- Five rounds of each writer.
abbrev five_rounds : ℕ → List ℕ
five_rounds j = j ∷ j ∷ j ∷ j ∷ j ∷ j ∷ j ∷ j ∷ j ∷ j ∷ []

ended : System
ended = run (five_rounds 5 ++ five_rounds 6) start

ended-Reach : Reach start ended
unfolding ended
ended-Reach = run-Reach (five_rounds 5 ++ five_rounds 6) start here

nothing_left : total unwritten ended.threads ≡ 0
unfolding ended run turn step
nothing_left = refl

lock_counts_example :
    (ended.shared.data_ + total unwritten ended.threads ≡ 15)
    × (total writes ended.threads ≤ 1)
    × ((total writes ended.threads ≡ 0) ⊎ (total reads ended.threads ≡ 0))
lock_counts_example = lock_counts ended-Reach

next : Option Mailbox → Mailbox → Mailbox
next none m = m
next (some u) m = u

produce-Reach :
    (x : ℕ) (m : Mailbox) → BoxReach empty_box m → BoxReach empty_box (next (produce x m) m)
unfolding next
produce-Reach x m r = elim (Option-cases (produce x m)) [
  | inl e ↦ rw e r
  | inr (u, e) ↦ rw e (producer_turn r x e)
]

consume-Reach : (m : Mailbox) → BoxReach empty_box m → BoxReach empty_box (next (consume m) m)
unfolding next
consume-Reach m r = elim (Option-cases (consume m)) [
  | inl e ↦ rw e r
  | inr (u, e) ↦ rw e (consumer_turn r e)
]

-- The producer and the consumer take turns.
hand_on : ℕ → Mailbox → Mailbox
hand_on zero m = m
hand_on (suc k) m = let made = next (produce (k + 40) m) m in hand_on k (next (consume made) made)

hand_on-Reach : (k : ℕ) (m : Mailbox) → BoxReach empty_box m → BoxReach empty_box (hand_on k m)
unfolding hand_on
hand_on-Reach zero m r = r
hand_on-Reach (suc k) m r = hand_on-Reach k _ (consume-Reach _ (produce-Reach (k + 40) m r))

delivered : Mailbox
delivered = hand_on 10 empty_box

delivered-Reach : BoxReach empty_box delivered
unfolding delivered
delivered-Reach = hand_on-Reach 10 empty_box untouched

producer_over : delivered.prod_i ≡ number_datas
unfolding delivered hand_on next produce consume
producer_over = refl

consumer_over : delivered.cons_i ≡ number_datas
unfolding delivered hand_on next produce consume
consumer_over = refl

handover_example :
    (delivered.made ≡ delivered.seen ++ inside delivered)
    × ((20 ≤ delivered.prod_i + delivered.cons_i)
        ⊎ ((delivered.prod_waits ≡ false) × (delivered.prod_i < number_datas))
        ⊎ ((delivered.cons_waits ≡ false) × (delivered.cons_i < number_datas)))
handover_example = handover delivered-Reach

printed_iff_example :
    ((r : Race) × Race.Reach r × (r.stage ≡ printed 2)) ↔ ((2 ≤ 2) × (2 ≤ num_threads * increments))
printed_iff_example = printed_iff 2

-- The second thread has its text before the first.
second_first : Program
second_first = record { main = joining1; first = printing; second = over; log = working 2 ∷ [] }

second_first-Steps : Steps (Results.turn true) Results.start 5 second_first
unfolding second_first Results.turn worker_step main_step
second_first-Steps =
    let a = Steps.later Steps.here main_thread refl in
    let b = Steps.later a main_thread refl in
    let c = Steps.later b thread2 refl in
    let d = Steps.later c thread2 refl in Steps.later d thread2 refl

results_returned_example :
    (5 ≤ 14) × (CanStep (Results.turn true) second_first ⊎ HasReturned second_first)
results_returned_example = results_returned second_first-Steps
