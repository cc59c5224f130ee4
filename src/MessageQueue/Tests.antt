-- ===== src/MessageQueue/Tests.antt =====
-- The theorems at a queue that keeps its messages in a list.
use linux_exercises.Base.{
  ℕ, ◌≤◌, ◌≡◌, refl, true, Option, some, some-eq-some, List, [], ◌∷◌, ◌++◌, All, none, arith,
  replicate, sym, ap,
}
use linux_exercises.Strings.{Text, NoNul}
use linux_exercises.Strings.{atoi}
use linux_exercises.MessageQueue.Tasks.{Got, got, waits, task_sent, dispatch, send_task}
use linux_exercises.MessageQueue.Order.{enqueue, of_prio, IsDescending, Priorities, Receives}
use linux_exercises.MessageQueue.Worker.{
  Worker, at_loop, past_end, System, queue_opened, dispatched, works, act, worker_step, worker_run,
  Reach, here, later,
}
use linux_exercises.MessageQueue.Steps.{done_tasks, taken}
use linux_exercises.MessageQueue.Invariant.{InOrder}
use linux_exercises.MessageQueue.Delivery.{Reach-taken, worker_run-drains, dispatch-overrun}

abbrev Queue : Type 0
Queue = List (ℕ × List ℕ)

abbrev push : ℕ → List ℕ → Queue → Option Queue
push p b q = some (enqueue p b q)

abbrev pop : Queue → Got Queue
pop [] = waits
pop ((p, b) ∷ q) = got p b q

pop-got : (p : ℕ) (b : List ℕ) (q q' : Queue) → pop q ≡ got p b q' → q ≡ (p, b) ∷ q'
pop-got p b [] q' e = absurd (cc)
pop-got p b ((r, c) ∷ q) q' e = ap back e
  where
    back : Got Queue → Queue
    back (got s d u) = (s, d) ∷ u
    back _ = []

pop-some :
    (q : Queue) (p : ℕ) (b : List ℕ) (r : Queue)
    → q ≡ (p, b) ∷ r
    → (q' : Queue) × (pop q ≡ got p b q') × (q' ≡ r)
pop-some q p b r e = (r, ap pop e, refl)

laws : Priorities push pop (λ q. q)
laws = record { sends = λ p b q q' e. sym (some-eq-some _ q' e); gets = pop-got }

ready : Receives push pop (λ q. q)
ready = record { receives = pop-some; blocks = λ q e. ap pop e }

abbrev five : Text
five = b'5' ∷ []

abbrev seven : Text
seven = b'7' ∷ []

abbrev task : Text
task = b'g' ∷ b'o' ∷ []

abbrev junk : List ℕ
junk = replicate 256 7

abbrev at_work : Worker
at_work = record { mqdes = true; stage = at_loop; log = queue_opened ∷ [] }

abbrev two_sent : System Queue
two_sent = record {
  queue = (7, task ++ 0 ∷ []) ∷ (5, task ++ 0 ∷ []) ∷ [];
  worker = at_work;
  sent = (5, task) ∷ (7, task) ∷ [];
}

five_le : atoi five ≤ 31
unfolding atoi
five_le = omega arith

five-NoNul : NoNul five
five-NoNul = ground arith

seven-NoNul : NoNul seven
seven-NoNul = ground arith

NoNul-args : (a : Text) → NoNul a → All NoNul (a ∷ task ∷ [])
NoNul-args a h = ground (arith, h)

Reach-two_sent : Reach push pop [] two_sent
unfolding act worker_step dispatch send_task atoi
Reach-two_sent =
    let a = later here (works true junk) tt refl in
    let b = later a (dispatched (five ∷ task ∷ [])) (NoNul-args five five-NoNul) refl in
    later b (dispatched (seven ∷ task ∷ [])) (NoNul-args seven seven-NoNul) refl

Reach-taken_example :
    IsDescending two_sent.queue
    × InOrder two_sent.sent (taken at_loop two_sent.worker.log) two_sent.queue
Reach-taken_example = Reach-taken push pop (λ q. q) laws refl Reach-two_sent tt

worker_run-drains_example :
    let r = worker_run pop 4 junk at_work two_sent.queue in
    (new : List (ℕ × Text)) × (done_tasks (r.0).log ≡ [] ++ new)
    × IsDescending new
    × ((p : ℕ) → of_prio p (done_tasks (r.0).log) ≡ of_prio p two_sent.sent)
    × (worker_step pop (r.0).stage true junk r.0 r.1 ≡ none)
worker_run-drains_example =
    worker_run-drains push pop (λ q. q) 4 junk laws ready refl Reach-two_sent refl
      (omega arith, (omega arith, tt)) (omega arith)

abbrev long : Text
long = replicate 255 b'x'

dispatch-overrun_example :
    (dispatch push true (five ∷ long ∷ []) []
      ≡ (task_sent (atoi five) long, (atoi five, long ++ 0 ∷ []) ∷ []))
    × ((q'' : Queue) × (worker_step pop at_loop true junk at_work ((atoi five, long ++ 0 ∷ []) ∷ [])
          ≡ some (record at_work { stage = past_end }, q'')))
dispatch-overrun_example =
    dispatch-overrun push pop (λ q. q) five long junk true at_work []
      ((atoi five, long ++ 0 ∷ []) ∷ []) laws ready refl refl five_le refl
