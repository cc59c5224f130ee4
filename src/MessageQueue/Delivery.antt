-- ===== src/MessageQueue/Delivery.antt =====
-- What becomes of the dispatchers' tasks.
use mathlib.Core.List.{append-nil, append_assoc}
use linux_exercises.Base.{
  ℕ, zero, suc, ◌+◌, ◌<◌, ◌≤◌, ◌≡◌, refl, Bool, true, false, Option, none, some, List, [], ◌∷◌,
  ◌++◌, map, arith, length, length-append, ap, sym, subst, ◌∙◌, All,
}
use linux_exercises.Strings.{Text, c_string, atoi}
use linux_exercises.MessageQueue.Tasks.{
  msgsz, Got, got, waits, task_sent, null_terminate, send_task, dispatch,
}
use linux_exercises.MessageQueue.Worker.{
  task_done, at_loop, past_end, ended, Worker, linked, System, worker_step, worker_run, Reach,
}
use linux_exercises.MessageQueue.Order.{
  of_prio, of_prio-append, IsDescending, Priorities, Receives, AtMost,
}
use linux_exercises.MessageQueue.Tasks.{open_failed}
use linux_exercises.MessageQueue.Steps.{taken, done_tasks, null_terminate-short}
use linux_exercises.MessageQueue.Invariant.{IsRunning, InOrder, LinkedAt, Reach-Inv}

-- A message as the worker prints it.
abbrev pub shown : List (ℕ × List ℕ) → List (ℕ × Text)
shown = map (λ m. (m.0, c_string m.1))

AtMost-shown : (r : ℕ) (ms : List (ℕ × List ℕ)) → AtMost r ms → AtMost r (shown ms)
AtMost-shown r [] h = tt
AtMost-shown r (m ∷ ms) h = (h.0, AtMost-shown r ms h.1)

IsDescending-shown : (ms : List (ℕ × List ℕ)) → IsDescending ms → IsDescending (shown ms)
IsDescending-shown [] h = tt
IsDescending-shown (m ∷ ms) h = (AtMost-shown m.0 ms h.0, IsDescending-shown ms h.1)

of_prio-shown :
    (p : ℕ) (ms : List (ℕ × List ℕ)) → of_prio p (shown ms) ≡ map c_string (of_prio p ms)
of_prio-shown p [] = refl
of_prio-shown p ((r, b) ∷ ms) = ground (arith, of_prio-shown p ms)

-- Messages that leave room for the NUL.
abbrev pub AllShort : List (ℕ × List ℕ) → Type 0
AllShort ms = All (λ m. length m.1 < msgsz) ms

null_terminate-long :
    (junk bytes : List ℕ) → msgsz ≤ length bytes → null_terminate junk bytes ≡ none
unfolding null_terminate
null_terminate-long junk bytes l = ground arith

module _ {Q : Type 0} (mq_send : ℕ → List ℕ → Q → Option Q) (mq_receive : Q → Got Q)
    (contents : Q → List (ℕ × List ℕ)) where
  -- With a queue that follows mq_overview: from an empty queue, whatever the order of
  -- dispatchers, steps of the worker and Ctrl+C, as long as the worker has not written past the
  -- end of its buffer, and has not ended, of each priority the tasks sent are those that it has
  -- printed, then the one that it is about to print, if any, then those in the queue, each once
  -- and in their order; the priorities in the queue do not rise.
  pub Reach-taken :
      {q : Q} {s : System Q}
      → Priorities mq_send mq_receive contents
      → contents q ≡ []
      → Reach mq_send mq_receive q s
      → IsRunning s.worker.stage
      → IsDescending (contents s.queue)
        × InOrder s.sent (taken s.worker.stage s.worker.log) (contents s.queue)
  Reach-taken laws c r h =
      let v = Reach-Inv mq_send mq_receive contents laws c r in (v.descending, v.in_order h)

  -- Once the worker has ended there is no queue of that name: a dispatcher reports that it cannot open
  -- it.
  dispatch-ended :
      {q : Q} {s : System Q} {code : ℕ} (prio_text task : Text)
      → Priorities mq_send mq_receive contents
      → contents q ≡ []
      → Reach mq_send mq_receive q s
      → s.worker.stage ≡ ended code
      → atoi prio_text ≤ 31
      → dispatch mq_send (linked s.worker.log) (prio_text ∷ task ∷ []) s.queue
        ≡ (open_failed, s.queue)
  unfolding dispatch send_task
  dispatch-ended {s = s} prio_text task laws c r e l =
      let v = Reach-Inv mq_send mq_receive contents laws c r in
      let u : linked s.worker.log ≡ false = subst (λ g. LinkedAt g s.worker.log) e v.linked_at in
      ground (arith, u)

  waits_at :
      (junk : List ℕ) (w : Worker) (q : Q)
      → w.stage ≡ at_loop
      → mq_receive q ≡ waits
      → worker_step mq_receive w.stage true junk w q ≡ none
  unfolding worker_step
  waits_at junk w q l e = rw (l, e) refl

  worker_run-waits :
      (k : ℕ) (junk : List ℕ) (w : Worker) (q : Q)
      → w.stage ≡ at_loop
      → mq_receive q ≡ waits
      → worker_run mq_receive k junk w q ≡ (w, q)
  unfolding worker_run
  worker_run-waits zero junk w q l e = refl
  worker_run-waits (suc k) junk w q l e = rw (worker_run, waits_at junk w q l e)

  -- A message takes two steps.
  worker_run-got :
      (k : ℕ) (junk : List ℕ) (w : Worker) (q q' : Q) (p : ℕ) (b : List ℕ)
      → w.stage ≡ at_loop
      → mq_receive q ≡ got p b q'
      → length b < msgsz
      → worker_run mq_receive (suc (suc k)) junk w q
        ≡ worker_run mq_receive k junk
            (record w { stage = at_loop; log = task_done p (c_string b) ∷ w.log })
            q'
  unfolding worker_run worker_step
  worker_run-got k junk w q q' p b l e h = rw (worker_run, l, e, null_terminate-short junk b h) refl

  -- The worker has printed these, one after the other, and waits.
  record Drained (ms : List (ℕ × List ℕ)) (junk : List ℕ) (w : Worker) (r : Worker × Q)
      : Type 0 where
    prints : done_tasks (r.0).log ≡ done_tasks w.log ++ shown ms
    in_loop : (r.0).stage ≡ at_loop
    stops : worker_step mq_receive (r.0).stage true junk r.0 r.1 ≡ none

  worker_run-Drained :
      (k : ℕ) (junk : List ℕ) (w : Worker) (q : Q) (ms : List (ℕ × List ℕ))
      → Receives mq_send mq_receive contents
      → w.stage ≡ at_loop
      → contents q ≡ ms
      → AllShort ms
      → length ms + length ms ≤ k
      → Drained ms junk w (worker_run mq_receive k junk w q)
  worker_run-Drained k junk w q [] ready l c h n =
      let e = ready.blocks q c in
      rw (worker_run-waits k junk w q l e) (record {
        prints = sym (append-nil (done_tasks w.log));
        in_loop = l;
        stops = waits_at junk w q l e;
      })
  worker_run-Drained zero junk w q (m ∷ ms) ready l c h n = absurd (omega (arith, n))
  worker_run-Drained (suc zero) junk w q (m ∷ ms) ready l c h n = absurd (omega (arith, n))
  worker_run-Drained (suc (suc k)) junk w q ((p, b) ∷ ms) ready l c h n =
      let (q', e, d) = ready.receives q p b ms c in
      let w' = record w { stage = at_loop; log = task_done p (c_string b) ∷ w.log } in
      let r = worker_run-Drained k junk w' q' ms ready refl d h.1 (omega (arith, n)) in
      rw (worker_run-got k junk w q q' p b l e h.0) (record {
        prints = r.prints ∙ append_assoc (done_tasks w.log) ((p, c_string b) ∷ []) (shown ms);
        in_loop = r.in_loop;
        stops = r.stops;
      })

  taken-at_loop :
      (s : System Q)
      → s.worker.stage ≡ at_loop
      → (IsRunning s.worker.stage
          → InOrder s.sent (taken s.worker.stage s.worker.log) (contents s.queue))
      → InOrder s.sent (done_tasks s.worker.log) (contents s.queue)
  taken-at_loop s l h =
      subst (λ x. IsRunning x → InOrder s.sent (taken x s.worker.log) (contents s.queue)) l h tt

  -- With a queue that follows mq_overview: from an empty queue, whatever the dispatchers, the
  -- worker's steps and Ctrl+C have done so far, while the worker is about to receive, the
  -- messages in the queue leave room for the NUL, and no receive fails: with two steps for each
  -- message and nothing sent in between, the worker prints tasks whose priorities do not rise,
  -- and then waits; of each priority it has then printed exactly the tasks that were sent, in the
  -- order of sending.
  pub worker_run-drains :
      {q : Q} {s : System Q} (k : ℕ) (junk : List ℕ)
      → Priorities mq_send mq_receive contents
      → Receives mq_send mq_receive contents
      → contents q ≡ []
      → Reach mq_send mq_receive q s
      → s.worker.stage ≡ at_loop
      → AllShort (contents s.queue)
      → length (contents s.queue) + length (contents s.queue) ≤ k
      → let r = worker_run mq_receive k junk s.worker s.queue in
        (new : List (ℕ × Text)) × (done_tasks (r.0).log ≡ done_tasks s.worker.log ++ new)
        × IsDescending new
        × ((p : ℕ) → of_prio p (done_tasks (r.0).log) ≡ of_prio p s.sent)
        × (worker_step mq_receive (r.0).stage true junk r.0 r.1 ≡ none)
  worker_run-drains {s = s} k junk laws ready c r l h n =
      let v = Reach-Inv mq_send mq_receive contents laws c r in
      let d = worker_run-Drained k junk s.worker s.queue (contents s.queue) ready l refl h n in
      (
        shown (contents s.queue),
        d.prints,
        IsDescending-shown (contents s.queue) v.descending,
        λ p.
            ap (of_prio p) d.prints
            ∙ of_prio-append p (done_tasks s.worker.log) (shown (contents s.queue))
            ∙ ap (λ x. of_prio p (done_tasks s.worker.log) ++ x)
                (of_prio-shown p (contents s.queue))
            ∙ sym (taken-at_loop s l v.in_order p),
        d.stops,
      )

  -- With a queue that follows mq_overview, and that is empty: with the queue opened, a priority
  -- of at most 31 as atoi reads it, and a task of 255 bytes that mq_send accepts, dispatch
  -- reports the task as sent, and a worker in its loop writes past the end of its buffer at its
  -- next step.
  pub dispatch-overrun :
      (prio_text task junk : List ℕ) (opened : Bool) (w : Worker) (q q' : Q)
      → Priorities mq_send mq_receive contents
      → Receives mq_send mq_receive contents
      → contents q ≡ []
      → length task + 1 ≡ msgsz
      → atoi prio_text ≤ 31
      → mq_send (atoi prio_text) (task ++ 0 ∷ []) q ≡ some q'
      → (dispatch mq_send true (prio_text ∷ task ∷ []) q ≡ (task_sent (atoi prio_text) task, q'))
        × ((q'' : Q) × (worker_step mq_receive at_loop opened junk w q'
              ≡ some (record w { stage = past_end }, q'')))
  unfolding dispatch send_task worker_step
  dispatch-overrun prio_text task junk opened w q q' laws ready c l p s =
      let e = laws.sends (atoi prio_text) (task ++ 0 ∷ []) q q' s in
      let (q'', g, d) = ready.receives q' (atoi prio_text) (task ++ 0 ∷ []) [] (rw c at e) in
      let o =
        null_terminate-long junk (task ++ 0 ∷ []) (omega (arith, length-append task (0 ∷ []), l)) in
      (ground (arith, s), (q'', rw (g, o) refl))
