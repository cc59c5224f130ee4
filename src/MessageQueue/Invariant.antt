-- ===== src/MessageQueue/Invariant.antt =====
-- The tasks sent, done and queued, by their priorities, at any time.
use mathlib.Core.List.{append-nil, append_assoc, map-append}
use linux_exercises.Base.{
  ℕ, ◌≡◌, refl, Bool, true, false, Option, none, some, some-eq-some, List, [], ◌∷◌, ◌++◌, map, ap,
  sym, subst, ◌∙◌, ◌==◌, All, inl, inr, Bool-cases,
}
use linux_exercises.Strings.{Text, NoNul, c_string}
use linux_exercises.MessageQueue.Tasks.{Got, got, waits, fails, null_terminate, dispatch}
use linux_exercises.MessageQueue.Worker.{
  at_print, task_done, Event, Stage, at_open, at_loop, past_end, ended, Worker, cleanup_and_exit,
  open_queue, process, interrupt, linked, System, with_report, Action, dispatched, works,
  interrupted, Possible, with_worker, with_interrupt, receive_task, worker_step, act, Reach, here,
  later,
}
use linux_exercises.MessageQueue.Order.{
  enqueue, of_prio, of_prio-append, of_prio-enqueue, IsDescending, IsDescending-enqueue, Priorities,
}
use linux_exercises.MessageQueue.Steps.{
  null_terminate-c_string, done_tasks, taken, one, c_string-append, dispatch-cases,
}

abbrev pub LinkedAt : Stage → List Event → Type 0
LinkedAt at_open log = linked log ≡ false
LinkedAt at_loop log = linked log ≡ true
LinkedAt (at_print p t) log = linked log ≡ true
LinkedAt past_end log = Unit
LinkedAt (ended code) log = linked log ≡ false

-- Per priority: the tasks sent, against those done and then those in the queue.
abbrev pub InOrder : List (ℕ × Text) → List (ℕ × Text) → List (ℕ × List ℕ) → Type 0
InOrder sent done_ queued =
    (p : ℕ) → of_prio p sent ≡ of_prio p done_ ++ map c_string (of_prio p queued)

InOrder-sent :
    (sent done_ : List (ℕ × Text)) (queued : List (ℕ × List ℕ)) (r : ℕ) (task : Text)
    → NoNul task
    → IsDescending queued
    → InOrder sent done_ queued
    → InOrder (sent ++ (r, task) ∷ []) done_ (enqueue r (task ++ 0 ∷ []) queued)
InOrder-sent sent done_ queued r task n d o p =
    rw
      (
        of_prio-append p sent ((r, task) ∷ []),
        of_prio-enqueue p r (task ++ 0 ∷ []) queued d,
        o p,
        map-append c_string (of_prio p queued) (of_prio p ((r, task ++ 0 ∷ []) ∷ [])),
      )
      (append_assoc (of_prio p done_) (map c_string (of_prio p queued)) (of_prio p ((r, task) ∷ []))
        ∙ ap (λ x. of_prio p done_ ++ (map c_string (of_prio p queued) ++ x))
            (one p r (task ++ 0 ∷ []) task (c_string-append task [] n)))

InOrder-done :
    (sent done_ : List (ℕ × Text)) (queued : List (ℕ × List ℕ)) (r : ℕ) (b : List ℕ) (t : Text)
    → t ≡ c_string b
    → InOrder sent done_ ((r, b) ∷ queued)
    → InOrder sent (done_ ++ (r, t) ∷ []) queued
InOrder-done sent done_ queued r b t e o p = elim (Bool-cases (r == p)) [
  | inl f ↦
      rw (o p, of_prio-append p done_ ((r, t) ∷ []), e, f)
        (sym (append_assoc (of_prio p done_) (c_string b ∷ []) (map c_string (of_prio p queued))))
  | inr f ↦
      rw (o p, of_prio-append p done_ ((r, t) ∷ []), e, f)
        (ap (λ x. x ++ map c_string (of_prio p queued)) (sym (append-nil (of_prio p done_))))
]

-- Neither ended nor past the end of its buffer.
abbrev pub IsRunning : Stage → Type 0
IsRunning past_end = ⊥
IsRunning (ended code) = ⊥
IsRunning _ = Unit

module _ {Q : Type 0} (contents : Q → List (ℕ × List ℕ)) where
  pub record Inv (s : System Q) : Type 0 where
    pub descending : IsDescending (contents s.queue)
    pub in_order :
        IsRunning s.worker.stage
        → InOrder s.sent (taken s.worker.stage s.worker.log) (contents s.queue)
    pub linked_at : LinkedAt s.worker.stage s.worker.log

  -- The worker alone has changed.
  worker-Inv :
      (s : System Q) (w : Worker)
      → Inv s
      → (IsRunning w.stage
          → IsRunning s.worker.stage × (taken w.stage w.log ≡ taken s.worker.stage s.worker.log))
      → LinkedAt w.stage w.log
      → Inv (record s { worker = w })
  worker-Inv s w v h l = record {
    descending = v.descending;
    in_order = λ r.
        let (r', d) = h r in
        subst (λ x. InOrder s.sent x (contents s.queue)) (sym d) (v.in_order r');
    linked_at = l;
  }

  cleanup-Inv : (s : System Q) (w : Worker) → Inv s → Inv (record s { worker = cleanup_and_exit w })
  unfolding cleanup_and_exit
  cleanup-Inv s w v = worker-Inv s (cleanup_and_exit w) v (λ r. absurd r) refl

  interrupt-Inv :
      (s u : System Q) (g : Stage)
      → Inv s
      → with_interrupt (interrupt g s.worker) s ≡ some u
      → Inv u
  unfolding interrupt
  interrupt-Inv s u at_open v e = subst Inv (some-eq-some _ u e) (cleanup-Inv s s.worker v)
  interrupt-Inv s u at_loop v e = subst Inv (some-eq-some _ u e) (cleanup-Inv s s.worker v)
  interrupt-Inv s u (at_print p t) v e = subst Inv (some-eq-some _ u e) (cleanup-Inv s s.worker v)
  interrupt-Inv s u past_end v e = absurd (cc)
  interrupt-Inv s u (ended code) v e = absurd (cc)

  open-Inv :
      (opened : Bool) (s : System Q)
      → Inv s
      → s.worker.stage ≡ at_open
      → Inv (record s { worker = open_queue opened s.worker })
  open-Inv true s v l = worker-Inv s (open_queue true s.worker) v (λ _. rw l (tt, refl)) refl
  open-Inv false s v l =
      worker-Inv s (open_queue false s.worker) v (λ r. absurd r)
        (subst (λ g. LinkedAt g s.worker.log) l v.linked_at)

  print-Inv :
      (p : ℕ) (t : Text) (s : System Q)
      → Inv s
      → s.worker.stage ≡ at_print p t
      → Inv (record s {
        worker = record s.worker { stage = at_loop; log = task_done p t ∷ s.worker.log };
      })
  print-Inv p t s v l =
      worker-Inv s (record s.worker { stage = at_loop; log = task_done p t ∷ s.worker.log }) v
        (λ _. rw l (tt, refl)) (subst (λ g. LinkedAt g s.worker.log) l v.linked_at)

module _ {Q : Type 0} (mq_send : ℕ → List ℕ → Q → Option Q) (mq_receive : Q → Got Q)
    (contents : Q → List (ℕ × List ℕ)) (laws : Priorities mq_send mq_receive contents) where
  process-Inv :
      (o : Option Text) (p : ℕ) (b : List ℕ) (q' : Q) (s : System Q)
      → Inv contents s
      → s.worker.stage ≡ at_loop
      → mq_receive s.queue ≡ got p b q'
      → ((t : Text) → o ≡ some t → t ≡ c_string b)
      → Inv contents (record s { queue = q'; worker = process p o s.worker })
  process-Inv none p b q' s v l g c = record {
    descending = (subst IsDescending (laws.gets p b s.queue q' g) v.descending).1;
    in_order = λ h. absurd h;
    linked_at = tt;
  }
  process-Inv (some t) p b q' s v l g c =
      let e = laws.gets p b s.queue q' g in
      let i : InOrder s.sent (done_tasks s.worker.log) (contents s.queue) =
        subst (λ x. IsRunning x → InOrder s.sent (taken x s.worker.log) (contents s.queue)) l
          v.in_order tt in
      record {
        descending = (subst IsDescending e v.descending).1;
        in_order = λ _.
            InOrder-done s.sent (done_tasks s.worker.log) (contents q') p b t (c t refl)
              (subst (InOrder s.sent (done_tasks s.worker.log)) e i);
        linked_at = subst (λ x. LinkedAt x s.worker.log) l v.linked_at;
      }

  receive_task-Inv :
      (junk : List ℕ) (g : Got Q) (s u : System Q)
      → Inv contents s
      → s.worker.stage ≡ at_loop
      → mq_receive s.queue ≡ g
      → with_worker (receive_task junk g s.worker s.queue) s ≡ some u
      → Inv contents u
  receive_task-Inv junk waits s u v l g e = absurd (cc)
  receive_task-Inv junk fails s u v l g e =
      subst (Inv contents) (some-eq-some _ u e) (cleanup-Inv contents s _ v)
  receive_task-Inv junk (got p b q') s u v l g e =
      subst (Inv contents) (some-eq-some _ u e)
        (process-Inv (null_terminate junk b) p b q' s v l g (null_terminate-c_string junk b))

  worker_step-Inv :
      (g : Stage) (opened : Bool) (junk : List ℕ) (s u : System Q)
      → Inv contents s
      → s.worker.stage ≡ g
      → with_worker (worker_step mq_receive g opened junk s.worker s.queue) s ≡ some u
      → Inv contents u
  unfolding worker_step
  worker_step-Inv at_open opened junk s u v l e =
      subst (Inv contents) (some-eq-some _ u e) (open-Inv contents opened s v l)
  worker_step-Inv at_loop opened junk s u v l e =
      receive_task-Inv junk (mq_receive s.queue) s u v l refl e
  worker_step-Inv (at_print p t) opened junk s u v l e =
      subst (Inv contents) (some-eq-some _ u e) (print-Inv contents p t s v l)
  worker_step-Inv past_end opened junk s u v l e = absurd (cc)
  worker_step-Inv (ended code) opened junk s u v l e = absurd (cc)

  dispatch-Inv :
      (args : List Text) (s : System Q)
      → Inv contents s
      → All NoNul args
      → Inv contents (with_report (dispatch mq_send (linked s.worker.log) args s.queue) s)
  dispatch-Inv args s v h = elim (dispatch-cases mq_send (linked s.worker.log) args s h) [
    | inl e ↦ subst (Inv contents) (sym e) v
    | inr (p, task, q, n, m, e) ↦
        let c = laws.sends p (task ++ 0 ∷ []) s.queue q m in
        subst (Inv contents) (sym e) (record {
          descending =
              rw c (IsDescending-enqueue p (task ++ 0 ∷ []) (contents s.queue) v.descending);
          in_order = λ f. rw c (
              InOrder-sent s.sent (taken s.worker.stage s.worker.log) (contents s.queue) p task n
                v.descending (v.in_order f));
          linked_at = v.linked_at;
        })
  ]

  act-Inv :
      (a : Action) (s u : System Q)
      → Inv contents s
      → Possible a
      → act mq_send mq_receive a s ≡ some u
      → Inv contents u
  unfolding act
  act-Inv (dispatched args) s u v h e =
      subst (Inv contents) (some-eq-some _ u e) (dispatch-Inv args s v h)
  act-Inv (works opened junk) s u v h e = worker_step-Inv s.worker.stage opened junk s u v refl e
  act-Inv interrupted s u v h e = interrupt-Inv contents s u s.worker.stage v e

  pub Reach-Inv :
      {q : Q} {s : System Q} → contents q ≡ [] → Reach mq_send mq_receive q s → Inv contents s
  Reach-Inv c here = record { descending = rw c tt; in_order = λ _ p. rw c refl; linked_at = refl }
  Reach-Inv c (later r a h e) = act-Inv a _ _ (Reach-Inv c r) h e
