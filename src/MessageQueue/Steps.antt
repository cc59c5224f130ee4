-- ===== src/MessageQueue/Steps.antt =====
-- The buffer of the worker, and what a dispatcher does to the queue.
use linux_exercises.Base.{
  ℕ, ◌<◌, ◌≡◌, refl, Bool, true, false, Option, some, some-eq-some, List, [], ◌∷◌, ◌++◌, map, arith,
  length, set, sym, ◌∙◌, ltb, All, ◌⊎◌, inl, inr, Bool-cases, Option-cases,
}
use linux_exercises.Strings.{Text, NoNul, c_string, atoi}
use linux_exercises.MessageQueue.Tasks.{msgsz, tail, overlay, null_terminate, send_task, dispatch}
use linux_exercises.MessageQueue.Worker.{at_print, Stage, Event, task_done, System, with_report}
use linux_exercises.MessageQueue.Order.{of_prio}

pub c_string-append : (t r : List ℕ) → NoNul t → c_string (t ++ 0 ∷ r) ≡ t
c_string-append [] r h = refl
c_string-append (c ∷ t) r h = ground (arith, h.0, c_string-append t r h.1)

-- A NUL behind the bytes does not change the string at their front.
c_string-overlay : (b junk : List ℕ) → c_string (set (overlay b junk) (length b) 0) ≡ c_string b
unfolding overlay
c_string-overlay [] [] = refl
c_string-overlay [] (x ∷ junk) = refl
c_string-overlay (c ∷ b) junk = ground (arith, c_string-overlay b (tail junk))

pub null_terminate-c_string :
    (junk b : List ℕ) (t : Text) → null_terminate junk b ≡ some t → t ≡ c_string b
unfolding null_terminate
null_terminate-c_string junk b t e = elim (Bool-cases (ltb (length b) msgsz)) [
  | inl f ↦ sym (some-eq-some _ t (rw f at e)) ∙ c_string-overlay b junk
  | inr f ↦ absurd (cc (rw f at e))
]

pub null_terminate-short :
    (junk b : List ℕ) → length b < msgsz → null_terminate junk b ≡ some (c_string b)
unfolding null_terminate
null_terminate-short junk b l = ground (arith, c_string-overlay b junk)

-- One message, under its priority.
pub one :
    (p r : ℕ) (b : List ℕ) (t : Text)
    → c_string b ≡ t
    → of_prio p ((r, t) ∷ []) ≡ map c_string (of_prio p ((r, b) ∷ []))
one p r b t e = ground (arith, e)

-- The tasks that the worker has printed, oldest first.
abbrev pub done_tasks : List Event → List (ℕ × Text)
done_tasks [] = []
done_tasks (task_done p t ∷ log) = done_tasks log ++ (p, t) ∷ []
done_tasks (_ ∷ log) = done_tasks log

-- The same with the one that it is about to print.
abbrev pub taken : Stage → List Event → List (ℕ × Text)
taken (at_print p t) log = done_tasks log ++ (p, t) ∷ []
taken _ log = done_tasks log

module _ {Q : Type 0} (mq_send : ℕ → List ℕ → Q → Option Q) where
  send_task-cases :
      (opened : Bool) (p : ℕ) (task : Text) (s : System Q)
      → (with_report (send_task mq_send opened p task s.queue) s ≡ s)
        ⊎ ((q : Q) × (mq_send p (task ++ 0 ∷ []) s.queue ≡ some q)
            × (with_report (send_task mq_send opened p task s.queue) s
                ≡ record s { queue = q; sent = s.sent ++ (p, task) ∷ [] }))
  unfolding send_task
  send_task-cases false p task s = inl refl
  send_task-cases true p task s = elim (Option-cases (mq_send p (task ++ 0 ∷ []) s.queue)) [
    | inl e ↦ inl (rw e refl)
    | inr (q, e) ↦ inr (q, e, rw e refl)
  ]

  -- A dispatcher sends one task or leaves everything as it was.
  pub dispatch-cases :
      (opened : Bool) (args : List Text) (s : System Q)
      → All NoNul args
      → (with_report (dispatch mq_send opened args s.queue) s ≡ s)
        ⊎ ((p : ℕ) × (task : Text) × (q : Q) × NoNul task
            × (mq_send p (task ++ 0 ∷ []) s.queue ≡ some q)
            × (with_report (dispatch mq_send opened args s.queue) s
                ≡ record s { queue = q; sent = s.sent ++ (p, task) ∷ [] }))
  unfolding dispatch
  dispatch-cases opened [] s h = inl refl
  dispatch-cases opened (a ∷ []) s h = inl refl
  dispatch-cases opened (a ∷ b ∷ c ∷ args) s h = inl refl
  dispatch-cases opened (a ∷ b ∷ []) s h = elim (Bool-cases (ltb 31 (atoi a))) [
    | inl e ↦ inl (rw e refl)
    | inr e ↦ elim (send_task-cases opened (atoi a) b s) [
      | inl f ↦ inl (rw e f)
      | inr (q, f, g) ↦ inr (atoi a, b, q, h.1.0, f, rw e g)
    ]
  ]
