-- ===== src/Threads/Results/Invariant.antt =====
-- What the steps of fun_thread_join.c keep, and what is left to do.
use linux_exercises.Base.{
  ℕ, ◌+◌, ◌<◌, ◌≡◌, inl, inr, refl, true, false, some, some-eq-some, Option-cases, List, [], ◌∷◌,
  arith, subst,
}
use linux_exercises.Threads.Results.{
  Worker, absent, printing, allocating, filling, over, freed, spoilt, Line, result, Main, creating1,
  creating2, joining1, joining2, showing1, showing2, freeing1, freeing2, returned, undefined,
  Program, worker_step, join, to_main, main_step, Actor, main_thread, thread1, thread2, turn,
}

-- The steps that a thread and main have before them.
abbrev worker_work : Worker → ℕ
worker_work printing = 3
worker_work allocating = 2
worker_work (filling b) = 1
worker_work _ = 0

abbrev main_work : Main → ℕ
main_work creating1 = 14
main_work creating2 = 10
main_work joining1 = 6
main_work joining2 = 5
main_work showing1 = 4
main_work showing2 = 3
main_work freeing1 = 2
main_work freeing2 = 1
main_work _ = 0

-- A thread at work or over.
abbrev pub IsAround : Worker → Type 0
IsAround absent = ⊥
IsAround freed = ⊥
IsAround spoilt = ⊥
IsAround (filling false) = ⊥
IsAround _ = Unit

-- The results that main has printed stand last.
abbrev pub Shown : List ℕ → List Line → Type 0
Shown [] log = Unit
Shown (n ∷ ns) [] = ⊥
Shown (n ∷ ns) (l ∷ log) = (l ≡ result n) × Shown ns log

abbrev pub StageOk : Main → (first second : Worker) → List Line → Type 0
StageOk creating1 a b log = (a ≡ absent) × (b ≡ absent)
StageOk creating2 a b log = IsAround a × (b ≡ absent)
StageOk joining1 a b log = IsAround a × IsAround b
StageOk joining2 a b log = (a ≡ over) × IsAround b
StageOk showing1 a b log = (a ≡ over) × (b ≡ over)
StageOk showing2 a b log = (a ≡ over) × (b ≡ over) × Shown (1 ∷ []) log
StageOk freeing1 a b log = (a ≡ over) × (b ≡ over) × Shown (2 ∷ 1 ∷ []) log
StageOk freeing2 a b log = (a ≡ freed) × (b ≡ over) × Shown (2 ∷ 1 ∷ []) log
StageOk returned a b log = (a ≡ freed) × (b ≡ freed) × Shown (2 ∷ 1 ∷ []) log
StageOk undefined a b log = ⊥

abbrev pub program : Main → (first second : Worker) → List Line → Program
program m a b log = record { main = m; first = a; second = b; log = log }

abbrev pub work : Program → ℕ
work s = main_work s.main + worker_work s.first + worker_work s.second

pub record Went (k : ℕ) (u : Program) : Type 0 where
  pub ok : StageOk u.main u.first u.second u.log
  pub less : work u < k

module _ (u : Program) where
  went :
      (k : ℕ) (x : Program)
      → some x ≡ some u
      → StageOk x.main x.first x.second x.log
      → work x < k
      → Went k u
  went k x e h l = subst (Went k) (some-eq-some x u e) (record { ok = h; less = l })

  -- A thread that is joined is over.
  join-Went :
      (k : ℕ) (w : Worker) (next : Main) (s : Program)
      → IsAround w
      → to_main (join w next) s ≡ some u
      → (w ≡ over → StageOk next s.first s.second s.log)
      → main_work next + worker_work s.first + worker_work s.second < k
      → Went k u
  join-Went k over next s h e f l = went k (record s { main = next }) e (f refl) l
  join-Went k absent next s h e f l = absurd h
  join-Went k freed next s h e f l = absurd h
  join-Went k spoilt next s h e f l = absurd h
  join-Went k printing next s h e f l = absurd (cc)
  join-Went k allocating next s h e f l = absurd (cc)
  join-Went k (filling true) next s h e f l = absurd (cc)
  join-Went k (filling false) next s h e f l = absurd h

  main_step-Went :
      (m : Main) (a b : Worker) (log : List Line)
      → StageOk m a b log
      → main_step true m (program m a b log) ≡ some u
      → Went (work (program m a b log)) u
  unfolding main_step
  main_step-Went creating1 a b log h e = went _ _ e (tt, h.1) (rw h.0 (omega arith))
  main_step-Went creating2 a b log h e = went _ _ e (h.0, tt) (rw h.1 (omega arith))
  main_step-Went joining1 a b log h e =
      join-Went _ a joining2 (program joining1 a b log) h.0 e (λ o. (o, h.1)) (omega arith)
  main_step-Went joining2 a b log h e =
      join-Went _ b showing1 (program joining2 a b log) h.1 e (λ o. (h.0, o)) (omega arith)
  main_step-Went showing1 a b log h e =
      went _ _ (rw h.0 at e) (refl, h.1, (refl, tt)) (rw h.0 (omega arith))
  main_step-Went showing2 a b log h e =
      went _ _ (rw h.1 at e) (h.0, refl, (refl, h.2)) (rw h.1 (omega arith))
  main_step-Went freeing1 a b log h e = went _ _ e (refl, h.1, h.2) (rw h.0 (omega arith))
  main_step-Went freeing2 a b log h e = went _ _ e (h.0, refl, h.2) (rw h.1 (omega arith))
  main_step-Went returned a b log h e = absurd (cc)
  main_step-Went undefined a b log h e = absurd h

-- A step of a thread that is at work: it stays around, and only its stage and the output change.
record Moved (a : Worker) (x : Worker × List Line) : Type 0 where
  around : IsAround x.0
  less : worker_work x.0 < worker_work a

worker_step-Moved :
    (num : ℕ) (a : Worker) (log : List Line) (x : Worker × List Line)
    → IsAround a
    → worker_step true num a log ≡ some x
    → Moved a x
unfolding worker_step
worker_step-Moved num printing log x h e =
    subst (Moved printing) (some-eq-some _ x e) (record { around = tt; less = omega arith })
worker_step-Moved num allocating log x h e =
    subst (Moved allocating) (some-eq-some _ x e) (record { around = tt; less = omega arith })
worker_step-Moved num (filling true) log x h e =
    subst (Moved (filling true)) (some-eq-some _ x e) (record { around = tt; less = omega arith })
worker_step-Moved num (filling false) log x h e = absurd h
worker_step-Moved num absent log x h e = absurd h
worker_step-Moved num over log x h e = absurd (cc)
worker_step-Moved num freed log x h e = absurd h
worker_step-Moved num spoilt log x h e = absurd h

module _ (a b : Worker) (log : List Line) (x : Worker × List Line)
    (e : worker_step true 1 a log ≡ some x) where
  at_stage1 :
      (m : Main) → StageOk m a b log → StageOk m x.0 b x.1 × (worker_work x.0 < worker_work a)
  unfolding worker_step
  at_stage1 creating1 h = absurd (cc (rw h.0 at e))
  at_stage1 creating2 h = (let v = worker_step-Moved 1 a log x h.0 e in ((v.around, h.1), v.less))
  at_stage1 joining1 h = (let v = worker_step-Moved 1 a log x h.0 e in ((v.around, h.1), v.less))
  at_stage1 joining2 h = absurd (cc (rw h.0 at e))
  at_stage1 showing1 h = absurd (cc (rw h.0 at e))
  at_stage1 showing2 h = absurd (cc (rw h.0 at e))
  at_stage1 freeing1 h = absurd (cc (rw h.0 at e))
  at_stage1 freeing2 h = absurd (cc (rw h.0 at e))
  at_stage1 returned h = absurd (cc (rw h.0 at e))
  at_stage1 undefined h = absurd h

module _ (a b : Worker) (log : List Line) (x : Worker × List Line)
    (e : worker_step true 2 b log ≡ some x) where
  at_stage2 :
      (m : Main) → StageOk m a b log → StageOk m a x.0 x.1 × (worker_work x.0 < worker_work b)
  unfolding worker_step
  at_stage2 creating1 h = absurd (cc (rw h.1 at e))
  at_stage2 creating2 h = absurd (cc (rw h.1 at e))
  at_stage2 joining1 h = (let v = worker_step-Moved 2 b log x h.1 e in ((h.0, v.around), v.less))
  at_stage2 joining2 h = (let v = worker_step-Moved 2 b log x h.1 e in ((h.0, v.around), v.less))
  at_stage2 showing1 h = absurd (cc (rw h.1 at e))
  at_stage2 showing2 h = absurd (cc (rw h.1 at e))
  at_stage2 freeing1 h = absurd (cc (rw h.1 at e))
  at_stage2 freeing2 h = absurd (cc (rw h.1 at e))
  at_stage2 returned h = absurd (cc (rw h.1 at e))
  at_stage2 undefined h = absurd h

pub turn-Went :
    (t : Actor) (m : Main) (a b : Worker) (log : List Line) (u : Program)
    → StageOk m a b log
    → turn true t (program m a b log) ≡ some u
    → Went (work (program m a b log)) u
unfolding turn
turn-Went main_thread m a b log u h e = main_step-Went u m a b log h e
turn-Went thread1 m a b log u h e = elim (Option-cases (worker_step true 1 a log)) [
  | inl n ↦ absurd (cc (rw n at e))
  | inr (x, q) ↦
      let (k, l) = at_stage1 a b log x q m h in
      went u _ (program m x.0 b x.1) (rw q at e) k (omega (arith, l))
]
turn-Went thread2 m a b log u h e = elim (Option-cases (worker_step true 2 b log)) [
  | inl n ↦ absurd (cc (rw n at e))
  | inr (x, q) ↦
      let (k, l) = at_stage2 a b log x q m h in
      went u _ (program m a x.0 x.1) (rw q at e) k (omega (arith, l))
]
