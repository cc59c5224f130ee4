-- ===== src/Buffer/Tests.antt =====
-- The theorems at concrete runs.
use linux_exercises.Base.{
  ◌⊎◌, ℕ, ◌+◌, ◌≡◌, refl, none, some, Option-cases, inl, inr, List, [], ◌∷◌, ◌++◌, arith, get_elem?,
}
use linux_exercises.Buffer.Ring.{
  empty_ring, insert, take_out, Shows, empty_ring-Shows, insert-Shows,
}
use linux_exercises.Buffer.Workers.{
  Role, Plant, awake, producer, consumer, start, signal, work, turn, Reach, here, later,
}
use linux_exercises.Buffer.Tally.{lefts}
use linux_exercises.Buffer.Invariant.{InOrder}
use linux_exercises.Buffer.Outcome.{Reach-InOrder, threads_progress, AllOver}

one-Shows : Shows (insert 8 empty_ring) (8 ∷ [])
one-Shows = insert-Shows empty_ring [] 8 empty_ring-Shows (omega arith)

-- A schedule, in which a thread that has no turn is passed over.
run : List ℕ → Plant → Plant
run [] p = p
run (j ∷ js) p = run js (elim (turn j 0 (j + 7) p) [ none ↦ p | some q ↦ q ])

run-Reach : (js : List ℕ) (p : Plant) → Reach start p → Reach start (run js p)
unfolding run
run-Reach [] p r = r
run-Reach (j ∷ js) p r = elim (Option-cases (turn j 0 (j + 7) p)) [
  | inl e ↦ rw e (run-Reach js p r)
  | inr (q, e) ↦ rw e (run-Reach js q (later r j 0 (j + 7) e))
]

-- Six items are laid down and taken.
abbrev six : List ℕ
six = 0 ∷ 1 ∷ 2 ∷ 3 ∷ 0 ∷ 1 ∷ 4 ∷ 2 ∷ 0 ∷ 1 ∷ 3 ∷ 4 ∷ []

abbrev all_turns : List ℕ
all_turns = six ++ six ++ six ++ (0 ∷ 1 ∷ [])

ended : Plant
ended = run all_turns start

ended-Reach : Reach start ended
unfolding ended
ended-Reach = run-Reach all_turns start here

producers_done : lefts producer ended.threads ≡ 0
unfolding ended run turn signal work insert take_out
producers_done = refl

consumers_done : lefts consumer ended.threads ≡ 0
unfolding ended run turn signal work insert take_out
consumers_done = refl

Reach-InOrder_example : InOrder ended
Reach-InOrder_example = Reach-InOrder ended-Reach

threads_progress_example :
    ((j i : ℕ) × (r : Role) × (get_elem? ended.threads j ≡ some (awake r i))
      × ((x : ℕ) → (w : ℕ) × (p' : Plant) × (turn j w x ended ≡ some p')))
    ⊎ AllOver ended
threads_progress_example = threads_progress ended-Reach
