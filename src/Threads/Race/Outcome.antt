-- ===== src/Threads/Race/Outcome.antt =====
-- What ex2_race_condition_mutx.c prints.
use linux_exercises.Base.{
  ℕ, ◌+◌, ◌-◌, ◌*◌, ◌<◌, ◌≤◌, ◌≡◌, ◌↔◌, inl, inr, Bool-cases, refl, subst, arith, leb,
}
use linux_exercises.Threads.Race.{Race, printed, Reach, increments, num_threads}
use linux_exercises.Threads.Race.Stages.{StageOk, Reach-RaceInv}
use linux_exercises.Threads.Race.Schedule.{Reach-printed, Reach-lost}

-- The increments that get lost, over three threads.
split :
    (l : ℕ)
    → l + 2 ≤ num_threads * increments
    → (x : ℕ) × (y : ℕ) × (z : ℕ) × (x ≤ increments)
      × (y < increments)
      × (z < increments)
      × (x + y + z ≡ l)
split l h = elim (Bool-cases (leb l increments)) [
  | inl a ↦ (l, 0, 0, ground (arith, a), omega arith, omega arith, omega arith)
  | inr a ↦ elim (Bool-cases (leb l (2 * increments - 1))) [
    | inl b ↦ (
      increments,
      l - increments,
      0,
      omega arith,
      ground (arith, a, b),
      omega arith,
      ground (arith, a),
    )
    | inr b ↦ (
      increments,
      increments - 1,
      l - (2 * increments - 1),
      omega arith,
      omega arith,
      ground (arith, b, h),
      ground (arith, b),
    )
  ]
]

-- What ex2_race_condition_mutx.c can print is exactly the numbers from 2 to 3000000: whatever the
-- order of the loads and stores of its threads, it prints such a number if it prints any, and
-- each of them is printed in some order.
pub printed_iff :
    (v : ℕ)
    → ((r : Race) × Reach r × (r.stage ≡ printed v)) ↔ ((2 ≤ v) × (v ≤ num_threads * increments))
printed_iff v = (
  λ (r, h, e). subst (λ s. StageOk s r) e (Reach-RaceInv h).stage_ok,
  λ (l, u).
      let (x, y, z, p, q, s, e) = split (num_threads * increments - v) (omega (arith, l, u)) in
      (_, Reach-printed v (Reach-lost x y z p q s v (omega (arith, l, u, e))), refl),
)
