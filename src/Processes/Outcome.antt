-- ===== src/Processes/Outcome.antt =====
-- How the programs of S3_Process end.
use linux_exercises.Base.{
  Steps, CanStep, Steps-work, ℕ, ◌+◌, ◌≤◌, ◌≡◌, ◌⊎◌, inl, inr, refl, Bool, true, false, none, some,
  List, [], ◌∷◌, arith,
}
use linux_exercises.Processes.Family.{
  Status, exited, Line, Act, says, says_parent, sleeps, waits, ends, runs, Process, alive, zombie,
  gone, Family, parent_step, child_step, turn,
}
use linux_exercises.Processes.Programs.{
  Program, fork_c, orphan_c, zombie_c, exec_c, exec_child, child_of, parent_of, start,
}
use linux_exercises.Processes.Invariant.{IsReported, FamilyOk, to_do, family, turn-Went}

-- How the child of a program ends, and whether the parent waits for it.
unfoldable pub end_of : Program → Status
end_of fork_c = exited 10
end_of (exec_c true (some st)) = st
end_of (exec_c variable command) = exited 1
end_of orphan_c = exited 0
end_of zombie_c = exited 0

unfoldable pub waited : Program → Bool
waited fork_c = true
waited (exec_c variable command) = true
waited _ = false

start-ok :
    (m : Program) → FamilyOk (end_of m) (waited m) (alive (parent_of m)) (alive (child_of m)) []
unfolding end_of waited parent_of child_of exec_child
start-ok fork_c = (refl, refl, tt)
start-ok (exec_c true (some st)) = (refl, refl, tt)
start-ok (exec_c true none) = (refl, refl, tt)
start-ok (exec_c false command) = (refl, refl, tt)
start-ok orphan_c = (refl, refl, tt)
start-ok zombie_c = (refl, refl, tt)

start-le : (m : Program) → to_do (alive (parent_of m)) + to_do (alive (child_of m)) ≤ 9
unfolding parent_of child_of exec_child
start-le fork_c = omega arith
start-le (exec_c true (some st)) = omega arith
start-le (exec_c true none) = omega arith
start-le (exec_c false command) = omega arith
start-le orphan_c = omega arith
start-le zombie_c = omega arith

abbrev OkFor : Program → Family → Type 0
OkFor m f = FamilyOk (end_of m) (waited m) f.parent f.child f.log

Steps-OkFor : (m : Program) {n : ℕ} {f : Family} → Steps turn (start m) n f → OkFor m f × (n ≤ 9)
Steps-OkFor m r =
    let (v, b) =
      Steps-work turn (OkFor m) (λ f. to_do f.parent + to_do f.child)
        (λ t f g h e.
          let w = turn-Went (end_of m) (waited m) g t f.parent f.child f.log h e in (w.ok, w.less))
        (start-ok m) r in
    (v, omega (arith, b, start-le m))

child_can : (cs : List Act) (f : Family) → (g : Family) × (child_step cs f ≡ some g)
unfolding child_step
child_can [] f = (_, refl)
child_can (says l ∷ cs) f = (_, refl)
child_can (says_parent ∷ cs) f = (_, refl)
child_can (sleeps ∷ cs) f = (_, refl)
child_can (waits ∷ cs) f = (_, refl)
child_can (ends code ∷ cs) f = (_, refl)
child_can (runs st ∷ cs) f = (_, refl)

-- A parent waits for its child only.
parent_can :
    (ps : List Act) (c : Process) (log : List Line) → CanStep turn (family (alive ps) c log)
unfolding turn parent_step
parent_can [] c log = (true, _, refl)
parent_can (says l ∷ ps) c log = (true, _, refl)
parent_can (says_parent ∷ ps) c log = (true, _, refl)
parent_can (sleeps ∷ ps) c log = (true, _, refl)
parent_can (waits ∷ ps) (alive cs) log =
    let (g, e) = child_can cs (family (alive (waits ∷ ps)) (alive cs) log) in (false, g, e)
parent_can (waits ∷ ps) (zombie x) log = (true, _, refl)
parent_can (waits ∷ ps) gone log = (true, _, refl)
parent_can (ends code ∷ ps) c log = (true, _, refl)
parent_can (runs st ∷ ps) c log = (true, _, refl)

-- Both are gone, and a parent that waits has reported how its child ended.
abbrev pub AllOver : Program → Family → Type 0
AllOver m f = (f.parent ≡ gone) × (f.child ≡ gone) × (waited m ≡ true → IsReported (end_of m) f.log)

goes_on :
    (m : Program) (p c : Process) (log : List Line)
    → FamilyOk (end_of m) (waited m) p c log
    → CanStep turn (family p c log) ⊎ AllOver m (family p c log)
unfolding turn
goes_on m (alive ps) c log h = inl (parent_can ps c log)
goes_on m (zombie x) c log h = absurd h
goes_on m gone (alive cs) log h =
    let (g, e) = child_can cs (family gone (alive cs) log) in inl (false, g, e)
goes_on m gone (zombie x) log h = absurd h
goes_on m gone gone log h = inr (refl, refl, h)

-- Each program of S3_Process, once it has forked, makes at most nine steps, in whatever order
-- parent and child make them, and can go on until both are gone; then the latest line of fork.c
-- is the report of code 10, and that of exec.c the report of the code of the command, where no
-- signal ends it, or of 1 where getenv or execl fails.
pub programs_end :
    (m : Program) {n : ℕ} {f : Family}
    → Steps turn (start m) n f
    → (n ≤ 9) × (CanStep turn f ⊎ AllOver m f)
programs_end m {n} {f} r = let (v, b) = Steps-OkFor m r in (b, goes_on m f.parent f.child f.log v)
