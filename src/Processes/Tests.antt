-- ===== src/Processes/Tests.antt =====
-- The theorem at a run of exec.c.
use linux_exercises.Base.{Steps, here, later, CanStep, ◌≤◌, ◌⊎◌, refl, true, false, some, [], ◌∷◌}
use linux_exercises.Processes.Family.{
  exited, status_is, parent_here, will_run, child_here, gone, Family, parent_step, child_step, turn,
}
use linux_exercises.Processes.Programs.{Program, exec_c, exec_child, child_of, parent_of, start}
use linux_exercises.Processes.Outcome.{AllOver, programs_end}

-- The command ends with code 2.
abbrev ls_fails : Program
ls_fails = exec_c true (some (exited 2))

abbrev over : Family
over = record {
  parent = gone;
  child = gone;
  log = status_is 2 ∷ will_run ∷ parent_here ∷ child_here ∷ [];
}

over-Steps : Steps turn (start ls_fails) 6 over
unfolding turn parent_step child_step parent_of child_of exec_child
over-Steps =
    let a = later here false refl in
    let b = later a true refl in
    let c = later b false refl in
    let d = later c false refl in let e = later d true refl in later e true refl

programs_end_example : (6 ≤ 9) × (CanStep turn over ⊎ AllOver ls_fails over)
programs_end_example = programs_end ls_fails over-Steps
