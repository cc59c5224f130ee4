-- ===== src/Pipe/Shell.antt =====
-- `main`: the two children that exec, and the parent that waits for them.
use linux_exercises.Base.{ℕ, zero, suc, Bool, true, false, Option, none, some, List, [], ◌∷◌, ◌++◌}
use linux_exercises.Pipe.Table.{Table, pipe, close, dup2, stdin, stdout}

-- How a child has ended.
pub data Status : Type 0 where
  exited : (code : ℕ) → Status
  signalled : Status

-- What `pipe`, the two `fork`s, the two `dup2`s, the two `execlp`s and the two `waitpid`s return.
pub record Calls : Type 0 where
  pub ends : Option (ℕ × ℕ)
  pub child1 : Option ℕ
  pub child2 : Option ℕ
  pub dup1_ok : Bool
  pub dup2_ok : Bool
  pub exec1_ok : Bool
  pub exec2_ok : Bool
  pub status1 : Option Status
  pub status2 : Option Status

-- What becomes of a process: it has ended with EXIT_FAILURE, or goes on with these descriptors, as
-- another program if it is a child.
pub data Process : Type 0 where
  dead : Process
  goes_on : Table → Process

-- The first child.
unfoldable pub first_child : (dup_ok exec_ok : Bool) → (r w : ℕ) → Table → Process
first_child false exec_ok r w t = dead
first_child true false r w t = dead
first_child true true r w t = goes_on (close (dup2 (close t r) w stdout) w)

-- The second.
unfoldable pub second_child : (dup_ok exec_ok : Bool) → (r w : ℕ) → Table → Process
second_child false exec_ok r w t = dead
second_child true false r w t = dead
second_child true true r w t = goes_on (close (dup2 (close t w) r stdin) r)

pub data Line : Type 0 where
  ls_exited wc_exited : (code : ℕ) → Line

-- `if(WIFEXITED(st) && WEXITSTATUS(st) != 0) fprintf(...)`
abbrev pub report : (ℕ → Line) → Status → List Line
report line (exited zero) = []
report line (exited (suc code)) = line (suc code) ∷ []
report line signalled = []

-- The parent from its first `waitpid` on: what it reports, or `none` for EXIT_FAILURE.
unfoldable pub wait_children : (status1 status2 : Option Status) → Option (List Line)
wait_children none s = none
wait_children (some a) none = none
wait_children (some a) (some b) = some (report ls_exited a ++ report wc_exited b)

-- The processes once the children have come past their `execlp` and the parent to its `waitpid`s, and
-- what the parent reports after these.
pub record Shell : Type 0 where
  pub reports : Option (List Line)
  pub parent : Process
  pub first : Option Process
  pub second : Option Process

abbrev pub fork_second : Option ℕ → Calls → (r w : ℕ) → Table → Shell
fork_second none c r w t = record {
  reports = none;
  parent = dead;
  first = some (first_child c.dup1_ok c.exec1_ok r w t);
  second = none;
}
fork_second (some pid) c r w t = record {
  reports = wait_children c.status1 c.status2;
  parent = goes_on (close (close t r) w);
  first = some (first_child c.dup1_ok c.exec1_ok r w t);
  second = some (second_child c.dup2_ok c.exec2_ok r w t);
}

abbrev pub fork_first : Option ℕ → Calls → (r w : ℕ) → Table → Shell
fork_first none c r w t = record { reports = none; parent = dead; first = none; second = none }
fork_first (some pid) c r w t = fork_second c.child2 c r w t

abbrev pub with_pipe : Option (ℕ × ℕ) → Calls → Table → Shell
with_pipe none c t = record { reports = none; parent = dead; first = none; second = none }
with_pipe (some (r, w)) c t = fork_first c.child1 c r w (pipe t r w)

-- `main`, on the descriptors that it is started with.
unfoldable pub shell_main : Calls → Table → Shell
shell_main c t = with_pipe c.ends c t
