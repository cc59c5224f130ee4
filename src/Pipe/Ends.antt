-- ===== src/Pipe/Ends.antt =====
-- Who holds the ends of the pipe.
use linux_exercises.Base.{
  List, [], ◌∷◌, ◌++◌, ℕ, zero, suc, ◌≡◌, ◌≢◌, refl, true, none, some, arith, ◌==◌, if◌then◌else◌,
  ap, sym, ◌∙◌,
}
use mathlib.Core.Option.{none-ne-some}
use linux_exercises.Pipe.Table.{
  Table, File, read_end, write_end, pipe, close, dup2, assign, stdin, stdout,
}
use linux_exercises.Pipe.Shell.{
  Status, exited, signalled, Line, ls_exited, wc_exited, report, wait_children, Calls, goes_on,
  first_child, second_child, Shell, shell_main,
}

-- Every call succeeds, and the pipe has these descriptors.
abbrev pub working : (r w pid1 pid2 : ℕ) → (a b : Status) → Calls
working r w pid1 pid2 a b = record {
  ends = some (r, w);
  child1 = some pid1;
  child2 = some pid2;
  dup1_ok = true;
  dup2_ok = true;
  exec1_ok = true;
  exec2_ok = true;
  status1 = some a;
  status2 = some b;
}

-- The processes as they go on.
abbrev pub running : (parent first second : Table) → List Line → Shell
running parent first second lines = record {
  reports = some lines;
  parent = goes_on parent;
  first = some (goes_on first);
  second = some (goes_on second);
}

-- What is to be reported of a child: its exit code, unless that is 0 or a signal has ended it.
abbrev pub told : (ℕ → Line) → Status → List Line
told line signalled = []
told line (exited code) = if code == 0 then [] else line code ∷ []

report-told : (line : ℕ → Line) (s : Status) → report line s ≡ told line s
report-told line (exited zero) = refl
report-told line (exited (suc code)) = ground arith
report-told line signalled = refl

module _ (r w : ℕ) (t : Table) (fd : ℕ) where
  parent_table : t r ≡ none → t w ≡ none → r ≢ w → close (close (pipe t r w) r) w fd ≡ t fd
  unfolding pipe close assign
  parent_table er ew ne = ground arith

  first_table :
      t r ≡ none
      → t w ≡ none
      → r ≢ w
      → r ≢ stdout
      → w ≢ stdout
      → close (dup2 (close (pipe t r w) r) w stdout) w fd
        ≡ (if fd == stdout then some write_end else t fd)
  unfolding pipe close assign dup2
  first_table er ew ne r1 w1 = ground arith

  second_table :
      t r ≡ none
      → t w ≡ none
      → r ≢ w
      → r ≢ stdin
      → w ≢ stdin
      → close (dup2 (close (pipe t r w) w) r stdin) r fd
        ≡ (if fd == stdin then some read_end else t fd)
  unfolding pipe close assign dup2
  second_table er ew ne r1 w1 = ground arith

other_than : (t : Table) {f : File} {p q : ℕ} → t p ≡ none → t q ≡ some f → p ≢ q
other_than t {f} e o same = none-ne-some f (sym e ∙ ap t same ∙ o)

-- Started with standard input and output open, and with every call successful, ex1_pipe.c waits
-- with just the descriptors that it was started with, ls runs with the same but the pipe's write
-- end as standard output, and wc with the same but the read end as standard input; once both have
-- ended, the exit code of ls and that of wc are reported, in this order, each where the program
-- ended by itself and the code is not 0.
pub pipe_tables :
    (r w pid1 pid2 : ℕ) (x y : Status) (t : Table) {a b : File}
    → t r ≡ none
    → t w ≡ none
    → r ≢ w
    → t stdin ≡ some a
    → t stdout ≡ some b
    → (parent : Table) × (first : Table) × (second : Table) × (shell_main
          (working r w pid1 pid2 x y)
          t
        ≡ running parent first second (told ls_exited x ++ told wc_exited y))
      × ((fd : ℕ)
          → (parent fd ≡ t fd)
            × (first fd ≡ (if fd == stdout then some write_end else t fd))
            × (second fd ≡ (if fd == stdin then some read_end else t fd)))
unfolding shell_main first_child second_child wait_children
pipe_tables r w pid1 pid2 x y t er ew ne i o = (
  close (close (pipe t r w) r) w,
  close (dup2 (close (pipe t r w) r) w stdout) w,
  close (dup2 (close (pipe t r w) w) r stdin) r,
  rw (report-told ls_exited x, report-told wc_exited y) refl,
  λ fd. (
    parent_table r w t fd er ew ne,
    first_table r w t fd er ew ne (other_than t er o) (other_than t ew o),
    second_table r w t fd er ew ne (other_than t er i) (other_than t ew i),
  ),
)
