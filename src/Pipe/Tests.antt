-- ===== src/Pipe/Tests.antt =====
-- The theorem at a program that is started from a terminal.
use linux_exercises.Base.{◌++◌, ℕ, ◌≡◌, refl, none, some, arith, ◌==◌, if◌then◌else◌, ltb}
use linux_exercises.Pipe.Table.{Table, inherited, read_end, write_end, stdin, stdout}
use linux_exercises.Pipe.Shell.{exited, ls_exited, wc_exited, shell_main}
use linux_exercises.Pipe.Ends.{working, running, told, pipe_tables}

-- Standard input, output and error are the terminal.
terminal : Table
terminal fd = if ltb fd 3 then some (inherited 7) else none

pipe_tables_example :
    (parent : Table) × (first : Table) × (second : Table) × (shell_main
        (working 3 4 100 101 (exited 2) (exited 0))
        terminal
      ≡ running parent first second (told ls_exited (exited 2) ++ told wc_exited (exited 0)))
    × ((fd : ℕ)
        → (parent fd ≡ terminal fd)
          × (first fd ≡ (if fd == stdout then some write_end else terminal fd))
          × (second fd ≡ (if fd == stdin then some read_end else terminal fd)))
unfolding terminal
pipe_tables_example =
    pipe_tables 3 4 100 101 (exited 2) (exited 0) terminal refl refl (λ e. omega (arith, e)) refl
      refl
