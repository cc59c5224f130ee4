-- ===== src/Pipe/Table.antt =====
-- The descriptors of a process, and the calls that change them.
use linux_exercises.Base.{ℕ, Option, none, some, ◌==◌, if◌then◌else◌}

-- What a descriptor stands for: an end of the pipe, or a file of the shell that starts the program.
pub data File : Type 0 where
  read_end write_end : File
  inherited : (name : ℕ) → File

abbrev pub Table : Type 0
Table = ℕ → Option File

unfoldable pub assign : Table → (fd : ℕ) → Option File → Table
assign t fd f g = if g == fd then f else t g

-- `pipe` gives two descriptors that are not in use.
unfoldable pub pipe : Table → (r w : ℕ) → Table
unfolding assign
pipe t r w = assign (assign t r (some read_end)) w (some write_end)

unfoldable pub close : Table → (fd : ℕ) → Table
unfolding assign
close t fd = assign t fd none

unfoldable pub dup2 : Table → (old new : ℕ) → Table
unfolding assign
dup2 t old new = assign t new (t old)

abbrev pub stdin : ℕ
stdin = 0

abbrev pub stdout : ℕ
stdout = 1
