-- ===== src/Threads/RwLock.antt =====
-- S4_Thread/ex4_rw_lock.c: readers and writers of one number under a read-write lock.
use linux_exercises.Base.{
  ℕ, suc, ◌+◌, ◌-◌, ◌&&◌, Option, none, some, List, [], ◌∷◌, ◌++◌, ◌==◌, ltb, if◌then◌else◌,
  get_elem?, set, replicate, ◌>>=◌, ◌≡◌,
}

abbrev pub num_thread_read : ℕ
num_thread_read = 5

abbrev pub num_thread_write : ℕ
num_thread_write = 2

abbrev pub num_iterations : ℕ
num_iterations = 5

-- A thread with its loop counter, outside the lock or inside it.
pub data Thread : Type 0 where
  reader reading writer writing : (i : ℕ) → Thread

-- The lock: how many hold it to read, how many to write. `seen` is what the readers have printed,
-- the latest first.
pub record Shared : Type 0 where
  pub rd : ℕ
  pub wr : ℕ
  pub data_ : ℕ
  pub seen : List ℕ

-- One step of `read_function` or `write_function`: it takes the lock, or, inside, does its work and
-- gives the lock up. `none` is a thread that waits for the lock or whose loop is over.
unfoldable pub step : Shared → Thread → Option (Shared × Thread)
step s (reader i) =
    if ltb i num_iterations && s.wr == 0 then some (record s { rd = s.rd + 1 }, reading i) else none
step s (reading i) = some (record s { rd = s.rd - 1; seen = s.data_ ∷ s.seen }, reader (suc i))
step s (writer i) =
    if ltb i num_iterations && (s.wr == 0 && s.rd == 0)
    then some (record s { wr = s.wr + 1 }, writing i)
    else none
step s (writing i) = some (record s { wr = s.wr - 1; data_ = s.data_ + 1 }, writer (suc i))

pub record System : Type 0 where
  pub shared : Shared
  pub threads : List Thread

-- The scheduler gives thread `j` a step.
unfoldable pub turn : ℕ → System → Option System
turn j s = do
  t ← get_elem? s.threads j
  (d, t') ← step s.shared t
  some (record { shared = d; threads = set s.threads j t' })

-- The threads that `main` creates.
abbrev pub start : System
start = record {
  shared = record { rd = 0; wr = 0; data_ = 5; seen = [] };
  threads = replicate num_thread_read (reader 0) ++ replicate num_thread_write (writer 0);
}

pub data Reach (s : System) : System → Type 0 where
  here : Reach s s
  later : {t u : System} → Reach s t → (j : ℕ) → turn j t ≡ some u → Reach s u
