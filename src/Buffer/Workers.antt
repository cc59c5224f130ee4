-- ===== src/Buffer/Workers.antt =====
-- The threads of nConsumer.c. A turn of a thread runs from the moment it has the lock (after
-- `pthread_mutex_lock`, or back from `pthread_cond_wait`) to the moment it gives it up.
use linux_exercises.Base.{
  ℕ, suc, ◌*◌, ◌/◌, ◌%◌, ◌≡◌, Bool, Option, none, some, List, [], ◌∷◌, ◌++◌, ◌==◌, ltb,
  if◌then◌else◌, get_elem?, set, total, ◌>>=◌,
}
use linux_exercises.Buffer.Ring.{Ring, empty_ring, buffer_size, insert, take_out}

pub data Role : Type 0 where
  producer : Role
  consumer : Role

-- A thread with its loop counter; an `asleep` one waits on its condition variable, `cond_full` for
-- a producer and `cond_empty` for a consumer.
pub data Thread : Type 0 where
  awake : Role → ℕ → Thread
  asleep : Role → ℕ → Thread

abbrev pub num_producers : ℕ
num_producers = 2

abbrev pub num_consumers : ℕ
num_consumers = 3

abbrev pub num_items : ℕ
num_items = 10

-- The bound of the thread's `for` loop.
abbrev pub limit : Role → ℕ
limit producer = num_items
limit consumer = (num_producers * num_items) / num_consumers

abbrev pub partner : Role → Role
partner producer = consumer
partner consumer = producer

-- The program's state, with every item laid down so far and every item taken, oldest first.
pub record Plant : Type 0 where
  pub ring : Ring
  pub threads : List Thread
  pub made : List ℕ
  pub used : List ℕ

-- The test of the `while` loop around `pthread_cond_wait`.
abbrev pub must_wait : Role → Ring → Bool
must_wait producer r = r.count == buffer_size
must_wait consumer r = r.count == 0

-- The number, if the roles are the same.
abbrev pub pick : Role → Role → ℕ → ℕ
pick producer producer n = n
pick producer consumer n = 0
pick consumer producer n = 0
pick consumer consumer n = n

abbrev pub is_asleep : Role → Thread → ℕ
is_asleep r (awake s i) = 0
is_asleep r (asleep s i) = pick r s 1

abbrev pub wake : Thread → Thread
wake (awake r i) = awake r i
wake (asleep r i) = awake r i

abbrev pub wake_at : Role → ℕ → List Thread → Thread → Option (List Thread)
wake_at r w ts t = if is_asleep r t == 0 then none else some (set ts w (wake t))

-- `pthread_cond_signal` wakes the thread at the place `w`, which must be one that waits there; it
-- does nothing if none does.
unfoldable pub signal : Role → ℕ → List Thread → Option (List Thread)
signal r w ts = if total (is_asleep r) ts == 0 then some ts else (get_elem? ts w >>= wake_at r w ts)

-- The body of the loop after the wait.
unfoldable pub work : Role → ℕ → Plant → Plant
work producer x p = record p { ring = insert (x % 100) p.ring; made = p.made ++ (x % 100 ∷ []) }
work consumer x p = record p {
  ring = (take_out p.ring).1;
  used = p.used ++ ((take_out p.ring).0 ∷ []);
}

abbrev pub act : Role → ℕ → ℕ → ℕ → ℕ → Plant → Option Plant
act r i j w x p = do
  ts ← signal (partner r) w (set p.threads j (awake r (suc i)))
  some (record (work r x p) { threads = ts })

abbrev pub turn_of : ℕ → ℕ → ℕ → Plant → Thread → Option Plant
turn_of j w x p (awake r i) =
    if ltb i (limit r)
    then (if must_wait r p.ring
        then some (record p { threads = set p.threads j (asleep r i) })
        else act r i j w x p)
    else none
turn_of j w x p (asleep r i) = some (record p { threads = set p.threads j (awake r i) })

-- A turn of thread `j`, where `rand` gives `x` and a signal goes to thread `w`. A waiting thread may
-- wake up without a signal; a thread whose loop is over has no turn.
unfoldable pub turn : ℕ → ℕ → ℕ → Plant → Option Plant
turn j w x p = get_elem? p.threads j >>= turn_of j w x p

-- The threads that `main` creates.
abbrev pub start : Plant
start = record {
  ring = empty_ring;
  threads =
      awake producer 0
      ∷ awake producer 0
      ∷ awake consumer 0
      ∷ awake consumer 0
      ∷ awake consumer 0
      ∷ [];
  made = [];
  used = [];
}

-- The states that some order of turns leads to.
pub data Reach (p : Plant) : Plant → Type 0 where
  here : Reach p p
  later : {a b : Plant} → Reach p a → (j w x : ℕ) → turn j w x a ≡ some b → Reach p b
