-- ===== src/Restaurant/Shared.antt =====
-- include/shared.h and src/shared.c: the shared memory block, its initialisation and its status
-- line. The tray and the three semaphores of one kind of food are one record `Tray`.
use linux_exercises.Base.{
  ℕ, zero, suc, ◌+◌, ◌*◌, get_elem?, Bool, true, false, Option, none, some, List, [], ◌∷◌, not,
  if◌then◌else◌, replicate,
}

abbrev pub tray_size : ℕ
tray_size = 10

-- `food_type_t`
pub data Food : Type 0 where
  empty vegan non_vegan : Food

-- `==` on `food_type_t`
abbrev pub same_food : Food → Food → Bool
same_food empty empty = true
same_food vegan vegan = true
same_food non_vegan non_vegan = true
same_food _ _ = false

-- Which half of the shared block: the `vegan_` fields or the `non` ones.
pub data Kind : Type 0 where
  veg non : Kind

pub record Tray : Type 0 where
  pub slots : List Food
  pub mutex : ℕ
  pub empty : ℕ
  pub full : ℕ

-- `shared_data_t`
pub record SharedData : Type 0 where
  pub vegan : Tray
  pub non : Tray

abbrev pub init_tray : Tray
init_tray = record {
  slots = replicate tray_size Food.empty;
  mutex = 1;
  empty = tray_size;
  full = 0;
}

-- The arguments say whether `shm_open`, `ftruncate` and `mmap` succeed; `none` is `exit(1)`.
unfoldable pub init_shared_memory : (opened truncated mapped : Bool) → Option SharedData
init_shared_memory opened truncated mapped =
    if not opened
    then none
    else if not truncated
    then none
    else if not mapped
    then none
    else some (record { vegan = init_tray; non = init_tray })

-- The dishes on a tray.
abbrev pub filled : List Food → ℕ
filled [] = 0
filled (x ∷ xs) = if same_food x Food.empty then filled xs else suc (filled xs)

-- The loop of `print_tray_status`, from slot `i` on. It takes no lock: `seen k` is the memory as it
-- is at the read number `k`, and each slot is read by itself.
abbrev pub count_slot : Option Food → ℕ → ℕ
count_slot none n = n
count_slot (some x) n = if same_food x Food.empty then n else suc n

unfoldable pub status_loop : (left i : ℕ) → (seen : ℕ → SharedData) → ℕ × ℕ → ℕ × ℕ
status_loop zero i seen (v, n) = (v, n)
status_loop (suc k) i seen (v, n) = status_loop k (i + 1) seen (
  count_slot (get_elem? (seen (2 * i)).vegan.slots i) v,
  count_slot (get_elem? (seen (2 * i + 1)).non.slots i) n,
)

-- The two counts that the status line prints.
unfoldable pub print_tray_status : (seen : ℕ → SharedData) → ℕ × ℕ
print_tray_status seen = status_loop tray_size 0 seen (0, 0)

-- `sem_wait` on a counter; `none` where the caller blocks.
abbrev pub sem_wait : ℕ → Option ℕ
sem_wait zero = none
sem_wait (suc n) = some n

abbrev pub sem_post : ℕ → ℕ
sem_post n = suc n
