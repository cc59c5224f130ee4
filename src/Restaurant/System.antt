-- ===== src/Restaurant/System.antt =====
-- The five endless processes of app/main.c as interleaved steps. A step is one semaphore call or
-- one run of the scanning loop, which stands between the two calls on the mutex. `sleep`, `printf`
-- and the choice of a dish's name change no shared state and are left out.
use linux_exercises.Base.{ℕ, Bool, Option, none, some, List, [], ◌∷◌, ◌≡◌, ◌>>=◌, get_elem?, set}
use linux_exercises.Restaurant.Shared.{Food, Kind, veg, non, Tray, SharedData}
use linux_exercises.Restaurant.Dishes.{
  wait_empty, wait_full, wait_mutex, post_empty, post_full, post_mutex, scan,
}

abbrev pub food : Kind → Food
food veg = Food.vegan
food non = Food.non_vegan

abbrev pub other : Kind → Kind
other veg = non
other non = veg

-- How far a round has come: at its head, past the first `sem_wait`, past the second, past the loop
-- with its `success`, past the `sem_post` of the mutex.
pub data Stage : Type 0 where
  head reserved locked : Stage
  scanned unlocked : Bool → Stage

-- One step of `chef_vegan` or `chef_nonvegan`.
unfoldable pub cook_step : Kind → Tray → Stage → Option (Tray × Stage)
cook_step k t head = do t ← wait_empty t; some (t, reserved)
cook_step k t reserved = do t ← wait_mutex t; some (t, locked)
cook_step k t locked = let r = scan Food.empty (food k) t in some (r.0, scanned r.1)
cook_step k t (scanned b) = some (post_mutex t, unlocked b)
cook_step k t (unlocked b) = some (post_full t, head)

-- One step of `eat_vegan_once` or `eat_nonvegan_once`.
unfoldable pub eat_step : Kind → Tray → Stage → Option (Tray × Stage)
eat_step k t head = do t ← wait_full t; some (t, reserved)
eat_step k t reserved = do t ← wait_mutex t; some (t, locked)
eat_step k t locked = let r = scan (food k) Food.empty t in some (r.0, scanned r.1)
eat_step k t (scanned b) = some (post_mutex t, unlocked b)
eat_step k t (unlocked b) = some (post_empty t, head)

-- A chef, a customer of one kind, or the hybrid customer, which eats of both kinds in turn.
pub data Process : Type 0 where
  chef customer hybrid : Kind → Stage → Process

-- After a meal `customer_hybrid` goes on with the other kind.
abbrev pub hybrid_next : Kind → Stage → Process
hybrid_next k head = hybrid (other k) head
hybrid_next k s = hybrid k s

abbrev pub tray : Kind → SharedData → Tray
tray veg d = d.vegan
tray non d = d.non

abbrev pub set_tray : Kind → Tray → SharedData → SharedData
set_tray veg t d = record d { vegan = t }
set_tray non t d = record d { non = t }

-- One step of a process; `none` while it is blocked.
unfoldable pub step : SharedData → Process → Option (SharedData × Process)
step d (chef k s) = do (t, s') ← cook_step k (tray k d) s; some (set_tray k t d, chef k s')
step d (customer k s) = do (t, s') ← eat_step k (tray k d) s; some (set_tray k t d, customer k s')
step d (hybrid k s) = do (t, s') ← eat_step k (tray k d) s; some (set_tray k t d, hybrid_next k s')

pub record System : Type 0 where
  pub shared : SharedData
  pub procs : List Process

-- The scheduler lets process `i` take a step.
unfoldable pub turn : ℕ → System → Option System
turn i s = do
  p ← get_elem? s.procs i
  (d, p') ← step s.shared p
  some (record { shared = d; procs = set s.procs i p' })

-- What `main` has forked, in its order, before any of them runs.
abbrev pub forked : List Process
forked =
    chef non head ∷ chef veg head ∷ customer non head ∷ customer veg head ∷ hybrid veg head ∷ []

abbrev pub start_of : SharedData → System
start_of d = record { shared = d; procs = forked }

pub data Reach (s : System) : System → Type 0 where
  here : Reach s s
  later : {t u : System} → Reach s t → (i : ℕ) → turn i t ≡ some u → Reach s u

-- A schedule, in which a blocked process's turn is passed over.
unfoldable pub run : List ℕ → System → System
run [] s = s
run (i ∷ is) s = run is (elim (turn i s) [ none ↦ s | some s' ↦ s' ])
