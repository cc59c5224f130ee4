-- ===== src/Restaurant/Dishes.antt =====
-- The one-shot operations of src/chef.c and src/consumer.c, each run to its end by one process;
-- `none` where it blocks on a semaphore.
use linux_exercises.Base.{Bool, true, false, Option, some, List, [], ◌∷◌, if◌then◌else◌, ◌>>=◌}
use linux_exercises.Restaurant.Shared.{Food, same_food, Tray, SharedData, sem_wait, sem_post}

-- `for (i = 0; i < TRAY_SIZE; i++) if (tray[i] == from) { tray[i] = to; success = 1; break; }`
unfoldable pub replace_first : (from to : Food) → List Food → List Food × Bool
replace_first from to [] = ([], false)
replace_first from to (x ∷ xs) =
    let rest = replace_first from to xs in
    if same_food x from then (to ∷ xs, true) else (x ∷ rest.0, rest.1)

abbrev pub wait_empty : Tray → Option Tray
wait_empty t = do n ← sem_wait t.empty; some (record t { empty = n })

abbrev pub wait_full : Tray → Option Tray
wait_full t = do n ← sem_wait t.full; some (record t { full = n })

abbrev pub wait_mutex : Tray → Option Tray
wait_mutex t = do n ← sem_wait t.mutex; some (record t { mutex = n })

abbrev pub post_empty : Tray → Tray
post_empty t = record t { empty = sem_post t.empty }

abbrev pub post_full : Tray → Tray
post_full t = record t { full = sem_post t.full }

abbrev pub post_mutex : Tray → Tray
post_mutex t = record t { mutex = sem_post t.mutex }

-- The loop on one tray, with `success`.
abbrev pub scan : (from to : Food) → Tray → Tray × Bool
scan from to t = let r = replace_first from to t.slots in (record t { slots = r.0 }, r.1)

unfoldable pub add_vegan_dish_once : SharedData → Option (SharedData × Bool)
add_vegan_dish_once d = do
  t ← wait_empty d.vegan
  t ← wait_mutex t
  let (t, success) = scan Food.empty Food.vegan t
  some (record d { vegan = post_full (post_mutex t) }, success)

-- It ends with `sem_post(&data->non_empty)`, not `non_full`.
unfoldable pub add_nonvegan_dish_once : SharedData → Option (SharedData × Bool)
add_nonvegan_dish_once d = do
  t ← wait_empty d.non
  t ← wait_mutex t
  let (t, success) = scan Food.empty Food.non_vegan t
  some (record d { non = post_empty (post_mutex t) }, success)

unfoldable pub eat_vegan_once : SharedData → Option (SharedData × Bool)
eat_vegan_once d = do
  t ← wait_full d.vegan
  t ← wait_mutex t
  let (t, success) = scan Food.vegan Food.empty t
  some (record d { vegan = post_empty (post_mutex t) }, success)

unfoldable pub eat_nonvegan_once : SharedData → Option (SharedData × Bool)
eat_nonvegan_once d = do
  t ← wait_full d.non
  t ← wait_mutex t
  let (t, success) = scan Food.non_vegan Food.empty t
  some (record d { non = post_empty (post_mutex t) }, success)
