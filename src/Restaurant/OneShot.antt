-- ===== src/Restaurant/OneShot.antt =====
-- The one-shot operations at trays at which no process is under way.
use linux_exercises.Base.{
  ℕ, suc, ◌+◌, ◌<◌, ◌≡◌, ◌-◌, ◌↔◌, ◌≢◌, ◌⊎◌, inl, inr, Bool-cases, ==_iff, ◌==◌, false≢true, sym,
  ◌∙◌, refl, Bool, true, Option, none, some, arith,
}
use linux_exercises.Restaurant.Shared.{Food, Kind, veg, non, Tray, SharedData, filled, tray_size}
use linux_exercises.Restaurant.Dishes.{
  replace_first, add_vegan_dish_once, add_nonvegan_dish_once, eat_vegan_once, eat_nonvegan_once,
}
use linux_exercises.Restaurant.System.{food}
use linux_exercises.Restaurant.Scan.{place-Placed, take-Freed}
use linux_exercises.Restaurant.Invariant.{IsCounted}

-- A tray at which no process is under way.
abbrev pub IsQuiet : Kind → Tray → Type 0
IsQuiet k t = IsCounted k t 0 0 0

-- The tray after a dish has been laid down or eaten.
abbrev added : Kind → Tray → Tray
added k t = record {
  slots = (replace_first Food.empty (food k) t.slots).0;
  mutex = 1;
  empty = t.empty - 1;
  full = t.full + 1;
}

abbrev eaten : Kind → Tray → Tray
eaten k t = record {
  slots = (replace_first (food k) Food.empty t.slots).0;
  mutex = 1;
  empty = t.empty + 1;
  full = t.full - 1;
}

added-IsQuiet :
    (k : Kind) (t : Tray) → IsQuiet k t → filled t.slots < tray_size → IsQuiet k (added k t)
added-IsQuiet k t q h = ground (arith, place-Placed k t.slots q.only)

eaten-IsQuiet : (k : Kind) (t : Tray) → IsQuiet k t → 0 < filled t.slots → IsQuiet k (eaten k t)
eaten-IsQuiet k t q h = ground (arith, take-Freed k t.slots q.only)

-- What the four make of the memory.
abbrev pub LaidVegan : SharedData → SharedData → Type 0
LaidVegan d e =
    (e.non ≡ d.non) × IsQuiet veg e.vegan × (filled e.vegan.slots ≡ suc (filled d.vegan.slots))

abbrev pub AteVegan : SharedData → SharedData → Type 0
AteVegan d e =
    (e.non ≡ d.non) × IsQuiet veg e.vegan × (suc (filled e.vegan.slots) ≡ filled d.vegan.slots)

abbrev pub AteNonvegan : SharedData → SharedData → Type 0
AteNonvegan d e =
    (e.vegan ≡ d.vegan) × IsQuiet non e.non × (suc (filled e.non.slots) ≡ filled d.non.slots)

abbrev pub LaidNonvegan : SharedData → SharedData → Type 0
LaidNonvegan d e =
    (e.vegan ≡ d.vegan)
    × (e.non.full ≡ d.non.full)
    × (e.non.empty ≡ d.non.empty)
    × (filled e.non.slots ≡ suc (filled d.non.slots))

-- At a quiet tray with room `add_vegan_dish_once` returns with success, leaves the other tray alone
-- and this one quiet, with one dish more.
add_vegan_succeeds :
    (d : SharedData)
    → IsQuiet veg d.vegan
    → filled d.vegan.slots < tray_size
    → (e : SharedData) × (add_vegan_dish_once d ≡ some (e, true)) × LaidVegan d e
unfolding add_vegan_dish_once
add_vegan_succeeds d q h = (
  record d { vegan = added veg d.vegan },
  ground (arith, place-Placed veg d.vegan.slots q.only),
  (
    refl,
    added-IsQuiet veg d.vegan q h,
    (place-Placed veg d.vegan.slots q.only (omega arith)).1.one_more,
  ),
)

-- At a quiet vegan tray add_vegan_dish_once blocks exactly if the tray is full.
add_vegan_blocks :
    (d : SharedData)
    → IsQuiet veg d.vegan
    → (add_vegan_dish_once d ≡ none) ↔ (filled d.vegan.slots ≡ tray_size)
unfolding add_vegan_dish_once
add_vegan_blocks d q = (λ h. ground arith, λ h. ground arith)

-- At a quiet vegan tray with a dish `eat_vegan_once` returns with success, leaves the other tray alone
-- and this one quiet, with one dish less.
eat_vegan_succeeds :
    (d : SharedData)
    → IsQuiet veg d.vegan
    → 0 < filled d.vegan.slots
    → (e : SharedData) × (eat_vegan_once d ≡ some (e, true)) × AteVegan d e
unfolding eat_vegan_once
eat_vegan_succeeds d q h = (
  record d { vegan = eaten veg d.vegan },
  ground (arith, take-Freed veg d.vegan.slots q.only),
  (refl, eaten-IsQuiet veg d.vegan q h, (take-Freed veg d.vegan.slots q.only h).1.one_less),
)

-- The same of `eat_nonvegan_once` and the other tray.
eat_nonvegan_succeeds :
    (d : SharedData)
    → IsQuiet non d.non
    → 0 < filled d.non.slots
    → (e : SharedData) × (eat_nonvegan_once d ≡ some (e, true)) × AteNonvegan d e
unfolding eat_nonvegan_once
eat_nonvegan_succeeds d q h = (
  record d { non = eaten non d.non },
  ground (arith, take-Freed non d.non.slots q.only),
  (refl, eaten-IsQuiet non d.non q h, (take-Freed non d.non.slots q.only h).1.one_less),
)

-- The customers' functions block exactly if the tray is bare.
eat_vegan_blocks :
    (d : SharedData) → IsQuiet veg d.vegan → (eat_vegan_once d ≡ none) ↔ (filled d.vegan.slots ≡ 0)
unfolding eat_vegan_once
eat_vegan_blocks d q = (λ h. ground arith, λ h. ground arith)

eat_nonvegan_blocks :
    (d : SharedData) → IsQuiet non d.non → (eat_nonvegan_once d ≡ none) ↔ (filled d.non.slots ≡ 0)
unfolding eat_nonvegan_once
eat_nonvegan_blocks d q = (λ h. ground arith, λ h. ground arith)

-- The fourth does not announce its dish: the counts of the semaphores are what they were.
add_nonvegan_unannounced :
    (d : SharedData)
    → IsQuiet non d.non
    → filled d.non.slots < tray_size
    → (e : SharedData) × (add_nonvegan_dish_once d ≡ some (e, true)) × LaidNonvegan d e
unfolding add_nonvegan_dish_once
add_nonvegan_unannounced d q h = (
  record d {
    non = record {
      slots = (replace_first Food.empty Food.non_vegan d.non.slots).0;
      mutex = 1;
      empty = d.non.empty;
      full = d.non.full;
    };
  },
  ground (arith, place-Placed non d.non.slots q.only),
  (refl, refl, refl, (place-Placed non d.non.slots q.only (omega arith)).1.one_more),
)

add_nonvegan_blocks :
    (d : SharedData)
    → IsQuiet non d.non
    → (add_nonvegan_dish_once d ≡ none) ↔ (filled d.non.slots ≡ tray_size)
unfolding add_nonvegan_dish_once
add_nonvegan_blocks d q = (λ h. ground arith, λ h. ground arith)

-- The call blocks, where `stop` holds, or returns with success, and what it makes of the memory is as
-- told.
abbrev pub Outcome :
    Type 0 → (SharedData → Option (SharedData × Bool)) → SharedData → (SharedData → Type 0) → Type 0
Outcome Stop f d P = (Stop × (f d ≡ none)) ⊎ ((e : SharedData) × (f d ≡ some (e, true)) × P e)

Outcome-by :
    (n stop : ℕ) (f : SharedData → Option (SharedData × Bool)) (d : SharedData)
    (P : SharedData → Type 0)
    → (f d ≡ none) ↔ (n ≡ stop)
    → (n ≢ stop → (e : SharedData) × (f d ≡ some (e, true)) × P e)
    → Outcome (n ≡ stop) f d P
Outcome-by n stop f d P b s = elim (Bool-cases (n == stop)) [
  | inl e ↦ let same = (==_iff n stop).0 e in inl (same, b.1 same)
  | inr e ↦ inr (s (λ q. false≢true (sym e ∙ (==_iff n stop).1 q)))
]

-- At trays at which no process is under way, add_vegan_dish_once blocks, and the vegan tray is
-- full, or it returns with success; eat_vegan_once and eat_nonvegan_once block, and their tray is
-- bare, or return with success; these three leave the other tray alone and their own again as if
-- no process were under way, its semaphores in step with its slots, with one dish more or one
-- less. add_nonvegan_dish_once blocks, and its tray is full, or returns with success and one dish
-- more, but with the counts of both semaphores as before: the dish is not announced.
pub one_shot-trays :
    (d : SharedData)
    → IsQuiet veg d.vegan
    → IsQuiet non d.non
    → Outcome (filled d.vegan.slots ≡ tray_size) add_vegan_dish_once d (LaidVegan d)
      × Outcome (filled d.vegan.slots ≡ 0) eat_vegan_once d (AteVegan d)
      × Outcome (filled d.non.slots ≡ 0) eat_nonvegan_once d (AteNonvegan d)
      × Outcome (filled d.non.slots ≡ tray_size) add_nonvegan_dish_once d (LaidNonvegan d)
one_shot-trays d v n = (
  Outcome-by (filled d.vegan.slots) tray_size add_vegan_dish_once d (LaidVegan d)
      (add_vegan_blocks d v) (λ ne. add_vegan_succeeds d v (omega (arith, ne, v.holes))),
  Outcome-by (filled d.vegan.slots) 0 eat_vegan_once d (AteVegan d) (eat_vegan_blocks d v)
      (λ ne. eat_vegan_succeeds d v (omega (arith, ne))),
  Outcome-by (filled d.non.slots) 0 eat_nonvegan_once d (AteNonvegan d) (eat_nonvegan_blocks d n)
      (λ ne. eat_nonvegan_succeeds d n (omega (arith, ne))),
  Outcome-by (filled d.non.slots) tray_size add_nonvegan_dish_once d (LaidNonvegan d)
      (add_nonvegan_blocks d n) (λ ne. add_nonvegan_unannounced d n (omega (arith, ne, n.holes))),
)
