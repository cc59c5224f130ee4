-- ===== src/Restaurant/Scan.antt =====
-- The scanning loop finds a slot whenever the tray has one.
use linux_exercises.Base.{suc, ◌<◌, ◌≡◌, true, List, [], ◌∷◌, arith, length, All}
use linux_exercises.Restaurant.Shared.{Food, Kind, veg, non, filled}
use linux_exercises.Restaurant.Dishes.{replace_first}
use linux_exercises.Restaurant.System.{food}

-- Nothing but dishes of the kind `k` and empty slots.
abbrev pub Only : Kind → Food → Type 0
Only k Food.empty = Unit
Only veg Food.vegan = Unit
Only veg Food.non_vegan = ⊥
Only non Food.vegan = ⊥
Only non Food.non_vegan = Unit

pub record Placed (k : Kind) (xs ys : List Food) : Type 0 where
  pub one_more : filled ys ≡ suc (filled xs)
  pub same_length : length ys ≡ length xs
  pub only : All (Only k) ys

pub record Freed (k : Kind) (xs ys : List Food) : Type 0 where
  pub one_less : suc (filled ys) ≡ filled xs
  pub same_length : length ys ≡ length xs
  pub only : All (Only k) ys

-- With a slot free, the chef's loop succeeds and fills one slot.
pub place-Placed :
    (k : Kind) (xs : List Food)
    → All (Only k) xs
    → filled xs < length xs
    → (replace_first Food.empty (food k) xs).1 ≡ true
      × Placed k xs (replace_first Food.empty (food k) xs).0
unfolding replace_first
place-Placed k [] h lt = absurd (omega arith)
place-Placed veg (x ∷ xs) h lt = ground (arith, place-Placed veg xs h.1)
place-Placed non (x ∷ xs) h lt = ground (arith, place-Placed non xs h.1)

-- With a dish on the tray, the customer's loop succeeds and frees one slot.
pub take-Freed :
    (k : Kind) (xs : List Food)
    → All (Only k) xs
    → 0 < filled xs
    → (replace_first (food k) Food.empty xs).1 ≡ true
      × Freed k xs (replace_first (food k) Food.empty xs).0
unfolding replace_first
take-Freed k [] h lt = absurd (omega arith)
take-Freed veg (x ∷ xs) h lt = ground (arith, take-Freed veg xs h.1)
take-Freed non (x ∷ xs) h lt = ground (arith, take-Freed non xs h.1)
