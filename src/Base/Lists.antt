-- ===== src/Base/Lists.antt =====
-- Lists measured and indexed by native numbers, and weighted sums over them.
use Prim.Native.Nat.{ℕ, zero, suc, ◌+◌, ◌≤◌, ◌<◌}
use mathlib.Core.Path.{◌≡◌, refl, ap}
use mathlib.Core.Logic.{◌≢◌, ◌⊎◌, inl, inr}
use mathlib.Core.List.{List, [], ◌∷◌, ◌++◌}
use mathlib.Core.Option.{Option, none, some}
use native.Mathlib.Omega.{arith}

module _ {ℓ} {A : Type ℓ} where
  abbrev pub length : List A → ℕ
  length [] = 0
  length (x ∷ xs) = suc (length xs)

  abbrev pub get_elem? : List A → ℕ → Option A
  get_elem? [] i = none
  get_elem? (x ∷ xs) zero = some x
  get_elem? (x ∷ xs) (suc i) = get_elem? xs i

  -- A write out of bounds changes nothing.
  abbrev pub set : List A → ℕ → A → List A
  set [] i v = []
  set (x ∷ xs) zero v = v ∷ xs
  set (x ∷ xs) (suc i) v = x ∷ set xs i v

  abbrev pub take : ℕ → List A → List A
  take zero xs = []
  take (suc n) [] = []
  take (suc n) (x ∷ xs) = x ∷ take n xs

  abbrev pub replicate : ℕ → A → List A
  replicate zero a = []
  replicate (suc n) a = a ∷ replicate n a

  abbrev pub All {κ} : (A → Type κ) → List A → Type κ
  All P [] = Unit
  All P (x ∷ xs) = P x × All P xs

module _ {ℓ} {A : Type ℓ} where
  pub length-append : (xs ys : List A) → length (xs ++ ys) ≡ length xs + length ys
  length-append [] ys = omega arith
  length-append (x ∷ xs) ys = omega (arith, length-append xs ys)

  pub take-le-length : (n : ℕ) (xs : List A) → length xs ≤ n → take n xs ≡ xs
  take-le-length zero [] h = refl
  take-le-length zero (x ∷ xs) h = absurd (omega (arith, h))
  take-le-length (suc n) [] h = refl
  take-le-length (suc n) (x ∷ xs) h = ap (λ ys. x ∷ ys) (take-le-length n xs (omega (arith, h)))

  pub length-take-le : (n : ℕ) (xs : List A) → length (take n xs) ≤ n
  length-take-le zero xs = omega arith
  length-take-le (suc n) [] = omega arith
  length-take-le (suc n) (x ∷ xs) = omega (arith, length-take-le n xs)

  pub length-set : (xs : List A) (i : ℕ) (v : A) → length (set xs i v) ≡ length xs
  length-set [] i v = refl
  length-set (x ∷ xs) zero v = refl
  length-set (x ∷ xs) (suc i) v = ap suc (length-set xs i v)

  pub get_elem?-set_self :
      (xs : List A) (i : ℕ) (v : A) → i < length xs → get_elem? (set xs i v) i ≡ some v
  get_elem?-set_self [] i v h = elim h [ ]
  get_elem?-set_self (x ∷ xs) zero v h = refl
  get_elem?-set_self (x ∷ xs) (suc i) v h = get_elem?-set_self xs i v (omega arith)

  pub get_elem?-set_ne :
      (xs : List A) {i j : ℕ} (v : A) → i ≢ j → get_elem? (set xs i v) j ≡ get_elem? xs j
  get_elem?-set_ne [] v h = refl
  get_elem?-set_ne (x ∷ xs) {i = zero} {j = zero} v h = absurd (h refl)
  get_elem?-set_ne (x ∷ xs) {i = zero} {j = suc j} v h = refl
  get_elem?-set_ne (x ∷ xs) {i = suc i} {j = zero} v h = refl
  get_elem?-set_ne (x ∷ xs) {i = suc i} {j = suc j} v h = get_elem?-set_ne xs v (λ e. h (ap suc e))

  module _ {κ} (P : A → Type κ) where
    pub All-get_elem? : (xs : List A) (i : ℕ) {a : A} → All P xs → get_elem? xs i ≡ some a → P a
    All-get_elem? [] i h e = cc
    All-get_elem? (x ∷ xs) zero {a} h e = ground (arith, h.0)
    All-get_elem? (x ∷ xs) (suc i) h e = All-get_elem? xs i h.1 e

    pub All-set : (xs : List A) (i : ℕ) {a : A} → All P xs → P a → All P (set xs i a)
    All-set [] i h p = h
    All-set (x ∷ xs) zero h p = (p, h.1)
    All-set (x ∷ xs) (suc i) h p = (h.0, All-set xs i h.1 p)

module _ {ℓ} {A : Type ℓ} (w : A → ℕ) where
  -- The sum of the weights.
  abbrev pub total : List A → ℕ
  total [] = 0
  total (x ∷ xs) = w x + total xs

  pub total-set :
      (xs : List A) (i : ℕ) (a b : A)
      → get_elem? xs i ≡ some a
      → total (set xs i b) + w a ≡ total xs + w b
  total-set [] i a b e = absurd (cc)
  total-set (x ∷ xs) zero a b e = ground arith
  total-set (x ∷ xs) (suc i) a b e = omega (arith, total-set xs i a b e)

  pub le-total : (xs : List A) (i : ℕ) (a : A) → get_elem? xs i ≡ some a → w a ≤ total xs
  le-total [] i a e = absurd (cc)
  le-total (x ∷ xs) zero a e = ground arith
  le-total (x ∷ xs) (suc i) a e = omega (arith, le-total xs i a e)

  pub add-le-total :
      (xs : List A) (i j : ℕ) (a b : A)
      → i ≢ j
      → get_elem? xs i ≡ some a
      → get_elem? xs j ≡ some b
      → w a + w b ≤ total xs
  add-le-total [] i j a b ne e f = absurd (cc)
  add-le-total (x ∷ xs) zero zero a b ne e f = absurd (ne refl)
  add-le-total (x ∷ xs) zero (suc j) a b ne e f = ground (arith, le-total xs j b f)
  add-le-total (x ∷ xs) (suc i) zero a b ne e f = ground (arith, le-total xs i a e)
  add-le-total (x ∷ xs) (suc i) (suc j) a b ne e f =
      omega (arith, add-le-total xs i j a b (λ p. ne (ap suc p)) e f)

  pub total-pos :
      (xs : List A) → 0 < total xs → (i : ℕ) × (a : A) × (get_elem? xs i ≡ some a) × (0 < w a)
  total-pos [] h = absurd (omega (arith, h))
  total-pos (x ∷ xs) h = elim (pos-or x xs h) [
    | inl e ↦ (0, x, refl, e)
    | inr e ↦ (let (i, a, f, g) = total-pos xs e in (suc i, a, f, g))
  ]
    where
      pos-or : (y : A) (ys : List A) → 0 < w y + total ys → (0 < w y) ⊎ (0 < total ys)
      pos-or y ys l = ground arith
