-- ===== src/MessageQueue/Order.antt =====
-- The messages of a POSIX queue: the oldest of the highest priority comes first.
use mathlib.Core.List.{append-nil}
use linux_exercises.Base.{
  ℕ, ◌≤◌, ◌<◌, ◌≡◌, refl, false, Option, some, List, [], ◌∷◌, ◌++◌, arith, ltb, ◌==◌, if◌then◌else◌,
  sym, Bool-cases, inl, inr,
}
use linux_exercises.MessageQueue.Tasks.{Got, got, waits}

module _ {ℓ} {A : Type ℓ} where
  -- Behind all those that do not have a lower priority.
  abbrev pub enqueue : ℕ → A → List (ℕ × A) → List (ℕ × A)
  enqueue p a [] = (p, a) ∷ []
  enqueue p a ((r, b) ∷ xs) =
      let rest = enqueue p a xs in if ltb r p then (p, a) ∷ (r, b) ∷ xs else (r, b) ∷ rest

  -- Those of one priority.
  abbrev pub of_prio : ℕ → List (ℕ × A) → List A
  of_prio p [] = []
  of_prio p ((r, a) ∷ xs) = let rest = of_prio p xs in if r == p then a ∷ rest else rest

  abbrev pub AtMost : ℕ → List (ℕ × A) → Type 0
  AtMost p [] = Unit
  AtMost p ((r, a) ∷ xs) = (r ≤ p) × AtMost p xs

  -- The priorities do not rise.
  abbrev pub IsDescending : List (ℕ × A) → Type 0
  IsDescending [] = Unit
  IsDescending ((p, a) ∷ xs) = AtMost p xs × IsDescending xs

  AtMost-le : {p r : ℕ} (xs : List (ℕ × A)) → p ≤ r → AtMost p xs → AtMost r xs
  AtMost-le [] l h = tt
  AtMost-le ((q, a) ∷ xs) l h = (omega (arith, l, h.0), AtMost-le xs l h.1)

  of_prio-AtMost : {r : ℕ} (p : ℕ) (xs : List (ℕ × A)) → AtMost r xs → r < p → of_prio p xs ≡ []
  of_prio-AtMost p [] h l = refl
  of_prio-AtMost p ((q, a) ∷ xs) h l = ground (arith, h.0, of_prio-AtMost p xs h.1 l)

  AtMost-enqueue :
      {r : ℕ} (p : ℕ) (a : A) (xs : List (ℕ × A)) → p ≤ r → AtMost r xs → AtMost r (enqueue p a xs)
  AtMost-enqueue p a [] l h = (l, tt)
  AtMost-enqueue p a ((q, b) ∷ xs) l h = elim (Bool-cases (ltb q p)) [
    | inl e ↦ rw e (l, h)
    | inr e ↦ rw e (h.0, AtMost-enqueue p a xs l h.1)
  ]

  pub IsDescending-enqueue :
      (p : ℕ) (a : A) (xs : List (ℕ × A)) → IsDescending xs → IsDescending (enqueue p a xs)
  IsDescending-enqueue p a [] h = (tt, tt)
  IsDescending-enqueue p a ((q, b) ∷ xs) h = elim (Bool-cases (ltb q p)) [
    | inl e ↦ rw e ((ground (arith, e), AtMost-le xs (ground (arith, e)) h.0), h)
    | inr e ↦ rw e (AtMost-enqueue p a xs (ground (arith, e)) h.0, IsDescending-enqueue p a xs h.1)
  ]

  pub of_prio-append :
      (p : ℕ) (xs ys : List (ℕ × A)) → of_prio p (xs ++ ys) ≡ of_prio p xs ++ of_prio p ys
  of_prio-append p [] ys = refl
  of_prio-append p ((q, a) ∷ xs) ys = ground (arith, of_prio-append p xs ys)

  -- A message comes last among those of its priority.
  pub of_prio-enqueue :
      (p r : ℕ) (a : A) (xs : List (ℕ × A))
      → IsDescending xs
      → of_prio p (enqueue r a xs) ≡ of_prio p xs ++ of_prio p ((r, a) ∷ [])
  of_prio-enqueue p r a [] h = refl
  of_prio-enqueue p r a ((q, b) ∷ xs) h = elim (Bool-cases (ltb q r)) [
    | inr e ↦ rw e (ground (arith, of_prio-enqueue p r a xs h.1))
    | inl e ↦ elim (Bool-cases (r == p)) [
      | inl f ↦
          let none_yet : of_prio p xs ≡ [] = of_prio-AtMost p xs h.0 (ground (arith, e, f)) in
          let other : (q == p) ≡ false = ground (arith, e, f) in rw (e, f, other, none_yet) refl
      | inr f ↦ rw (e, f) (sym (append-nil (of_prio p ((q, b) ∷ xs))))
    ]
  ]

module _ {Q : Type 0} (mq_send : ℕ → List ℕ → Q → Option Q) (mq_receive : Q → Got Q)
    (contents : Q → List (ℕ × List ℕ)) where
  -- A message that is sent takes its place, and the first one is received.
  pub record Priorities : Type 0 where
    pub sends :
        (p : ℕ) (b : List ℕ) (q q' : Q)
        → mq_send p b q ≡ some q'
        → contents q' ≡ enqueue p b (contents q)
    pub gets :
        (p : ℕ) (b : List ℕ) (q q' : Q)
        → mq_receive q ≡ got p b q'
        → contents q ≡ (p, b) ∷ contents q'

  -- `mq_receive` does not fail, and waits only for an empty queue.
  pub record Receives : Type 0 where
    pub receives :
        (q : Q) (p : ℕ) (b : List ℕ) (rest : List (ℕ × List ℕ))
        → contents q ≡ (p, b) ∷ rest
        → (q' : Q) × (mq_receive q ≡ got p b q') × (contents q' ≡ rest)
    pub blocks : (q : Q) → contents q ≡ [] → mq_receive q ≡ waits
