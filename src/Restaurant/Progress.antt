-- ===== src/Restaurant/Progress.antt =====
-- The five processes of app/main.c never block one another for good.
use linux_exercises.Base.{
  ℕ, zero, suc, ◌≡◌, refl, Bool, none, some, arith, get_elem?, set, Option-cases, inl, inr, ◌⊎◌,
  List, [], ◌∷◌, subst,
}
use linux_exercises.Restaurant.Shared.{Kind, veg, non, SharedData, init_shared_memory}
use linux_exercises.Restaurant.System.{
  Stage, head, reserved, Process, chef, customer, hybrid, hybrid_next, tray, step, cook_step,
  eat_step, System, turn, start_of, Reach, here, later,
}
use linux_exercises.Restaurant.Invariant.{
  on, critical, before, after, Counted, Inv-start_of, Reach-Inv,
}

-- The processes that `main` forks, wherever each of them stands.
data IsForked : List Process → Type 0 where
  at :
      (s₀ s₁ s₂ s₃ : Stage) (k : Kind) (s₄ : Stage)
      → IsForked (chef non s₀ ∷ chef veg s₁ ∷ customer non s₂ ∷ customer veg s₃ ∷ hybrid k s₄ ∷ [])

-- The process that a step makes of `p` runs the same function.
abbrev SameFunction : Process → Process → Type 0
SameFunction (chef k s) p = (s' : Stage) × (p ≡ chef k s')
SameFunction (customer k s) p = (s' : Stage) × (p ≡ customer k s')
SameFunction (hybrid k s) p = (j : Kind) × (s' : Stage) × (p ≡ hybrid j s')

hybrid_next-hybrid :
    (k : Kind) (s : Stage) → (j : Kind) × (s' : Stage) × (hybrid_next k s ≡ hybrid j s')
hybrid_next-hybrid k head = (_, _, refl)
hybrid_next-hybrid k s = (_, _, refl)

step-SameFunction :
    (d : SharedData) (p : Process) {d' : SharedData} {p' : Process}
    → step d p ≡ some (d', p')
    → SameFunction p p'
unfolding step
step-SameFunction d (chef k s) e = elim (Option-cases (cook_step k (tray k d) s)) [
  | inl z ↦ absurd (ground arith)
  | inr ((t, s'), z) ↦ (s', ground arith)
]
step-SameFunction d (customer k s) e = elim (Option-cases (eat_step k (tray k d) s)) [
  | inl z ↦ absurd (ground arith)
  | inr ((t, s'), z) ↦ (s', ground arith)
]
step-SameFunction d (hybrid k s) e = elim (Option-cases (eat_step k (tray k d) s)) [
  | inl z ↦ absurd (ground arith)
  | inr ((t, s'), z) ↦ let (j, u, q) = hybrid_next-hybrid k s' in (j, u, ground arith)
]

set-IsForked :
    {ps : List Process} (i : ℕ) (p p' : Process)
    → IsForked ps
    → get_elem? ps i ≡ some p
    → SameFunction p p'
    → IsForked (set ps i p')
set-IsForked i p p' (at s₀ s₁ s₂ s₃ k s₄) e f = go i e
  where
    ps : List Process
    ps = chef non s₀ ∷ chef veg s₁ ∷ customer non s₂ ∷ customer veg s₃ ∷ hybrid k s₄ ∷ []

    same : (x : Process) → some x ≡ some p → SameFunction x p'
    same x q = subst (λ y. SameFunction y p') (cc) f

    go : (i : ℕ) → get_elem? ps i ≡ some p → IsForked (set ps i p')
    go zero e = let g = same (chef non s₀) e in rw g.1 (at g.0 s₁ s₂ s₃ k s₄)
    go (suc zero) e = let g = same (chef veg s₁) e in rw g.1 (at s₀ g.0 s₂ s₃ k s₄)
    go (suc (suc zero)) e = let g = same (customer non s₂) e in rw g.1 (at s₀ s₁ g.0 s₃ k s₄)
    go (suc (suc (suc zero))) e = let g = same (customer veg s₃) e in rw g.1 (at s₀ s₁ s₂ g.0 k s₄)
    go (suc (suc (suc (suc zero)))) e =
        let g = same (hybrid k s₄) e in rw g.2 (at s₀ s₁ s₂ s₃ g.0 g.1)
    go (suc (suc (suc (suc (suc i))))) e = absurd (cc)

turn-IsForked :
    (i : ℕ) (s : System) {s' : System} → IsForked s.procs → turn i s ≡ some s' → IsForked s'.procs
unfolding turn
turn-IsForked i s {s'} v e = elim (Option-cases (get_elem? s.procs i)) [
  | inl z ↦ absurd (ground arith)
  | inr (p, z) ↦ elim (Option-cases (step s.shared p)) [
    | inl y ↦ absurd (ground arith)
    | inr ((d, p'), y) ↦
        let q : record { shared = d; procs = set s.procs i p' } ≡ s' = ground arith in
        subst (λ (u : System). IsForked u.procs) q
          (set-IsForked i p p' v z (step-SameFunction s.shared p y))
  ]
]

Reach-IsForked : {s t : System} → IsForked s.procs → Reach s t → IsForked t.procs
Reach-IsForked v here = v
Reach-IsForked v (later {t} r i e) = turn-IsForked i t (Reach-IsForked v r) e

-- Process `i` can take its next step now.
abbrev pub CanStep : System → ℕ → Type 0
CanStep s i = (u : System) × (turn i s ≡ some u)

-- A process is blocked only at the head of a round or before the mutex.
chef_blocked :
    (d : SharedData) (s : Stage)
    → step d (chef veg s) ≡ none
    → (critical s ≡ 0)
      × (after s ≡ 0)
      × (((before s ≡ 0) × (d.vegan.empty ≡ 0)) ⊎ ((before s ≡ 1) × (d.vegan.mutex ≡ 0)))
unfolding step cook_step
chef_blocked d head e = ground arith
chef_blocked d reserved e = ground arith
chef_blocked d _ e = absurd (cc)

customer_blocked :
    (d : SharedData) (s : Stage)
    → step d (customer veg s) ≡ none
    → (critical s ≡ 0)
      × (after s ≡ 0)
      × (((before s ≡ 0) × (d.vegan.full ≡ 0)) ⊎ ((before s ≡ 1) × (d.vegan.mutex ≡ 0)))
unfolding step eat_step
customer_blocked d head e = ground arith
customer_blocked d reserved e = ground arith
customer_blocked d _ e = absurd (cc)

hybrid_blocked :
    (d : SharedData) (k : Kind) (s : Stage)
    → step d (hybrid k s) ≡ none
    → (on veg k (critical s) ≡ 0)
      × (on veg k (after s) ≡ 0)
      × ((on veg k (before s) ≡ 0) ⊎ (d.vegan.mutex ≡ 0))
unfolding step eat_step
hybrid_blocked d veg head e = ground arith
hybrid_blocked d veg reserved e = ground arith
hybrid_blocked d veg _ e = absurd (cc)
hybrid_blocked d non s e = ground arith

turn-step :
    (i : ℕ) (s : System) (p : Process) {r : SharedData × Process}
    → get_elem? s.procs i ≡ some p
    → step s.shared p ≡ some r
    → CanStep s i
unfolding turn
turn-step i s p e f = rw (e, f) (_, refl)

-- A chef, a customer of the vegan tray and the hybrid customer are not all blocked: the counts
-- leave the mutex free when nobody is inside, and a slot or a dish when nobody waits for it.
some-CanStep :
    (d : SharedData) {ps : List Process}
    → Counted veg d ps
    → IsForked ps
    → (i : ℕ) × CanStep (record { shared = d; procs = ps }) i
some-CanStep d v (at s₀ s₁ s₂ s₃ k s₄) = elim (Option-cases (step d (chef veg s₁))) [
  | inr (r, e) ↦ (1, turn-step 1 _ (chef veg s₁) refl e)
  | inl a ↦ elim (Option-cases (step d (customer veg s₃))) [
    | inr (r, e) ↦ (3, turn-step 3 _ (customer veg s₃) refl e)
    | inl b ↦ elim (Option-cases (step d (hybrid k s₄))) [
      | inr (r, e) ↦ (4, turn-step 4 _ (hybrid k s₄) refl e)
      | inl c ↦
          absurd (
            omega (arith, v, chef_blocked d s₁ a, customer_blocked d s₃ b, hybrid_blocked d k s₄ c))
    ]
  ]
]

-- In every state that the restaurant reaches from init_shared_memory and main's five processes,
-- some process can take its next step.
pub no_deadlock :
    (a b c : Bool) {d : SharedData} {t : System}
    → init_shared_memory a b c ≡ some d
    → Reach (start_of d) t
    → (i : ℕ) × CanStep t i
no_deadlock a b c {t} init r =
    some-CanStep t.shared (Reach-Inv (Inv-start_of a b c init) r).vegan
      (Reach-IsForked (at head head head head veg head) r)
