-- ===== src/Restaurant/Invariant.antt =====
-- The counts of the semaphores hold in every reachable state.
mod Defs
mod Trays
pub use Defs.*
use Trays.{cook_step-IsCounted, eat_step-IsCounted}
use Defs.{holds, hole, dish, Served, IsCounted, Counted, Inv}
use linux_exercises.Base.{
  ℕ, ◌+◌, ◌≤◌, ◌≡◌, refl, inl, inr, subst, Option, none, some, List, arith, total, total-set,
  le-total, get_elem?, set, All-set, All-get_elem?, Option-cases,
}
use linux_exercises.Restaurant.Shared.{Kind, veg, non, Tray, SharedData}
use linux_exercises.Restaurant.System.{
  Stage, head, reserved, locked, scanned, unlocked, cook_step, eat_step, Process, chef, customer,
  hybrid, hybrid_next, step, System, turn, Reach, here, later,
}

-- The list `qs` is `ps` with one process `p` gone over to `p'`.
record Shift (k : Kind) (ps qs : List Process) (p p' : Process) : Type 0 where
  critical_ : total (holds k) qs + holds k p ≡ total (holds k) ps + holds k p'
  slots : total (hole k) qs + hole k p ≡ total (hole k) ps + hole k p'
  plates : total (dish k) qs + dish k p ≡ total (dish k) ps + dish k p'
  slot : hole k p ≤ total (hole k) ps
  plate : dish k p ≤ total (dish k) ps

shift :
    (k : Kind) (ps : List Process) (i : ℕ) (p p' : Process)
    → get_elem? ps i ≡ some p
    → Shift k ps (set ps i p') p p'
shift k ps i p p' e = record {
  critical_ = total-set (holds k) ps i p p' e;
  slots = total-set (hole k) ps i p p' e;
  plates = total-set (dish k) ps i p p' e;
  slot = le-total (hole k) ps i p e;
  plate = le-total (dish k) ps i p e;
}

stay :
    {k : Kind} {t : Tray} {ps qs : List Process} {p p' : Process}
    → Shift k ps qs p p'
    → IsCounted k t (total (holds k) ps) (total (hole k) ps) (total (dish k) ps)
    → holds k p ≡ holds k p'
    → hole k p ≡ hole k p'
    → dish k p ≡ dish k p'
    → IsCounted k t (total (holds k) qs) (total (hole k) qs) (total (dish k) qs)
stay sh v a b c = record {
  size = v.size;
  only = v.only;
  lock = omega (arith, sh.critical_);
  dishes = omega (arith, sh.plates);
  holes = omega (arith, sh.slots);
}

-- `hybrid_next` changes the kind at the head of a round only, where the process holds nothing.
unnext :
    {k : Kind} {ps qs : List Process} {p : Process} (j : Kind) (s : Stage)
    → Shift k ps qs p (hybrid_next j s)
    → Shift k ps qs p (hybrid j s)
unnext {k} j head sh = record {
  critical_ = ground (arith, sh.critical_);
  slots = ground (arith, sh.slots);
  plates = ground (arith, sh.plates);
  slot = sh.slot;
  plate = sh.plate;
}
unnext j _ sh = sh

Served-hybrid_next : (k : Kind) (s : Stage) → Served (customer k s) → Served (hybrid_next k s)
Served-hybrid_next k head h = tt
Served-hybrid_next k reserved h = tt
Served-hybrid_next k locked h = tt
Served-hybrid_next k (scanned b) h = h
Served-hybrid_next k (unlocked b) h = h

Served-hybrid : (k : Kind) (s : Stage) → Served (hybrid k s) → Served (customer k s)
Served-hybrid k head h = tt
Served-hybrid k reserved h = tt
Served-hybrid k locked h = tt
Served-hybrid k (scanned b) h = h
Served-hybrid k (unlocked b) h = h

-- What a step leaves: both trays counted over any list where the process has moved on.
abbrev Kept : List Process → Process → Option (SharedData × Process) → Type 0
Kept ps p none = Unit
Kept ps p (some (d', p')) =
    (qs : List Process)
    → ((k : Kind) → Shift k ps qs p p')
    → Counted veg d' qs × Counted non d' qs × Served p'

module _ (d : SharedData) (ps : List Process) (v : Counted veg d ps) (n : Counted non d ps) where
  -- A step at the tray of kind `k`, from its chef or from a customer.
  chef-Kept : (k : Kind) (s : Stage) → Served (chef k s) → Kept ps (chef k s) (step d (chef k s))
  unfolding step
  chef-Kept veg s sv = elim (Option-cases (cook_step veg d.vegan s)) [
    | inl z ↦ rw z tt
    | inr ((t, s'), z) ↦ rw z λ qs sh.
        let own =
          cook_step-IsCounted veg s v sv (sh veg).critical_ (sh veg).slots (sh veg).plates
            (sh veg).slot z in
        (own.0, stay (sh non) n refl refl refl, own.1)
  ]
  chef-Kept non s sv = elim (Option-cases (cook_step non d.non s)) [
    | inl z ↦ rw z tt
    | inr ((t, s'), z) ↦ rw z λ qs sh.
        let own =
          cook_step-IsCounted non s n sv (sh non).critical_ (sh non).slots (sh non).plates
            (sh non).slot z in
        (stay (sh veg) v refl refl refl, own.0, own.1)
  ]

  customer-Kept :
      (k : Kind) (s : Stage)
      → Served (customer k s)
      → Kept ps (customer k s) (step d (customer k s))
  unfolding step
  customer-Kept veg s sv = elim (Option-cases (eat_step veg d.vegan s)) [
    | inl z ↦ rw z tt
    | inr ((t, s'), z) ↦ rw z λ qs sh.
        let own =
          eat_step-IsCounted veg s v sv (sh veg).critical_ (sh veg).slots (sh veg).plates
            (sh veg).plate z in
        (own.0, stay (sh non) n refl refl refl, own.1)
  ]
  customer-Kept non s sv = elim (Option-cases (eat_step non d.non s)) [
    | inl z ↦ rw z tt
    | inr ((t, s'), z) ↦ rw z λ qs sh.
        let own =
          eat_step-IsCounted non s n sv (sh non).critical_ (sh non).slots (sh non).plates
            (sh non).plate z in
        (stay (sh veg) v refl refl refl, own.0, own.1)
  ]

  hybrid-Kept :
      (k : Kind) (s : Stage) → Served (hybrid k s) → Kept ps (hybrid k s) (step d (hybrid k s))
  unfolding step
  hybrid-Kept veg s sv = elim (Option-cases (eat_step veg d.vegan s)) [
    | inl z ↦ rw z tt
    | inr ((t, s'), z) ↦ rw z λ qs sh.
        let a = unnext veg s' (sh veg) in
        let own =
          eat_step-IsCounted veg s v (Served-hybrid veg s sv) a.critical_ a.slots a.plates a.plate
            z in
        (own.0, stay (unnext veg s' (sh non)) n refl refl refl, Served-hybrid_next veg s' own.1)
  ]
  hybrid-Kept non s sv = elim (Option-cases (eat_step non d.non s)) [
    | inl z ↦ rw z tt
    | inr ((t, s'), z) ↦ rw z λ qs sh.
        let a = unnext non s' (sh non) in
        let own =
          eat_step-IsCounted non s n (Served-hybrid non s sv) a.critical_ a.slots a.plates a.plate
            z in
        (stay (unnext non s' (sh veg)) v refl refl refl, own.0, Served-hybrid_next non s' own.1)
  ]

  step-Kept : (p : Process) → Served p → Kept ps p (step d p)
  step-Kept (chef k s) sv = chef-Kept k s sv
  step-Kept (customer k s) sv = customer-Kept k s sv
  step-Kept (hybrid k s) sv = hybrid-Kept k s sv

module _ (i : ℕ) (s : System) (v : Inv s) where
  turn_of :
      {p p' : Process} {d : SharedData}
      → get_elem? s.procs i ≡ some p
      → step s.shared p ≡ some (d, p')
      → Inv (record { shared = d; procs = set s.procs i p' })
  turn_of {p} {p'} z y =
      let k =
        rw y at (
          step-Kept s.shared s.procs v.vegan v.non p (All-get_elem? Served s.procs i v.served z)) in
      let (a, b, c) = k (set s.procs i p') (λ j. shift j s.procs i p p' z) in
      record { vegan = a; non = b; served = All-set Served s.procs i v.served c }

  -- A process's turn keeps the invariant.
  pub turn-Inv : {s' : System} → turn i s ≡ some s' → Inv s'
  unfolding turn
  turn-Inv {s'} e = elim (Option-cases (get_elem? s.procs i)) [
    | inl z ↦ absurd (ground arith)
    | inr (p, z) ↦ elim (Option-cases (step s.shared p)) [
      | inl y ↦ absurd (ground arith)
      | inr ((d, p'), y) ↦ subst Inv (ground arith) (turn_of z y)
    ]
  ]

pub Reach-Inv : {s t : System} → Inv s → Reach s t → Inv t
Reach-Inv v here = v
Reach-Inv v (later {t} r i e) = turn-Inv i t (Reach-Inv v r) e
