-- ===== src/Signals/Ends.antt =====
-- How the two processes of ex3_ipc_sigusr1.c end.
use linux_exercises.Base.{
  Steps, CanStep, Steps-work, ℕ, suc, ◌+◌, ◌<◌, ◌≤◌, ◌≡◌, ◌⊎◌, inl, inr, refl, Bool, true, false,
  some, arith, ltb, Bool-cases, ap,
}
use linux_exercises.Signals.Pair.{
  max_time, Child, unborn, starting, before_pause, pausing, awake, testing, leaving, exited,
  killed_usr1, killed_term, Parent, forking, terminating, waiting, failed, finished, sending, Pair,
  is_ended, fork, kill_usr1, kill_term, wait, parent_step, deliver_usr1, deliver_term, Actor,
  the_parent, the_child, sigusr1, sigterm, pair_turn, start,
}
use linux_exercises.Signals.ChildSteps.{child_step-Went, handle-Went, terminate-Went}
use linux_exercises.Signals.Work.{work, ChildOk, is_unborn, pair, Inv, Went, went}

module _ (c : Child) (n : ℕ) (b t : Bool) (u : Pair) where
  -- `kill` with SIGUSR1, in the loop.
  sends :
      (over : Bool) (i : ℕ)
      → is_ended c ≡ over
      → i < max_time
      → Inv (sending i) c n b t
      → some (record (kill_usr1 over (pair (sending i) c n b t)) { parent = sending (suc i) })
        ≡ some u
      → Went (work (pair (sending i) c n b t)) u
  sends true i l h v e = went _ _ u e (record {
    inv = record {
      counted = omega (arith, v.counted);
      child_ok = v.child_ok;
      parent_ok = (h, v.parent_ok.1);
    };
    less = omega (arith, h);
  })
  sends false i l h v e = went _ _ u e (record {
    inv = record {
      counted = omega (arith, v.counted);
      child_ok = v.child_ok;
      parent_ok = (h, v.parent_ok.1);
    };
    less = omega (arith, h);
  })

  ends_child :
      (over : Bool)
      → is_ended c ≡ over
      → Inv terminating c n b t
      → some (record (kill_term over (pair terminating c n b t)) { parent = waiting }) ≡ some u
      → Went (work (pair terminating c n b t)) u
  ends_child true l v e = went _ _ u e (record {
    inv = record { counted = v.counted; child_ok = v.child_ok; parent_ok = (v.parent_ok, inl l) };
    less = omega arith;
  })
  ends_child false l v e = went _ _ u e (record {
    inv = record {
      counted = v.counted;
      child_ok = v.child_ok;
      parent_ok = (v.parent_ok, inr refl);
    };
    less = omega arith;
  })

  waits :
      (over : Bool)
      → is_ended c ≡ over
      → Inv waiting c n b t
      → wait over (pair waiting c n b t) ≡ some u
      → Went (work (pair waiting c n b t)) u
  waits true l v e = went _ _ u e (record {
    inv = record { counted = v.counted; child_ok = v.child_ok; parent_ok = l };
    less = omega arith;
  })
  waits false l v e = absurd (cc)

  forks :
      (ok : Bool)
      → Inv forking c n b t
      → some (fork ok (pair forking c n b t)) ≡ some u
      → Went (work (pair forking c n b t)) u
  forks true v e = went _ _ u e (record {
    inv = record {
      counted = v.counted;
      child_ok = omega (arith, v.counted);
      parent_ok = (omega arith, refl);
    };
    less = omega arith;
  })
  forks false v e = went _ _ u e (record {
    inv = record { counted = omega (arith, v.counted); child_ok = v.child_ok; parent_ok = tt };
    less = omega arith;
  })

  parent_step-Went :
      (p : Parent) (ok : Bool)
      → Inv p c n b t
      → parent_step p ok (pair p c n b t) ≡ some u
      → Went (work (pair p c n b t)) u
  unfolding parent_step
  parent_step-Went forking ok v e = forks ok v e
  parent_step-Went (sending i) ok v e = elim (Bool-cases (ltb i max_time)) [
    | inl f ↦ sends (is_ended c) i refl (ground (arith, f)) v (rw f at e)
    | inr f ↦ went _ _ u (rw f at e) (record {
      inv = record {
        counted = omega (arith, v.counted, v.parent_ok.0);
        child_ok = v.child_ok;
        parent_ok = v.parent_ok.1;
      };
      less = omega arith;
    })
  ]
  parent_step-Went terminating ok v e = ends_child (is_ended c) refl v e
  parent_step-Went waiting ok v e = waits (is_ended c) refl v e
  parent_step-Went failed ok v e = absurd (cc)
  parent_step-Went finished ok v e = absurd (cc)

deliver_usr1-Went :
    (p : Parent) (c : Child) (n : ℕ) (b t : Bool) (u : Pair)
    → Inv p c n b t
    → deliver_usr1 b (pair p c n b t) ≡ some u
    → Went (work (pair p c n b t)) u
unfolding deliver_usr1
deliver_usr1-Went p c n true t u v e = handle-Went p n true t u c refl v e
deliver_usr1-Went p c n false t u v e = absurd (cc)

deliver_term-Went :
    (p : Parent) (c : Child) (n : ℕ) (b t : Bool) (u : Pair)
    → Inv p c n b t
    → deliver_term t (pair p c n b t) ≡ some u
    → Went (work (pair p c n b t)) u
unfolding deliver_term
deliver_term-Went p c n b true u v e = terminate-Went p n b true u c refl v e
deliver_term-Went p c n b false u v e = absurd (cc)

pair_turn-Went :
    (a : Actor) (p : Parent) (c : Child) (n : ℕ) (b t : Bool) (u : Pair)
    → Inv p c n b t
    → pair_turn a (pair p c n b t) ≡ some u
    → Went (work (pair p c n b t)) u
unfolding pair_turn
pair_turn-Went (the_parent ok) p c n b t u v e = parent_step-Went c n b t u p ok v e
pair_turn-Went the_child p c n b t u v e = child_step-Went p n b t u c v e
pair_turn-Went sigusr1 p c n b t u v e = deliver_usr1-Went p c n b t u v e
pair_turn-Went sigterm p c n b t u v e = deliver_term-Went p c n b t u v e

abbrev PairInv : Pair → Type 0
PairInv s = Inv s.parent s.child s.count s.usr1 s.term

Steps-PairInv : {n : ℕ} {s : Pair} → Steps pair_turn start n s → PairInv s × (n + work s ≤ 34)
Steps-PairInv =
    Steps-work pair_turn PairInv work
      (λ a s u v e.
        let w = pair_turn-Went a s.parent s.child s.count s.usr1 s.term u v e in (w.inv, w.less))
      (record { counted = omega arith; child_ok = refl; parent_ok = (refl, refl) })

-- The child has ended after five signals, by a signal that came before it could count any, or by the
-- SIGTERM.
abbrev pub HasEnded : Child → (count : ℕ) → Type 0
HasEnded c n = (c ≡ exited max_time) ⊎ ((c ≡ killed_usr1) × (n ≡ 0)) ⊎ (c ≡ killed_term)

HasEnded-ok : (c : Child) (n : ℕ) → ChildOk c n → is_ended c ≡ true → HasEnded c n
HasEnded-ok (exited k) n h e = inl (ap exited h)
HasEnded-ok killed_usr1 n h e = inr (inl (refl, h))
HasEnded-ok killed_term n h e = inr (inr refl)
HasEnded-ok unborn n h e = absurd (cc)
HasEnded-ok starting n h e = absurd (cc)
HasEnded-ok before_pause n h e = absurd (cc)
HasEnded-ok pausing n h e = absurd (cc)
HasEnded-ok awake n h e = absurd (cc)
HasEnded-ok testing n h e = absurd (cc)
HasEnded-ok leaving n h e = absurd (cc)

-- The parent waits, and the child has not ended.
awaited_step :
    (c : Child) (n : ℕ) (b : Bool)
    → is_unborn c ≡ false
    → CanStep pair_turn (pair waiting c n b true)
unfolding pair_turn parent_step deliver_term
awaited_step starting n b h = (sigterm, _, refl)
awaited_step before_pause n b h = (sigterm, _, refl)
awaited_step pausing n b h = (sigterm, _, refl)
awaited_step awake n b h = (sigterm, _, refl)
awaited_step testing n b h = (sigterm, _, refl)
awaited_step leaving n b h = (sigterm, _, refl)
awaited_step (exited k) n b h = (the_parent true, _, refl)
awaited_step killed_usr1 n b h = (the_parent true, _, refl)
awaited_step killed_term n b h = (the_parent true, _, refl)
awaited_step unborn n b h = absurd (cc)

can_step :
    (p : Parent) (c : Child) (n : ℕ) (b t : Bool)
    → Inv p c n b t
    → (p ≡ failed) ⊎ ((p ≡ finished) × HasEnded c n) ⊎ CanStep pair_turn (pair p c n b t)
unfolding pair_turn parent_step
can_step forking c n b t v = inr (inr (the_parent true, _, refl))
can_step (sending i) c n b t v = elim (Bool-cases (ltb i max_time)) [
  | inl f ↦ inr (
      inr (
        the_parent true,
        record (kill_usr1 (is_ended c) (pair (sending i) c n b t)) { parent = sending (suc i) },
        rw f refl,
      ))
  | inr f ↦ inr (inr (the_parent true, pair terminating c n b t, rw f refl))
]
can_step terminating c n b t v = inr (inr (the_parent true, _, refl))
can_step waiting c n b t v = elim v.parent_ok.1 [
  | inl e ↦ inr (inr (the_parent true, pair finished c n b t, rw e refl))
  | inr e ↦ rw e (inr (inr (awaited_step c n b v.parent_ok.0)))
]
can_step failed c n b t v = inl refl
can_step finished c n b t v = inr (inl (refl, HasEnded-ok c n v.child_ok v.parent_ok))

-- Whatever the order of the steps of the two processes of ex3_ipc_sigusr1.c and of the deliveries
-- of signals, there are at most 34 of them, and they go on until the parent has failed to fork or
-- has ended; then the child has ended as well: by itself, with a count of just 5, by a SIGUSR1
-- that came before its handler was set, or by the SIGTERM.
pub pair_ends :
    {n : ℕ} {s : Pair}
    → Steps pair_turn start n s
    → (n ≤ 34)
      × ((s.parent ≡ failed)
          ⊎ ((s.parent ≡ finished) × HasEnded s.child s.count)
          ⊎ CanStep pair_turn s)
pair_ends {n} {s} r =
    let (v, b) = Steps-PairInv r in
    (omega (arith, b), can_step s.parent s.child s.count s.usr1 s.term v)
