-- ===== src/Signals/ChildSteps.antt =====
-- What the steps of the child of ex3_ipc_sigusr1.c, and the signals to it, keep and leave to do.
use linux_exercises.Base.{
  ℕ, suc, ◌+◌, ◌*◌, ◌<◌, ◌≤◌, ◌≡◌, inl, inr, refl, Bool, true, false, some, arith, leb, Bool-cases,
}
use linux_exercises.Signals.Pair.{
  max_time, Child, unborn, starting, before_pause, pausing, awake, testing, leaving, exited,
  killed_usr1, killed_term, Parent, forking, terminating, waiting, failed, finished, sending, Pair,
  is_ended, child_step, handle, terminate,
}
use linux_exercises.Signals.Work.{
  bit, sent, work, child_work, ChildOk, is_unborn, ParentOk, pair, Inv, Went, went, ParentOk-child,
  ParentOk-ended,
}

module _ (p : Parent) (n : ℕ) (b t : Bool) (u : Pair) where
  -- The child makes a step of its own, which leaves the count alone.
  moves :
      (c c' : Child)
      → is_unborn c ≡ false
      → is_unborn c' ≡ false
      → is_ended c ≡ false
      → child_work c' < child_work c
      → ChildOk c' n
      → Inv p c n b t
      → some (pair p c' n b t) ≡ some u
      → Went (work (pair p c n b t)) u
  moves c c' h h' l less k v e = went _ (pair p c' n b t) u e (record {
    inv = record {
      counted = v.counted;
      child_ok = k;
      parent_ok = ParentOk-child p c c' t h h' l v.parent_ok;
    };
    less = omega (arith, less);
  })

  sent-le : (c : Child) → Inv p c n b t → sent p ≤ max_time
  sent-le c v = bound p v.parent_ok
    where
      bound : (p : Parent) → ParentOk p c t → sent p ≤ max_time
      bound forking k = omega arith
      bound (sending i) k = k.0
      bound terminating k = omega arith
      bound waiting k = omega arith
      bound failed k = omega arith
      bound finished k = omega arith

  leaves :
      Inv p leaving n b t
      → some (pair p (exited n) n b t) ≡ some u
      → Went (work (pair p leaving n b t)) u
  leaves v e = went _ (pair p (exited n) n b t) u e (record {
    inv = record {
      counted = v.counted;
      child_ok = omega (arith, v.child_ok, v.counted, sent-le leaving v);
      parent_ok = ParentOk-ended p leaving (exited n) t t refl refl refl v.parent_ok;
    };
    less = omega arith;
  })

  pub child_step-Went :
      (c : Child)
      → Inv p c n b t
      → child_step c (pair p c n b t) ≡ some u
      → Went (work (pair p c n b t)) u
  unfolding child_step
  child_step-Went unborn v e = absurd (cc)
  child_step-Went starting v e = moves starting before_pause refl refl refl (omega arith) tt v e
  child_step-Went before_pause v e = moves before_pause pausing refl refl refl (omega arith) tt v e
  child_step-Went pausing v e = absurd (cc)
  child_step-Went awake v e = moves awake testing refl refl refl (omega arith) tt v e
  child_step-Went testing v e = elim (Bool-cases (leb max_time n)) [
    | inl f ↦ moves testing leaving refl refl refl (omega arith) (ground (arith, f)) v (rw f at e)
    | inr f ↦ moves testing before_pause refl refl refl (omega arith) tt v (rw f at e)
  ]
  child_step-Went leaving v e = leaves v e
  child_step-Went (exited k) v e = absurd (cc)
  child_step-Went killed_usr1 v e = absurd (cc)
  child_step-Went killed_term v e = absurd (cc)

  -- The signal is counted.
  counts :
      (c c' : Child)
      → is_unborn c ≡ false
      → is_unborn c' ≡ false
      → is_ended c ≡ false
      → child_work c' < child_work c + 4
      → ChildOk c' (suc n)
      → b ≡ true
      → Inv p c n b t
      → some (pair p c' (suc n) false t) ≡ some u
      → Went (work (pair p c n b t)) u
  counts c c' h h' l less k y v e =
      let w : n + 1 ≤ sent p = rw y at v.counted in
      went _ (pair p c' (suc n) false t) u e (record {
        inv = record {
          counted = omega (arith, w);
          child_ok = k;
          parent_ok = ParentOk-child p c c' t h h' l v.parent_ok;
        };
        less = rw y (omega (arith, less));
      })

  dies :
      (b' t' : Bool) (c c' : Child)
      → is_unborn c ≡ false
      → is_unborn c' ≡ false
      → is_ended c' ≡ true
      → 4 * bit b' + bit t' < 4 * bit b + bit t
      → bit b' ≤ bit b
      → child_work c' ≡ 0
      → ChildOk c' n
      → Inv p c n b t
      → some (pair p c' n b' t') ≡ some u
      → Went (work (pair p c n b t)) u
  dies b' t' c c' h h' l less m z k v e = went _ (pair p c' n b' t') u e (record {
    inv = record {
      counted = omega (arith, v.counted, m);
      child_ok = k;
      parent_ok = ParentOk-ended p c c' t t' h h' l v.parent_ok;
    };
    less = omega (arith, less, z);
  })

  pub handle-Went :
      (c : Child)
      → b ≡ true
      → Inv p c n b t
      → handle c (pair p c n b t) ≡ some u
      → Went (work (pair p c n b t)) u
  handle-Went unborn y v e = absurd (cc)
  handle-Went starting y v e =
      dies false t starting killed_usr1 refl refl refl (rw y (omega arith)) (omega arith) refl
        v.child_ok v e
  handle-Went before_pause y v e =
      counts before_pause before_pause refl refl refl (omega arith) tt y v e
  handle-Went pausing y v e = counts pausing awake refl refl refl (omega arith) tt y v e
  handle-Went awake y v e = counts awake awake refl refl refl (omega arith) tt y v e
  handle-Went testing y v e = counts testing testing refl refl refl (omega arith) tt y v e
  handle-Went leaving y v e =
      counts leaving leaving refl refl refl (omega arith) (omega (arith, v.child_ok)) y v e
  handle-Went (exited k) y v e = absurd (cc)
  handle-Went killed_usr1 y v e = absurd (cc)
  handle-Went killed_term y v e = absurd (cc)

  killed :
      (c : Child)
      → is_unborn c ≡ false
      → is_ended c ≡ false
      → t ≡ true
      → Inv p c n b t
      → some (pair p killed_term n b false) ≡ some u
      → Went (work (pair p c n b t)) u
  killed c h l y v e =
      dies b false c killed_term h refl refl (rw y (omega arith)) (omega arith) refl tt v e

  pub terminate-Went :
      (c : Child)
      → t ≡ true
      → Inv p c n b t
      → terminate c (pair p c n b t) ≡ some u
      → Went (work (pair p c n b t)) u
  terminate-Went starting y v e = killed starting refl refl y v e
  terminate-Went before_pause y v e = killed before_pause refl refl y v e
  terminate-Went pausing y v e = killed pausing refl refl y v e
  terminate-Went awake y v e = killed awake refl refl y v e
  terminate-Went testing y v e = killed testing refl refl y v e
  terminate-Went leaving y v e = killed leaving refl refl y v e
  terminate-Went unborn y v e = absurd (cc)
  terminate-Went (exited k) y v e = absurd (cc)
  terminate-Went killed_usr1 y v e = absurd (cc)
  terminate-Went killed_term y v e = absurd (cc)
