-- ===== src/Signals/Work.antt =====
-- What ex3_ipc_sigusr1.c has left to do, and the invariant of its processes.
use linux_exercises.Base.{
  false≢true, ℕ, ◌+◌, ◌-◌, ◌*◌, ◌<◌, ◌≤◌, ◌≡◌, ◌≢◌, ◌⊎◌, inl, inr, Bool, true, false, some,
  some-eq-some, subst, sym, ap, ◌∙◌,
}
use linux_exercises.Signals.Pair.{
  max_time, Child, unborn, starting, before_pause, pausing, awake, testing, leaving, exited,
  killed_usr1, Parent, forking, terminating, waiting, failed, finished, sending, Pair, is_ended,
}

abbrev pub bit : Bool → ℕ
bit true = 1
bit false = 0

-- The signals sent so far.
abbrev pub sent : Parent → ℕ
sent forking = 0
sent (sending i) = i
sent _ = max_time

-- What each is still to do.
abbrev pub parent_work : Parent → ℕ
parent_work forking = 34
parent_work (sending i) = 4 + 5 * (max_time - i)
parent_work terminating = 3
parent_work waiting = 1
parent_work failed = 0
parent_work finished = 0

abbrev pub child_work : Child → ℕ
child_work unborn = 0
child_work starting = 2
child_work before_pause = 1
child_work pausing = 0
child_work awake = 3
child_work testing = 2
child_work leaving = 1
child_work _ = 0

abbrev pub work : Pair → ℕ
work s = parent_work s.parent + child_work s.child + 4 * bit s.usr1 + bit s.term

-- The child, by the count.
abbrev pub ChildOk : Child → (count : ℕ) → Type 0
ChildOk unborn c = c ≡ 0
ChildOk starting c = c ≡ 0
ChildOk leaving c = max_time ≤ c
ChildOk (exited n) c = n ≡ max_time
ChildOk killed_usr1 c = c ≡ 0
ChildOk _ c = Unit

abbrev pub is_unborn : Child → Bool
is_unborn unborn = true
is_unborn _ = false

-- The parent, by the child: it waits for a child that has ended, or to which a SIGTERM is on its way.
abbrev pub ParentOk : Parent → Child → (term : Bool) → Type 0
ParentOk forking c t = (c ≡ unborn) × (t ≡ false)
ParentOk (sending i) c t = (i ≤ max_time) × (is_unborn c ≡ false)
ParentOk terminating c t = is_unborn c ≡ false
ParentOk waiting c t = (is_unborn c ≡ false) × ((is_ended c ≡ true) ⊎ (t ≡ true))
ParentOk failed c t = Unit
ParentOk finished c t = is_ended c ≡ true

abbrev pub pair : Parent → Child → (count : ℕ) → (usr1 term : Bool) → Pair
pair p c n b t = record { parent = p; child = c; count = n; usr1 = b; term = t }

pub record Inv (p : Parent) (c : Child) (n : ℕ) (b t : Bool) : Type 0 where
  pub counted : n + bit b ≤ sent p
  pub child_ok : ChildOk c n
  pub parent_ok : ParentOk p c t

-- A step keeps the invariant and leaves less to do.
pub record Went (before : ℕ) (u : Pair) : Type 0 where
  pub inv : Inv u.parent u.child u.count u.usr1 u.term
  pub less : work u < before

pub went : (k : ℕ) (x u : Pair) → some x ≡ some u → Went k x → Went k u
went k x u e w = subst (Went k) (some-eq-some x u e) w

unborn_clash : (c : Child) → is_unborn c ≡ false → c ≢ unborn
unborn_clash c h e = false≢true (sym h ∙ ap is_unborn e)

-- The child goes on, and does not end.
pub ParentOk-child :
    (p : Parent) (c c' : Child) (t : Bool)
    → is_unborn c ≡ false
    → is_unborn c' ≡ false
    → is_ended c ≡ false
    → ParentOk p c t
    → ParentOk p c' t
ParentOk-child forking c c' t h h' l k = absurd (unborn_clash c h k.0)
ParentOk-child (sending i) c c' t h h' l k = (k.0, h')
ParentOk-child terminating c c' t h h' l k = h'
ParentOk-child waiting c c' t h h' l (k, inl m) = absurd (false≢true (sym l ∙ m))
ParentOk-child waiting c c' t h h' l (k, inr m) = (h', inr m)
ParentOk-child failed c c' t h h' l k = tt
ParentOk-child finished c c' t h h' l k = absurd (false≢true (sym l ∙ k))

-- The child ends.
pub ParentOk-ended :
    (p : Parent) (c c' : Child) (t t' : Bool)
    → is_unborn c ≡ false
    → is_unborn c' ≡ false
    → is_ended c' ≡ true
    → ParentOk p c t
    → ParentOk p c' t'
ParentOk-ended forking c c' t t' h h' l k = absurd (unborn_clash c h k.0)
ParentOk-ended (sending i) c c' t t' h h' l k = (k.0, h')
ParentOk-ended terminating c c' t t' h h' l k = h'
ParentOk-ended waiting c c' t t' h h' l k = (h', inl l)
ParentOk-ended failed c c' t t' h h' l k = tt
ParentOk-ended finished c c' t t' h h' l k = l
