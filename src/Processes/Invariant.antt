-- ===== src/Processes/Invariant.antt =====
-- What holds of parent and child at any time.
use linux_exercises.Base.{
  ℕ, ◌+◌, ◌<◌, ◌≡◌, refl, Bool, true, false, some, some-eq-some, List, [], ◌∷◌, arith, length,
  subst, sym, ◌∙◌, false≢true,
}
use linux_exercises.Processes.Family.{
  Status, exited, signalled, Line, status_is, Act, says, says_parent, sleeps, waits, ends, runs,
  Process, alive, zombie, gone, Family, parent_step, child_step, turn, parent_ends, report,
  parent_is, is_alive, ended_child, of_parent, of_child,
}

-- How a process will end.
abbrev pub status_of : List Act → Status
status_of [] = exited 0
status_of (ends code ∷ cs) = exited code
status_of (runs st ∷ cs) = st
status_of (_ ∷ cs) = status_of cs

-- Whether a parent has its `wait` before it.
abbrev pub awaits : List Act → Bool
awaits [] = false
awaits (waits ∷ ps) = true
awaits (ends code ∷ ps) = false
awaits (runs st ∷ ps) = false
awaits (_ ∷ ps) = awaits ps

-- It does no more than end.
abbrev pub AtEnd : List Act → Type 0
AtEnd (ends code ∷ ps) = Unit
AtEnd _ = ⊥

-- Once it has waited, the parent ends.
abbrev pub IsTidy : List Act → Type 0
IsTidy [] = Unit
IsTidy (waits ∷ ps) = AtEnd ps
IsTidy (_ ∷ ps) = IsTidy ps

-- The latest line is the report of this status.
abbrev pub IsReported : Status → List Line → Type 0
IsReported (exited code) [] = ⊥
IsReported (exited code) (l ∷ log) = l ≡ status_is code
IsReported signalled log = Unit

module _ (st : Status) (w : Bool) where
  -- `w` is whether the parent waits at all, and `st` how the child ends.
  abbrev pub FamilyOk : (parent child : Process) → List Line → Type 0
  FamilyOk (alive ps) (alive cs) log = (status_of cs ≡ st) × (awaits ps ≡ w) × IsTidy ps
  FamilyOk (alive ps) (zombie x) log = (x ≡ st) × (awaits ps ≡ w) × IsTidy ps
  FamilyOk (alive ps) gone log = AtEnd ps × (w ≡ true) × IsReported st log
  FamilyOk (zombie x) child log = ⊥
  FamilyOk gone (alive cs) log = w ≡ false
  FamilyOk gone (zombie x) log = ⊥
  FamilyOk gone gone log = w ≡ true → IsReported st log

abbrev pub to_do : Process → ℕ
to_do (alive ps) = 1 + length ps
to_do (zombie x) = 0
to_do gone = 0

abbrev pub family : (parent child : Process) → List Line → Family
family p c log = record { parent = p; child = c; log = log }

-- A step keeps this and leaves less to do.
pub record Went (st : Status) (w : Bool) (before : ℕ) (g : Family) : Type 0 where
  pub ok : FamilyOk st w g.parent g.child g.log
  pub less : to_do g.parent + to_do g.child < before

IsReported-report : (st : Status) (log : List Line) → IsReported st (report st log)
IsReported-report (exited code) log = refl
IsReported-report signalled log = tt

module _ (st : Status) (w : Bool) (g : Family) where
  went :
      (k : ℕ) (f : Family)
      → some f ≡ some g
      → FamilyOk st w f.parent f.child f.log
      → to_do f.parent + to_do f.child < k
      → Went st w k g
  went k f e h l = subst (Went st w k) (some-eq-some f g e) (record { ok = h; less = l })

  parent_ends-ok :
      (ps : List Act) (c : Process) (log : List Line)
      → awaits ps ≡ false
      → FamilyOk st w (alive ps) c log
      → some (parent_ends (family (alive ps) c log)) ≡ some g
      → Went st w (to_do (alive ps) + to_do c) g
  parent_ends-ok ps (alive cs) log a h e = went _ _ e (sym h.1 ∙ a) (omega arith)
  parent_ends-ok ps (zombie x) log a h e =
      went _ _ e (λ t. absurd (false≢true (sym a ∙ h.1 ∙ t))) (omega arith)
  parent_ends-ok ps gone log a h e = went _ _ e (λ _. h.2) (omega arith)

  parent_step-Went :
      (ps : List Act) (c : Process) (log : List Line)
      → FamilyOk st w (alive ps) c log
      → parent_step ps (family (alive ps) c log) ≡ some g
      → Went st w (to_do (alive ps) + to_do c) g
  unfolding parent_step
  parent_step-Went [] c log h e = parent_ends-ok [] c log refl h e
  parent_step-Went (ends code ∷ ps) c log h e = parent_ends-ok (ends code ∷ ps) c log refl h e
  parent_step-Went (runs x ∷ ps) c log h e = parent_ends-ok (runs x ∷ ps) c log refl h e
  parent_step-Went (says l ∷ ps) (alive cs) log h e = went _ _ e h (omega arith)
  parent_step-Went (says l ∷ ps) (zombie x) log h e = went _ _ e h (omega arith)
  parent_step-Went (says l ∷ ps) gone log h e = absurd h.0
  parent_step-Went (says_parent ∷ ps) (alive cs) log h e = went _ _ e h (omega arith)
  parent_step-Went (says_parent ∷ ps) (zombie x) log h e = went _ _ e h (omega arith)
  parent_step-Went (says_parent ∷ ps) gone log h e = absurd h.0
  parent_step-Went (sleeps ∷ ps) (alive cs) log h e = went _ _ e h (omega arith)
  parent_step-Went (sleeps ∷ ps) (zombie x) log h e = went _ _ e h (omega arith)
  parent_step-Went (sleeps ∷ ps) gone log h e = absurd h.0
  parent_step-Went (waits ∷ ps) (alive cs) log h e = absurd (cc)
  parent_step-Went (waits ∷ ps) (zombie x) log h e =
      went _ _ e
        (h.2, sym h.1, subst (λ y. IsReported y (report x log)) h.0 (IsReported-report x log))
        (omega arith)
  parent_step-Went (waits ∷ ps) gone log h e = absurd h.0

  child_ends :
      (p : Process) (cs : List Act) (log : List Line)
      → FamilyOk st w p (alive cs) log
      → some (family p (ended_child p (status_of cs)) log) ≡ some g
      → Went st w (to_do p + to_do (alive cs)) g
  child_ends (alive ps) cs log h e = went _ _ e h (omega arith)
  child_ends (zombie x) cs log h e = absurd h
  child_ends gone cs log h e = went _ _ e (λ t. absurd (false≢true (sym h ∙ t))) (omega arith)

  -- The child goes on to `ds`, after a line or none.
  child_goes :
      (p : Process) (cs ds : List Act) (log log' : List Line)
      → status_of ds ≡ status_of cs
      → length ds < length cs
      → FamilyOk st w p (alive cs) log
      → some (family p (alive ds) log') ≡ some g
      → Went st w (to_do p + to_do (alive cs)) g
  child_goes (alive ps) cs ds log log' q l h e = went _ _ e (q ∙ h.0, h.1, h.2) (omega (arith, l))
  child_goes (zombie x) cs ds log log' q l h e = absurd h
  child_goes gone cs ds log log' q l h e = went _ _ e h (omega (arith, l))

  child_step-Went :
      (p : Process) (cs : List Act) (log : List Line)
      → FamilyOk st w p (alive cs) log
      → child_step cs (family p (alive cs) log) ≡ some g
      → Went st w (to_do p + to_do (alive cs)) g
  unfolding child_step
  child_step-Went p [] log h e = child_ends p [] log h e
  child_step-Went p (says l ∷ cs) log h e =
      child_goes p (says l ∷ cs) cs log (l ∷ log) refl (omega arith) h e
  child_step-Went p (says_parent ∷ cs) log h e =
      child_goes p (says_parent ∷ cs) cs log (parent_is (is_alive p) ∷ log) refl (omega arith) h e
  child_step-Went p (sleeps ∷ cs) log h e =
      child_goes p (sleeps ∷ cs) cs log log refl (omega arith) h e
  child_step-Went p (waits ∷ cs) log h e =
      child_goes p (waits ∷ cs) cs log log refl (omega arith) h e
  child_step-Went p (ends code ∷ cs) log h e = child_ends p (ends code ∷ cs) log h e
  child_step-Went p (runs x ∷ cs) log h e = child_ends p (runs x ∷ cs) log h e

  of_parent-Went :
      (p c : Process) (log : List Line)
      → FamilyOk st w p c log
      → of_parent p (family p c log) ≡ some g
      → Went st w (to_do p + to_do c) g
  of_parent-Went (alive ps) c log h e = parent_step-Went ps c log h e
  of_parent-Went (zombie x) c log h e = absurd (cc)
  of_parent-Went gone c log h e = absurd (cc)

  of_child-Went :
      (p c : Process) (log : List Line)
      → FamilyOk st w p c log
      → of_child c (family p c log) ≡ some g
      → Went st w (to_do p + to_do c) g
  of_child-Went p (alive cs) log h e = child_step-Went p cs log h e
  of_child-Went p (zombie x) log h e = absurd (cc)
  of_child-Went p gone log h e = absurd (cc)

  pub turn-Went :
      (b : Bool) (p c : Process) (log : List Line)
      → FamilyOk st w p c log
      → turn b (family p c log) ≡ some g
      → Went st w (to_do p + to_do c) g
  unfolding turn
  turn-Went true p c log h e = of_parent-Went p c log h e
  turn-Went false p c log h e = of_child-Went p c log h e
