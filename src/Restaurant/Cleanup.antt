-- ===== src/Restaurant/Cleanup.antt =====
-- What the cleanup of app/main.c has done and has left to do.
use linux_exercises.Base.{◌≡◌, refl, Bool, true, false, List, [], ◌∷◌, ◌++◌, ap, sym, ◌∙◌, map, ◌⊎◌}
use mathlib.Core.List.{reverse, reverse-cons, append_assoc, append-nil}
use linux_exercises.Restaurant.Main.{
  Pid, Event, made_child, called_kill, called_waitpid, got_sigint, removed_memory, Stage, starting,
  live, leaving, ended, killed, killing, waiting, removing, Main,
}

-- The children that the events tell of, in their order.
unfoldable pub children_in : List Event → List Pid
children_in [] = []
children_in (made_child p ∷ log) = children_in log ++ p ∷ []
children_in (_ ∷ log) = children_in log

-- No kill, no waitpid, and the memory still there.
abbrev pub Running : List Event → Type 0
Running [] = Unit
Running (called_kill p ∷ log) = ⊥
Running (called_waitpid p ∷ log) = ⊥
Running (removed_memory ∷ log) = ⊥
Running (_ ∷ log) = Running log

-- A whole cleanup: a kill for each child, then a waitpid for each, then the removal of the memory.
abbrev pub calls : List Pid → List Event
calls ps = map called_kill ps ++ (map called_waitpid ps ++ removed_memory ∷ [])

-- After a run without such calls, the calls of a cleanup, up to those that are left.
pub record Cleaned (ps : List Pid) (log left : List Event) : Type 0 where
  pub run : List Event
  pub made : List Event
  pub events : reverse log ≡ reverse run ++ made
  pub split : made ++ left ≡ calls ps
  pub running : Running run
  pub all_children : children_in run ≡ ps

-- After such a run, the first calls of a cleanup, if any, a SIGINT, and the calls of a cleanup from its
-- beginning up to those that are left.
pub record Interrupted (ps : List Pid) (log left : List Event) : Type 0 where
  pub run : List Event
  pub cut : List Event
  pub rest : List Event
  pub made : List Event
  pub events : reverse log ≡ reverse run ++ (cut ++ got_sigint ∷ made)
  pub split_cut : cut ++ rest ≡ calls ps
  pub split : made ++ left ≡ calls ps
  pub running : Running run
  pub all_children : children_in run ≡ ps

abbrev pub Under : (in_handler : Bool) → List Pid → (log left : List Event) → Type 0
Under true ps log left = Interrupted ps log left
Under false ps log left = Cleaned ps log left

abbrev pub StageOk : Stage → List Pid → List Event → Type 0
StageOk starting ps log = (ps ≡ []) × (log ≡ [])
StageOk killed ps log = (ps ≡ []) × (log ≡ [])
StageOk live ps log = Running log × (children_in log ≡ ps)
StageOk (killing h qs) ps log =
    Under h ps log (map called_kill qs ++ (map called_waitpid ps ++ removed_memory ∷ []))
StageOk (waiting h qs) ps log = Under h ps log (map called_waitpid qs ++ removed_memory ∷ [])
StageOk (removing h) ps log = Under h ps log (removed_memory ∷ [])
StageOk leaving ps log = Cleaned ps log []
StageOk ended ps log = Cleaned ps log [] ⊎ Interrupted ps log []

abbrev pub MainOk : Main → Type 0
MainOk m = StageOk m.stage m.children m.log

module _ (ps : List Pid) (log : List Event) where
  moved :
      (made left : List Event) (e : Event)
      → made ++ e ∷ left ≡ calls ps
      → (made ++ e ∷ []) ++ left ≡ calls ps
  moved made left e s = append_assoc made (e ∷ []) left ∙ s

  -- The next call is made.
  pub called :
      (h : Bool) (e : Event) (left : List Event)
      → Under h ps log (e ∷ left)
      → Under h ps (e ∷ log) left
  called false e left c = record {
    run = c.run;
    made = c.made ++ e ∷ [];
    events =
        reverse-cons e log
        ∙ ap (λ l. l ++ e ∷ []) c.events
        ∙ append_assoc (reverse c.run) c.made (e ∷ []);
    split = moved c.made left e c.split;
    running = c.running;
    all_children = c.all_children;
  }
  called true e left c = record {
    run = c.run;
    cut = c.cut;
    rest = c.rest;
    made = c.made ++ e ∷ [];
    events =
        reverse-cons e log
        ∙ ap (λ l. l ++ e ∷ []) c.events
        ∙ append_assoc (reverse c.run) (c.cut ++ got_sigint ∷ c.made) (e ∷ [])
        ∙ ap (λ l. reverse c.run ++ l) (append_assoc c.cut (got_sigint ∷ c.made) (e ∷ []));
    split_cut = c.split_cut;
    split = moved c.made left e c.split;
    running = c.running;
    all_children = c.all_children;
  }

  -- The handler begins with a cleanup of its own.
  pub interrupted :
      (left : List Event) → Cleaned ps log left → Interrupted ps (got_sigint ∷ log) (calls ps)
  interrupted left c = record {
    run = c.run;
    cut = c.made;
    rest = left;
    made = [];
    events =
        reverse-cons got_sigint log
        ∙ ap (λ l. l ++ got_sigint ∷ []) c.events
        ∙ append_assoc (reverse c.run) c.made (got_sigint ∷ []);
    split_cut = c.split;
    split = refl;
    running = c.running;
    all_children = c.all_children;
  }

  -- No call has been made yet.
  pub at_first : Running log → children_in log ≡ ps → Cleaned ps log (calls ps)
  at_first r c = record {
    run = log;
    made = [];
    events = sym (append-nil (reverse log));
    split = refl;
    running = r;
    all_children = c;
  }
