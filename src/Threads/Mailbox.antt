-- ===== src/Threads/Mailbox.antt =====
-- S4_Thread/ex3_condition_variable.c: a producer hands numbers to a consumer, one at a time, with one
-- condition variable for both. A turn of a thread runs from having the lock to giving it up.
use linux_exercises.Base.{
  ℕ, ◌+◌, Bool, true, false, Option, none, some, List, [], ◌∷◌, ◌++◌, ltb, if◌then◌else◌, ◌≡◌,
}

abbrev pub number_datas : ℕ
number_datas = 10

-- The globals, each thread's loop counter and whether it waits on `g_cond`, and the numbers that
-- have been handed in and taken out so far, oldest first.
pub record Mailbox : Type 0 where
  pub data_ : ℕ
  pub ready : Bool
  pub prod_i : ℕ
  pub cons_i : ℕ
  pub prod_waits : Bool
  pub cons_waits : Bool
  pub made : List ℕ
  pub seen : List ℕ

-- A turn of the producer, where `rand` gives `x`. The signal can only reach the other thread. A
-- waiting thread may wake up without a signal.
unfoldable pub produce : ℕ → Mailbox → Option Mailbox
produce x m =
    if m.prod_waits
    then some (record m { prod_waits = false })
    else if ltb m.prod_i number_datas
    then (if m.ready
        then some (record m { prod_waits = true })
        else some (record m {
          data_ = x;
          ready = true;
          prod_i = m.prod_i + 1;
          cons_waits = false;
          made = m.made ++ x ∷ [];
        }))
    else none

unfoldable pub consume : Mailbox → Option Mailbox
consume m =
    if m.cons_waits
    then some (record m { cons_waits = false })
    else if ltb m.cons_i number_datas
    then (if m.ready
        then some (record m {
          ready = false;
          cons_i = m.cons_i + 1;
          prod_waits = false;
          seen = m.seen ++ m.data_ ∷ [];
        })
        else some (record m { cons_waits = true }))
    else none

abbrev pub empty_box : Mailbox
empty_box = record {
  data_ = 0;
  ready = false;
  prod_i = 0;
  cons_i = 0;
  prod_waits = false;
  cons_waits = false;
  made = [];
  seen = [];
}

pub data BoxReach (s : Mailbox) : Mailbox → Type 0 where
  untouched : BoxReach s s
  producer_turn : {t u : Mailbox} → BoxReach s t → (x : ℕ) → produce x t ≡ some u → BoxReach s u
  consumer_turn : {t u : Mailbox} → BoxReach s t → consume t ≡ some u → BoxReach s u
