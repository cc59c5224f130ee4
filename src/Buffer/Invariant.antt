-- ===== src/Buffer/Invariant.antt =====
-- What holds whatever the order of turns of the threads of nConsumer.c.
use linux_exercises.Base.{
  ℕ, suc, ◌+◌, ◌-◌, ◌<◌, ◌≤◌, ◌≡◌, refl, true, some, List, [], ◌++◌, arith, length, get_elem?, set,
  All, All-set, All-get_elem?,
}
use linux_exercises.Buffer.Ring.{buffer_size, Shows, empty_ring-Shows}
use linux_exercises.Buffer.Workers.{
  Role, producer, consumer, Thread, awake, asleep, limit, Plant, must_wait, start,
}
use linux_exercises.Buffer.Tally.{InLoop, readies, asleeps, lefts, set-Changed, Signalled}

-- The items: those taken and those in the buffer are those laid down, in that order.
pub record InOrder (p : Plant) : Type 0 where
  pub queue : List ℕ
  pub shows : Shows p.ring queue
  pub order : p.made ≡ p.used ++ queue

-- While a producer waits, the buffer is full or will be filled by producers that were woken up; the
-- same for consumers and an empty buffer.
pub record Balanced (n m u : ℕ) (ts : List Thread) : Type 0 where
  pub cond_full : 0 < asleeps producer ts → buffer_size ≤ n + readies producer ts
  pub cond_empty : 0 < asleeps consumer ts → n ≤ readies consumer ts
  pub made : m + lefts producer ts ≡ 20
  pub used : u + lefts consumer ts ≡ 18
  pub in_loop : All InLoop ts

pub record Inv (p : Plant) : Type 0 where
  pub in_order : InOrder p
  pub balanced : Balanced p.ring.count (length p.made) (length p.used) p.threads

pub start-Inv : Inv start
start-Inv = record {
  in_order = record { queue = []; shows = empty_ring-Shows; order = refl };
  balanced = record {
    cond_full = λ h. absurd (omega (arith, h));
    cond_empty = λ h. omega arith;
    made = refl;
    used = refl;
    in_loop = ground arith;
  };
}

-- A thread starts to wait.
pub wait-Balanced :
    (r : Role) (i j : ℕ) (p : Plant)
    → Inv p
    → get_elem? p.threads j ≡ some (awake r i)
    → i < limit r
    → must_wait r p.ring ≡ true
    → Balanced p.ring.count (length p.made) (length p.used) (set p.threads j (asleep r i))
wait-Balanced producer i j p v e l w =
    let c = set-Changed p.threads j (awake producer i) (asleep producer i) producer e in
    let d = set-Changed p.threads j (awake producer i) (asleep producer i) consumer e in
    record {
      cond_full = λ h. ground (arith, c, d, v.balanced);
      cond_empty = λ h. ground (arith, c, d, v.balanced);
      made = omega (arith, c, v.balanced);
      used = omega (arith, d, v.balanced);
      in_loop = All-set InLoop p.threads j v.balanced.in_loop (omega (arith, l));
    }
wait-Balanced consumer i j p v e l w =
    let c = set-Changed p.threads j (awake consumer i) (asleep consumer i) consumer e in
    let d = set-Changed p.threads j (awake consumer i) (asleep consumer i) producer e in
    record {
      cond_full = λ h. ground (arith, c, d, v.balanced);
      cond_empty = λ h. ground (arith, c, d, v.balanced);
      made = omega (arith, d, v.balanced);
      used = omega (arith, c, v.balanced);
      in_loop = All-set InLoop p.threads j v.balanced.in_loop (omega (arith, l));
    }

-- A producer lays an item down and signals.
pub made-Balanced :
    {n m u : ℕ} (i j : ℕ) (ts us : List Thread)
    → Balanced n m u ts
    → get_elem? ts j ≡ some (awake producer i)
    → i < limit producer
    → Signalled consumer (set ts j (awake producer (suc i))) us
    → Balanced (n + 1) (m + 1) u us
made-Balanced i j ts us b e l g =
    let c = set-Changed ts j (awake producer i) (awake producer (suc i)) producer e in
    let d = set-Changed ts j (awake producer i) (awake producer (suc i)) consumer e in
    record {
      cond_full = λ h. ground (arith, c, d, g, b);
      cond_empty = λ h. ground (arith, c, d, g, b);
      made = omega (arith, c, b, g);
      used = omega (arith, d, b, g);
      in_loop = g.in_loop;
    }

pub used-Balanced :
    {n m u : ℕ} (i j : ℕ) (ts us : List Thread)
    → Balanced n m u ts
    → 0 < n
    → get_elem? ts j ≡ some (awake consumer i)
    → i < limit consumer
    → Signalled producer (set ts j (awake consumer (suc i))) us
    → Balanced (n - 1) m (u + 1) us
used-Balanced i j ts us b z e l g =
    let c = set-Changed ts j (awake consumer i) (awake consumer (suc i)) consumer e in
    let d = set-Changed ts j (awake consumer i) (awake consumer (suc i)) producer e in
    record {
      cond_full = λ h. ground (arith, c, d, g, b);
      cond_empty = λ h. ground (arith, c, d, g, b);
      made = omega (arith, d, b, g);
      used = omega (arith, c, b, g);
      in_loop = g.in_loop;
    }

-- A thread that slept and goes on.
pub woken-Balanced :
    {n m u : ℕ} (r : Role) (i j : ℕ) (ts : List Thread)
    → Balanced n m u ts
    → get_elem? ts j ≡ some (asleep r i)
    → Balanced n m u (set ts j (awake r i))
woken-Balanced producer i j ts b e =
    let c = set-Changed ts j (asleep producer i) (awake producer i) producer e in
    let d = set-Changed ts j (asleep producer i) (awake producer i) consumer e in
    let l = All-get_elem? InLoop ts j b.in_loop e in
    record {
      cond_full = λ h. ground (arith, c, d, l, b);
      cond_empty = λ h. ground (arith, c, d, l, b);
      made = omega (arith, c, b);
      used = omega (arith, d, b);
      in_loop = All-set InLoop ts j b.in_loop (omega (arith, l));
    }
woken-Balanced consumer i j ts b e =
    let c = set-Changed ts j (asleep consumer i) (awake consumer i) consumer e in
    let d = set-Changed ts j (asleep consumer i) (awake consumer i) producer e in
    let l = All-get_elem? InLoop ts j b.in_loop e in
    record {
      cond_full = λ h. ground (arith, c, d, l, b);
      cond_empty = λ h. ground (arith, c, d, l, b);
      made = omega (arith, d, b);
      used = omega (arith, c, b);
      in_loop = All-set InLoop ts j b.in_loop (omega (arith, l));
    }
