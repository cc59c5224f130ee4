-- ===== src/Threads/Race/Schedule.antt =====
-- Orders of the steps of ex2_race_condition_mutx.c.
use linux_exercises.Base.{
  ℕ, zero, suc, ◌+◌, ◌-◌, ◌*◌, ◌<◌, ◌≤◌, ◌≡◌, refl, true, some, List, [], ◌∷◌, arith, ltb, length,
  set, get_elem?-set_self, subst, ap,
}
use linux_exercises.Threads.Race.{
  Thread, counting, loaded, thread_step, increments, joining, printed, Race, main_step, turn,
  main_thread, thread, Reach, here, later,
}

-- All threads are there, and main waits for the first.
abbrev pub waiting : (counter : ℕ) → List Thread → Race
waiting c ts = record { counter = c; threads = ts; stage = joining 0 }

set-set : (ts : List Thread) (j : ℕ) (a b : Thread) → set (set ts j a) j b ≡ set ts j b
set-set [] j a b = refl
set-set (x ∷ ts) zero a b = refl
set-set (x ∷ ts) (suc j) a b = ap (λ y. x ∷ y) (set-set ts j a b)

module _ {c : ℕ} (ts : List Thread) (j i : ℕ) where
  -- Thread `j` loads the counter.
  pub Reach-load :
      j < length ts
      → i < increments
      → Reach (waiting c (set ts j (counting i)))
      → Reach (waiting c (set ts j (loaded i c)))
  unfolding turn thread_step
  Reach-load l h r = later r (thread j) (
      rw (get_elem?-set_self ts j (counting i) l, lt_of i h)
        (ap (λ x. some (waiting c x)) (set-set ts j (counting i) (loaded i c))))
    where
      lt_of : (i : ℕ) → i < increments → ltb i increments ≡ true
      lt_of i h = ground (arith, h)

  -- Thread `j` stores what it has loaded, and 1 more.
  pub Reach-store :
      (v : ℕ)
      → j < length ts
      → Reach (waiting c (set ts j (loaded i v)))
      → Reach (waiting (v + 1) (set ts j (counting (i + 1))))
  unfolding turn thread_step
  Reach-store v l r = later r (thread j) (
      rw (get_elem?-set_self ts j (loaded i v) l)
        (ap (λ x. some (waiting (v + 1) x)) (set-set ts j (loaded i v) (counting (i + 1)))))

relocate :
    {c c' i i' : ℕ} (ts : List Thread) (j : ℕ)
    → c ≡ c'
    → i ≡ i'
    → Reach (waiting c (set ts j (counting i)))
    → Reach (waiting c' (set ts j (counting i')))
relocate {c' = c'} {i = i} ts j p q r =
    subst (λ n. Reach (waiting c' (set ts j (counting n)))) q
      (subst (λ n. Reach (waiting n (set ts j (counting i)))) p r)

-- Thread `j` makes `k` whole rounds alone.
pub Reach-rounds :
    (k c i : ℕ) (ts : List Thread) (j : ℕ)
    → j < length ts
    → (c' i' : ℕ) → c + k ≡ c'
    → i + k ≡ i'
    → i' ≤ increments
    → Reach (waiting c (set ts j (counting i)))
    → Reach (waiting c' (set ts j (counting i')))
Reach-rounds zero c i ts j l c' i' p q h r = relocate ts j (omega (arith, p)) (omega (arith, q)) r
Reach-rounds (suc k) c i ts j l c' i' p q h r =
    let s = Reach-store ts j i c l (Reach-load ts j i l (omega (arith, h, q)) r) in
    Reach-rounds k (c + 1) (i + 1) ts j l c' i' (omega (arith, p)) (omega (arith, q)) h s

abbrev full : Thread
full = counting increments

-- The three threads.
abbrev pub three : (a b c : Thread) → List Thread
three a b c = a ∷ b ∷ c ∷ []

-- Every call succeeds, and the threads make no step before the last of them has been created.
pub Reach-waiting : Reach (waiting 0 (three (counting 0) (counting 0) (counting 0)))
unfolding turn main_step
Reach-waiting =
    let a = later here (main_thread true) refl in
    let b = later a (main_thread true) refl in
    let c = later b (main_thread true) refl in
    let d = later c (main_thread true) refl in later d (main_thread true) refl

-- Once they have ended, main joins them and prints the counter.
pub Reach-printed :
    (c : ℕ)
    → (let ts = three (counting increments) (counting increments) (counting increments) in
        Reach (waiting c ts) → Reach (record { counter = c; threads = ts; stage = printed c }))
unfolding turn main_step
Reach-printed c r =
    let a = later r (main_thread true) refl in
    let b = later a (main_thread true) refl in
    let d = later b (main_thread true) refl in later d (main_thread true) refl

-- Thread 0 loads the counter, and stores 1 after `x` rounds of thread 2 and `y` of thread 1; thread 1
-- loads that, and stores 2 after `z` more rounds of thread 0; then each makes its other rounds alone.
pub Reach-lost :
    (x y z : ℕ)
    → x ≤ increments
    → y < increments
    → z < increments
    → (c : ℕ) → c + (x + y + z) ≡ 3 * increments
    → Reach (waiting c (three (counting increments) (counting increments) (counting increments)))
Reach-lost x y z p q s c e =
    let t = counting 0 in
    let a = Reach-load (three t t t) 0 0 (omega arith) (omega arith) Reach-waiting in
    let b =
      Reach-rounds x _ _ (three (loaded 0 0) t t) 2 (omega arith) x x (omega arith) (omega arith) p
        a in
    let d =
      Reach-rounds y _ _ (three (loaded 0 0) t (counting x)) 1 (omega arith) (x + y) y refl
        (omega arith) (omega (arith, q)) b in
    let f = Reach-store (three t (counting y) (counting x)) 0 0 0 (omega arith) d in
    let g = Reach-load (three (counting 1) t (counting x)) 1 y (omega arith) q f in
    let h =
      Reach-rounds z _ _ (three t (loaded y 1) (counting x)) 0 (omega arith) (1 + z) (1 + z) refl
        refl (omega (arith, s)) g in
    finish (Reach-store (three (counting (1 + z)) t (counting x)) 1 y 1 (omega arith) h)
  where
    finish :
        Reach (waiting 2 (three (counting (1 + z)) (counting (y + 1)) (counting x)))
        → Reach (waiting c (three full full full))
    finish r =
        let a = increments - (1 + z) in
        let b = increments - (y + 1) in
        let d = increments - x in
        let k =
          Reach-rounds a _ _ (three full (counting (y + 1)) (counting x)) 0 (omega arith) (2 + a)
            increments refl (omega (arith, s)) (omega arith) r in
        let l =
          Reach-rounds b _ _ (three full full (counting x)) 1 (omega arith) (2 + a + b) increments
            refl (omega (arith, q)) (omega arith) k in
        Reach-rounds d _ _ (three full full full) 2 (omega arith) c increments
          (omega (arith, p, q, s, e)) (omega (arith, p)) (omega arith) l
