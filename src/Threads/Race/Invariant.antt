-- ===== src/Threads/Race/Invariant.antt =====
-- What holds of the threads of ex2_race_condition_mutx.c at any time.
use linux_exercises.Base.{
  ℕ, zero, suc, ◌+◌, ◌-◌, ◌<◌, ◌≤◌, ◌≡◌, refl, true, some, some-eq-some, List, [], ◌∷◌, ◌++◌, arith,
  ltb, length, length-append, length-set, get_elem?, set, total, total-set, le-total, Bool-cases,
  inl, inr, ◌⊎◌, subst, ap,
}
use linux_exercises.Threads.Race.{Thread, counting, loaded, thread_step, increments, num_threads}

-- The increments that a thread has behind it, and before it.
abbrev pub counted : Thread → ℕ
counted (counting i) = i
counted (loaded i v) = i

abbrev pub left : Thread → ℕ
left t = increments - counted t

-- A thread never counts too far; what it has loaded is not more than the stores made so far, and
-- not 0 after a store of its own.
abbrev pub ThreadOk : (stores counter : ℕ) → Thread → Type 0
ThreadOk n c (counting i) = (i ≤ increments) × (0 < i → 0 < c)
ThreadOk n c (loaded i v) = (i < increments) × (v ≤ n) × (0 < i → 0 < v) × (0 < i → 0 < c)

-- A property of every thread, by its place.
abbrev pub Each : (Thread → Type 0) → List Thread → Type 0
Each P ts = (j : ℕ) (t : Thread) → get_elem? ts j ≡ some t → P t

pub record Inv (c : ℕ) (ts : List Thread) : Type 0 where
  pub stores : c ≤ total counted ts
  pub each : Each (ThreadOk (total counted ts) c) ts
  pub two : 0 < length ts → total left ts ≡ 0 → 2 ≤ c
  pub few : length ts ≤ num_threads

total-append :
    (w : Thread → ℕ) (ts : List Thread) (t : Thread) → total w (ts ++ t ∷ []) ≡ total w ts + w t
total-append w [] t = omega arith
total-append w (x ∷ ts) t = omega (arith, total-append w ts t)

get_elem?-append :
    (ts : List Thread) (x : Thread) (j : ℕ) (t : Thread)
    → get_elem? (ts ++ x ∷ []) j ≡ some t
    → (get_elem? ts j ≡ some t) ⊎ (x ≡ t)
get_elem?-append [] x zero t e = inr (some-eq-some x t e)
get_elem?-append [] x (suc j) t e = absurd (cc)
get_elem?-append (y ∷ ts) x zero t e = inl e
get_elem?-append (y ∷ ts) x (suc j) t e = get_elem?-append ts x j t e

pub get_elem?-set :
    (ts : List Thread) (i j : ℕ) (x t : Thread)
    → get_elem? (set ts i x) j ≡ some t
    → ((i ≡ j) × (x ≡ t)) ⊎ (get_elem? ts j ≡ some t)
get_elem?-set [] i j x t e = absurd (cc)
get_elem?-set (y ∷ ts) zero zero x t e = inl (refl, some-eq-some x t e)
get_elem?-set (y ∷ ts) zero (suc j) x t e = inr e
get_elem?-set (y ∷ ts) (suc i) zero x t e = inr e
get_elem?-set (y ∷ ts) (suc i) (suc j) x t e = elim (get_elem?-set ts i j x t e) [
  | inl (p, q) ↦ inl (ap suc p, q)
  | inr p ↦ inr p
]

ThreadOk-later :
    {n m c d : ℕ} (t : Thread) → n ≤ m → (0 < c → 0 < d) → ThreadOk n c t → ThreadOk m d t
ThreadOk-later (counting i) l p (b, q) = (b, λ h. p (q h))
ThreadOk-later (loaded i v) l p (b, w, q, r) = (b, omega (arith, l, w), q, λ h. p (r h))

pub create-Inv :
    {c : ℕ} {ts : List Thread} → Inv c ts → length ts < num_threads → Inv c (ts ++ counting 0 ∷ [])
create-Inv {c} {ts} v h =
    let l = length-append ts (counting 0 ∷ []) in
    let d = total-append counted ts (counting 0) in
    let e = total-append left ts (counting 0) in
    record {
      stores = omega (arith, d, v.stores);
      each = λ j t p. elim (get_elem?-append ts (counting 0) j t p) [
        | inl q ↦ ThreadOk-later t (omega (arith, d)) (λ x. x) (v.each j t q)
        | inr q ↦ subst (ThreadOk _ c) q (omega arith, λ x. absurd (omega (arith, x)))
      ];
      two = λ _ z. absurd (omega (arith, e, z));
      few = omega (arith, l, h);
    }

-- A step that leaves `c'` in the counter and `t'` in the place of `t`.
record Stepped (n c : ℕ) (t : Thread) (c' : ℕ) (t' : Thread) : Type 0 where
  old_left : 0 < left t
  moved : counted t ≤ counted t'
  gain : c' + counted t ≤ n + counted t'
  keeps : 0 < c → 0 < c'
  ok : ThreadOk (n + (counted t' - counted t)) c' t'
  last : left t' ≡ 0 → 2 ≤ c'

load-Stepped :
    {n c : ℕ} (i : ℕ)
    → c ≤ n
    → i < increments
    → ThreadOk n c (counting i)
    → Stepped n c (counting i) c (loaded i c)
load-Stepped i l h (b, q) = record {
  old_left = omega (arith, h);
  moved = omega arith;
  gain = omega (arith, l);
  keeps = λ x. x;
  ok = (h, omega (arith, l), q, q);
  last = λ z. absurd (omega (arith, z, h));
}

store-Stepped :
    {n c : ℕ} (i v : ℕ)
    → ThreadOk n c (loaded i v)
    → Stepped n c (loaded i v) (v + 1) (counting (i + 1))
store-Stepped i v (b, w, q, r) = record {
  old_left = omega (arith, b);
  moved = omega arith;
  gain = omega (arith, w);
  keeps = λ x. omega arith;
  ok = (omega (arith, b), λ x. omega arith);
  last = λ z. omega (arith, q (omega (arith, z)));
}

lt_of : (i : ℕ) → ltb i increments ≡ true → i < increments
lt_of i b = ground arith

-- What `thread_step` gives, if anything.
thread_step-Stepped :
    {n c : ℕ} (t : Thread) {t' : Thread} {c' : ℕ}
    → c ≤ n
    → ThreadOk n c t
    → thread_step t c ≡ some (t', c')
    → Stepped n c t c' t'
unfolding thread_step
thread_step-Stepped {n} {c} (counting i) {t'} {c'} l k e = elim (Bool-cases (ltb i increments)) [
  | inl b ↦
      let q : (loaded i c, c) ≡ (t', c') = some-eq-some _ _ (rw b at e) in
      subst (λ x. Stepped n c (counting i) x.1 x.0) q (load-Stepped i l (lt_of i b) k)
  | inr b ↦ absurd (cc (rw b at e))
]
thread_step-Stepped {n} {c} (loaded i v) l k e =
    subst (λ x. Stepped n c (loaded i v) x.1 x.0) (some-eq-some _ _ e) (store-Stepped i v k)

-- A thread that has ended makes no step.
pub step_left :
    {c c' : ℕ} {ts : List Thread} (j : ℕ) (t t' : Thread)
    → Inv c ts
    → get_elem? ts j ≡ some t
    → thread_step t c ≡ some (t', c')
    → 0 < left t
step_left j t t' v g e = (thread_step-Stepped t v.stores (v.each j t g) e).old_left

pub thread_step-Inv :
    {c c' : ℕ} {ts : List Thread} (j : ℕ) (t t' : Thread)
    → Inv c ts
    → get_elem? ts j ≡ some t
    → thread_step t c ≡ some (t', c')
    → Inv c' (set ts j t')
thread_step-Inv {c} {c'} {ts} j t t' v g e =
    let s = thread_step-Stepped t v.stores (v.each j t g) e in
    let d = total-set counted ts j t t' g in
    let f = total-set left ts j t t' g in
    record {
      stores = omega (arith, d, s.gain);
      each = λ k u p. elim (get_elem?-set ts j k t' u p) [
        | inl (_, q) ↦
            subst (ThreadOk _ c') q (ThreadOk-later t' (omega (arith, d, s.moved)) (λ x. x) s.ok)
        | inr q ↦ ThreadOk-later u (omega (arith, d, s.moved)) s.keeps (v.each k u q)
      ];
      two = λ _ z. s.last (omega (arith, z, f, le-total left ts j t g));
      few = omega (arith, length-set ts j t', v.few);
    }
