-- ===== src/Threads/Race/Stages.antt =====
-- What holds at each stage of main of ex2_race_condition_mutx.c.
use linux_exercises.Base.{
  ℕ, zero, suc, ◌+◌, ◌*◌, ◌<◌, ◌≤◌, ◌≡◌, refl, Bool, true, false, some, some-eq-some, List, [], ◌∷◌,
  arith, ltb, length, length-set, get_elem?, set, total, Option-cases, Bool-cases, inl, inr, subst,
  sym, ◌∙◌,
}
use linux_exercises.Threads.Race.{
  Thread, counting, loaded, thread_step, ended, increments, num_threads, Stage, starting, creating,
  failed, joining, printed, Race, to_stage, create, join, main_step, alive, Actor, main_thread,
  thread, turn, Reach, here, later,
}
use linux_exercises.Threads.Race.Invariant.{
  counted, left, ThreadOk, Each, Inv, create-Inv, thread_step-Inv, get_elem?-set, step_left,
}

-- The threads that main has joined have ended.
abbrev pub Joined : (k : ℕ) → List Thread → Type 0
Joined k ts = (j : ℕ) (t : Thread) → j < k → get_elem? ts j ≡ some t → left t ≡ 0

abbrev pub StageOk : Stage → Race → Type 0
StageOk (joining k) r = (k ≤ num_threads) × (length r.threads ≡ num_threads) × Joined k r.threads
StageOk (printed v) r = (2 ≤ v) × (v ≤ num_threads * increments)
StageOk _ r = Unit

pub record RaceInv (r : Race) : Type 0 where
  pub inv : Inv r.counter r.threads
  pub stage_ok : StageOk r.stage r

ended-left : (t : Thread) → ended t ≡ true → left t ≡ 0
ended-left (counting i) e = ground arith
ended-left (loaded i v) e = absurd (cc)

get_elem?-lt : (ts : List Thread) (j : ℕ) (t : Thread) → get_elem? ts j ≡ some t → j < length ts
get_elem?-lt [] j t e = absurd (cc)
get_elem?-lt (x ∷ ts) zero t e = omega arith
get_elem?-lt (x ∷ ts) (suc j) t e = omega (arith, get_elem?-lt ts j t e)

Joined-all : (ts : List Thread) → Joined (length ts) ts → total left ts ≡ 0
Joined-all [] h = refl
Joined-all (t ∷ ts) h =
    omega
      (arith, h 0 t (omega arith) refl, Joined-all ts (λ j u l e. h (suc j) u (omega (arith, l)) e))

counted-le :
    (n c : ℕ) (ts : List Thread)
    → Each (ThreadOk n c) ts
    → total counted ts ≤ length ts * increments
counted-le n c [] h = omega arith
counted-le n c (t ∷ ts) h =
    omega (arith, one t (h 0 t refl), counted-le n c ts (λ j u e. h (suc j) u e))
  where
    one : (t : Thread) → ThreadOk n c t → counted t ≤ increments
    one (counting i) k = k.0
    one (loaded i v) k = omega (arith, k.0)

-- What main prints once all threads have been joined.
Inv-bounds :
    {c : ℕ} {ts : List Thread}
    → Inv c ts
    → length ts ≡ num_threads
    → Joined num_threads ts
    → (2 ≤ c) × (c ≤ num_threads * increments)
Inv-bounds {c} {ts} v l h = (
  v.two (omega (arith, l)) (Joined-all ts (subst (λ k. Joined k ts) (sym l) h)),
  omega (arith, v.stores, l, counted-le _ c ts v.each),
)

arrive :
    (s : Stage) (r u : Race)
    → Inv r.counter r.threads
    → StageOk s (to_stage s r)
    → some (to_stage s r) ≡ some u
    → RaceInv u
arrive s r u v k e =
    subst RaceInv (some-eq-some (to_stage s r) u e) (record { inv = v; stage_ok = k })

not_lt : (a : ℕ) → ltb a num_threads ≡ false → num_threads ≤ a
not_lt a e = ground arith

is_lt : (a : ℕ) → ltb a num_threads ≡ true → a < num_threads
is_lt a e = ground arith

create-RaceInv :
    (ok : Bool) (r u : Race)
    → r.stage ≡ creating
    → Inv r.counter r.threads
    → length r.threads < num_threads
    → some (create ok r) ≡ some u
    → RaceInv u
create-RaceInv true r u p v l e =
    subst RaceInv (some-eq-some _ u e) (record {
      inv = create-Inv v l;
      stage_ok = subst (λ s. StageOk s (create true r)) (sym p) tt;
    })
create-RaceInv false r u p v l e = arrive failed r u v tt e

join-RaceInv :
    (t : Thread) (over : Bool) (j : ℕ) (r u : Race)
    → ended t ≡ over
    → get_elem? r.threads j ≡ some t
    → j < num_threads
    → Inv r.counter r.threads
    → StageOk (joining j) r
    → join over j r ≡ some u
    → RaceInv u
join-RaceInv t true j r u o g l v (k, n, h) e =
    arrive (joining (j + 1)) r u v (omega (arith, l), n, joined) e
  where
    joined : Joined (j + 1) r.threads
    joined i x p q = elim (Bool-cases (ltb i j)) [
      | inl b ↦ h i x (ground (arith, b)) q
      | inr b ↦
          let same : i ≡ j = ground (arith, b, p) in
          subst (λ y. left y ≡ 0)
            (some-eq-some t x (sym g ∙ (subst (λ a. get_elem? r.threads a ≡ some x) same q)))
            (ended-left t o)
    ]
join-RaceInv t false j r u o g l v k e = absurd (cc)

main_step-RaceInv :
    (s : Stage) (ok : Bool) (r u : Race)
    → r.stage ≡ s
    → Inv r.counter r.threads
    → StageOk s r
    → main_step s ok r ≡ some u
    → RaceInv u
unfolding main_step
main_step-RaceInv starting true r u p v k e = arrive creating r u v tt e
main_step-RaceInv starting false r u p v k e = arrive failed r u v tt e
main_step-RaceInv creating ok r u p v k e = elim (Bool-cases (ltb (length r.threads) num_threads)) [
  | inl b ↦ create-RaceInv ok r u p v (is_lt _ b) (rw b at e)
  | inr b ↦
      arrive (joining 0) r u v (omega arith, all_there b, λ j t l. absurd (omega (arith, l)))
        (rw b at e)
]
  where
    all_there : ltb (length r.threads) num_threads ≡ false → length r.threads ≡ num_threads
    all_there b = omega (arith, not_lt (length r.threads) b, v.few)
main_step-RaceInv (joining j) ok r u p v k e = elim (Bool-cases (ltb j num_threads)) [
  | inl b ↦ elim (Option-cases (get_elem? r.threads j)) [
    | inl n ↦ absurd (cc (rw (b, n) at e))
    | inr (t, g) ↦ join-RaceInv t (ended t) j r u refl g (is_lt j b) v k (rw (b, g) at e)
  ]
  | inr b ↦
      let same : j ≡ num_threads = omega (arith, not_lt j b, k.0) in
      arrive (printed r.counter) r u v (Inv-bounds v k.1 (subst (λ i. Joined i r.threads) same k.2))
        (rw b at e)
]
main_step-RaceInv failed ok r u p v k e = absurd (cc)
main_step-RaceInv (printed c) ok r u p v k e = absurd (cc)

StageOk-step :
    (s : Stage) (j : ℕ) (t t' : Thread) (c : ℕ) (r : Race)
    → get_elem? r.threads j ≡ some t
    → 0 < left t
    → alive s ≡ true
    → StageOk s r
    → StageOk s (record r { counter = c; threads = set r.threads j t' })
StageOk-step (joining k) j t t' c r g l a (b, n, h) = (
  b,
  omega (arith, n, length-set r.threads j t'),
  λ i u p q. elim (get_elem?-set r.threads j i t' u q) [
    | inl (o, _) ↦ absurd (omega (arith, l, h j t (omega (arith, p, o)) g))
    | inr o ↦ h i u p o
  ],
)
StageOk-step starting j t t' c r g l a k = tt
StageOk-step creating j t t' c r g l a k = tt
StageOk-step failed j t t' c r g l a k = tt
StageOk-step (printed v) j t t' c r g l a k = k

turn-RaceInv : (a : Actor) (r u : Race) → RaceInv r → turn a r ≡ some u → RaceInv u
unfolding turn
turn-RaceInv (main_thread ok) r u v e = main_step-RaceInv r.stage ok r u refl v.inv v.stage_ok e
turn-RaceInv (thread j) r u v e = elim (Bool-cases (alive r.stage)) [
  | inr b ↦ absurd (cc (rw b at e))
  | inl b ↦ elim (Option-cases (get_elem? r.threads j)) [
    | inl n ↦ absurd (cc (rw (b, n) at e))
    | inr (t, g) ↦ elim (Option-cases (thread_step t r.counter)) [
      | inl n ↦ absurd (cc (rw (b, g, n) at e))
      | inr ((t', c), q) ↦ subst RaceInv (some-eq-some _ u (rw (b, g, q) at e)) (record {
        inv = thread_step-Inv j t t' v.inv g q;
        stage_ok = StageOk-step r.stage j t t' c r g (step_left j t t' v.inv g q) b v.stage_ok;
      })
    ]
  ]
]

pub Reach-RaceInv : {r : Race} → Reach r → RaceInv r
Reach-RaceInv here = record {
  inv = record {
    stores = omega arith;
    each = λ j t e. absurd (cc);
    two = λ l. absurd (omega (arith, l));
    few = omega arith;
  };
  stage_ok = tt;
}
Reach-RaceInv (later {r} {u} h a e) = turn-RaceInv a r u (Reach-RaceInv h) e
