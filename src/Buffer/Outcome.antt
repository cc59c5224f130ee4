-- ===== src/Buffer/Outcome.antt =====
-- What the threads of nConsumer.c achieve, whatever the order of their turns.
use linux_exercises.Base.{
  true, false, ltb, Bool-cases, ℕ, suc, ◌+◌, ◌*◌, ◌<◌, ◌≤◌, ◌≡◌, refl, some, List, [], ◌∷◌, arith,
  ◌==◌, length, length-append, get_elem?, set, total-pos, inl, inr, ◌⊎◌, ap, ◌∙◌,
}
use linux_exercises.Buffer.Workers.{
  Role, producer, consumer, Thread, awake, asleep, limit, partner, is_asleep, signal, Plant,
  must_wait, work, turn, start, Reach,
}
use linux_exercises.Buffer.Tally.{ready, left, readies, asleeps, lefts}
use linux_exercises.Buffer.Invariant.{InOrder, Balanced, Inv}
use linux_exercises.Buffer.Turns.{Reach-Inv}

-- In every reachable state of nConsumer.c the items taken, followed by those that the ring holds
-- from out on, are the items laid down, each once and in their order; the ring holds count of
-- them, at most BUFFER_SIZE.
pub Reach-InOrder : {p : Plant} → Reach start p → InOrder p
Reach-InOrder r = (Reach-Inv r).in_order

ready-awake : (r : Role) (t : Thread) → 0 < ready r t → (i : ℕ) × (t ≡ awake r i) × (i < limit r)
ready-awake producer (awake producer i) h = (i, refl, ground arith)
ready-awake producer (awake consumer i) h = absurd (ground arith)
ready-awake consumer (awake producer i) h = absurd (ground arith)
ready-awake consumer (awake consumer i) h = (i, refl, ground arith)
ready-awake r (asleep s i) h = absurd (omega (arith, h))

is_asleep-asleep : (r : Role) (t : Thread) → 0 < is_asleep r t → (i : ℕ) × (t ≡ asleep r i)
is_asleep-asleep r (awake s i) h = absurd (omega (arith, h))
is_asleep-asleep producer (asleep producer i) h = (i, refl)
is_asleep-asleep producer (asleep consumer i) h = absurd (omega (arith, h))
is_asleep-asleep consumer (asleep producer i) h = absurd (omega (arith, h))
is_asleep-asleep consumer (asleep consumer i) h = (i, refl)

left-le : (r : Role) (t : Thread) → left r t ≤ 10 * (ready r t + is_asleep r t)
left-le producer (awake producer i) = ground arith
left-le producer (awake consumer i) = ground arith
left-le consumer (awake producer i) = ground arith
left-le consumer (awake consumer i) = ground arith
left-le producer (asleep producer i) = ground arith
left-le producer (asleep consumer i) = ground arith
left-le consumer (asleep producer i) = ground arith
left-le consumer (asleep consumer i) = ground arith

lefts-le : (r : Role) (ts : List Thread) → lefts r ts ≤ 10 * (readies r ts + asleeps r ts)
lefts-le r [] = omega arith
lefts-le r (t ∷ ts) = omega (arith, left-le r t, lefts-le r ts)

counts : {p : Plant} → Inv p → length p.made ≡ length p.used + p.ring.count
counts {p} v =
    ap length v.in_order.order
    ∙ length-append p.used v.in_order.queue
    ∙ ap (λ n. length p.used + n) v.in_order.shows.len

-- Someone can go on, in the numbers.
someone-ready :
    {n m u : ℕ} (ts : List Thread)
    → Balanced n m u ts
    → m ≡ u + n
    → 0 < lefts producer ts + lefts consumer ts
    → (0 < readies producer ts) ⊎ (0 < readies consumer ts)
someone-ready ts b e h = ground (arith, b, lefts-le producer ts, lefts-le consumer ts)

asleep-pick : (r : Role) (i : ℕ) → (is_asleep r (asleep r i) == 0) ≡ false
asleep-pick producer i = refl
asleep-pick consumer i = refl

signal-returns :
    (r : Role) (ts : List Thread) → (w : ℕ) × (us : List Thread) × (signal r w ts ≡ some us)
unfolding signal
signal-returns r ts = elim (Bool-cases (asleeps r ts == 0)) [
  | inl z ↦ (0, ts, ground arith)
  | inr n ↦
      let (w, t, e, l) = total-pos (is_asleep r) ts (ground arith) in
      let (i, f) = is_asleep-asleep r t l in
      let g : get_elem? ts w ≡ some (asleep r i) = e ∙ ap some f in
      (w, set ts w (awake r i), ground (arith, g, asleep-pick r i))
]

-- A thread inside its loop that is not asleep always has a turn.
awake-turn :
    (p : Plant) (j i x : ℕ) (r : Role)
    → get_elem? p.threads j ≡ some (awake r i)
    → i < limit r
    → (w : ℕ) × (p' : Plant) × (turn j w x p ≡ some p')
unfolding turn
awake-turn p j i x r e l = elim (Bool-cases (must_wait r p.ring)) [
  | inl m ↦ (0, record p { threads = set p.threads j (asleep r i) }, ground arith)
  | inr m ↦
      let (w, us, g) = signal-returns (partner r) (set p.threads j (awake r (suc i))) in
      (w, record (work r x p) { threads = us }, ground arith)
]

ready-turn :
    (p : Plant) (r : Role)
    → 0 < readies r p.threads
    → (j i : ℕ) × (s : Role) × (get_elem? p.threads j ≡ some (awake s i))
      × ((x : ℕ) → (w : ℕ) × (p' : Plant) × (turn j w x p ≡ some p'))
ready-turn p r h =
    let (j, t, e, l) = total-pos (ready r) p.threads h in
    let (i, f, m) = ready-awake r t l in
    (j, i, r, e ∙ ap some f, λ x. awake-turn p j i x r (e ∙ ap some f) m)

a_turn :
    {p : Plant}
    → Reach start p
    → 0 < lefts producer p.threads + lefts consumer p.threads
    → (j i : ℕ) × (r : Role) × (get_elem? p.threads j ≡ some (awake r i))
      × ((x : ℕ) → (w : ℕ) × (p' : Plant) × (turn j w x p ≡ some p'))
a_turn {p} reach h =
    let v = Reach-Inv reach in
    elim (someone-ready p.threads v.balanced (counts v) h) [
      | inl l ↦ ready-turn p producer l
      | inr l ↦ ready-turn p consumer l
    ]

-- Where the loops of all threads are over.
abbrev pub AllOver : Plant → Type 0
AllOver p =
    (lefts producer p.threads ≡ 0)
    × (lefts consumer p.threads ≡ 0)
    × (p.ring.count ≡ 2)
    × (length p.made ≡ 20)
    × (length p.used ≡ 18)

all_over :
    {p : Plant}
    → Reach start p
    → lefts producer p.threads ≡ 0
    → lefts consumer p.threads ≡ 0
    → AllOver p
all_over {p} reach h k = let v = Reach-Inv reach in omega (arith, h, k, counts v, v.balanced)

-- The threads of nConsumer.c never all wait for one another: in every reachable state, a thread
-- that is awake and inside its loop has a turn, whatever rand gives, for some choice of the
-- thread that its signal wakes; or the loops of all threads are over, and then twenty items have
-- been laid down, eighteen taken, and two lie in the buffer.
pub threads_progress :
    {p : Plant}
    → Reach start p
    → ((j i : ℕ) × (r : Role) × (get_elem? p.threads j ≡ some (awake r i))
        × ((x : ℕ) → (w : ℕ) × (p' : Plant) × (turn j w x p ≡ some p')))
      ⊎ AllOver p
threads_progress {p} reach =
    let m = lefts producer p.threads + lefts consumer p.threads in
    elim (Bool-cases (ltb 0 m)) [
      | inl l ↦ inl (a_turn reach (lt_of m l))
      | inr l ↦
          let z : m ≡ 0 = zero_of m l in inr (all_over reach (omega (arith, z)) (omega (arith, z)))
    ]
  where
    lt_of : (m : ℕ) → ltb 0 m ≡ true → 0 < m
    lt_of m l = ground arith

    zero_of : (m : ℕ) → ltb 0 m ≡ false → m ≡ 0
    zero_of m l = ground arith
