-- ===== src/Buffer/Tally.antt =====
-- What a turn of a thread of nConsumer.c does to the numbers of waiting threads and of items.
use linux_exercises.Base.{
  ℕ, suc, ◌+◌, ◌-◌, ◌<◌, ◌≤◌, ◌≡◌, refl, ==_iff, false, some, List, arith, ◌==◌, ltb, if◌then◌else◌,
  get_elem?, set, total, All, All-set, All-get_elem?, total-set, Option-cases, Bool-cases, inl, inr,
  ◌⊎◌, some-eq-some, subst, sym, ap, ◌∙◌,
}
use linux_exercises.Buffer.Workers.{
  Role, producer, consumer, Thread, awake, asleep, limit, partner, pick, is_asleep, signal, wake_at,
}

-- A thread that can take a turn, and the number of items that it has yet to handle.
abbrev pub ready : Role → Thread → ℕ
ready r (awake s i) = if ltb i (limit s) then pick r s 1 else 0
ready r (asleep s i) = 0

abbrev pub left : Role → Thread → ℕ
left r (awake s i) = pick r s (limit s - i)
left r (asleep s i) = pick r s (limit s - i)

-- The loop counter is in range; only a thread inside its loop waits.
abbrev pub InLoop : Thread → Type 0
InLoop (awake s i) = i ≤ limit s
InLoop (asleep s i) = i < limit s

abbrev pub readies : Role → List Thread → ℕ
readies r ts = total (ready r) ts

abbrev pub asleeps : Role → List Thread → ℕ
asleeps r ts = total (is_asleep r) ts

abbrev pub lefts : Role → List Thread → ℕ
lefts r ts = total (left r) ts

-- One thread's place in the totals.
pub record Changed (ts : List Thread) (j : ℕ) (a b : Thread) (r : Role) : Type 0 where
  pub ready_ : readies r (set ts j b) + ready r a ≡ readies r ts + ready r b
  pub asleep_ : asleeps r (set ts j b) + is_asleep r a ≡ asleeps r ts + is_asleep r b
  pub left_ : lefts r (set ts j b) + left r a ≡ lefts r ts + left r b

pub set-Changed :
    (ts : List Thread) (j : ℕ) (a b : Thread) (r : Role)
    → get_elem? ts j ≡ some a
    → Changed ts j a b r
set-Changed ts j a b r e = record {
  ready_ = total-set (ready r) ts j a b e;
  asleep_ = total-set (is_asleep r) ts j a b e;
  left_ = total-set (left r) ts j a b e;
}

-- The threads after a signal to the threads of role `r`.
pub record Signalled (r : Role) (ts us : List Thread) : Type 0 where
  pub own :
      ((asleeps r ts ≡ 0) × (asleeps r us ≡ 0) × (readies r us ≡ readies r ts))
      ⊎ ((suc (asleeps r us) ≡ asleeps r ts) × (readies r us ≡ suc (readies r ts)))
  pub partner_asleep : asleeps (partner r) us ≡ asleeps (partner r) ts
  pub partner_ready : readies (partner r) us ≡ readies (partner r) ts
  pub left_producer : lefts producer us ≡ lefts producer ts
  pub left_consumer : lefts consumer us ≡ lefts consumer ts
  pub in_loop : All InLoop us

nobody-Signalled :
    (r : Role) (ts : List Thread) → All InLoop ts → asleeps r ts ≡ 0 → Signalled r ts ts
nobody-Signalled r ts f z = record {
  own = inl (z, z, refl);
  partner_asleep = refl;
  partner_ready = refl;
  left_producer = refl;
  left_consumer = refl;
  in_loop = f;
}

woken-Signalled :
    (r : Role) (ts : List Thread) (w i : ℕ)
    → All InLoop ts
    → get_elem? ts w ≡ some (asleep r i)
    → Signalled r ts (set ts w (awake r i))
woken-Signalled producer ts w i f e =
    let c = set-Changed ts w (asleep producer i) (awake producer i) producer e in
    let d = set-Changed ts w (asleep producer i) (awake producer i) consumer e in
    let l = All-get_elem? InLoop ts w f e in
    record {
      own = inr (omega (arith, c), ground (arith, c, l));
      partner_asleep = omega (arith, d);
      partner_ready = ground (arith, d, l);
      left_producer = omega (arith, c, d);
      left_consumer = omega (arith, c, d);
      in_loop = All-set InLoop ts w f (omega (arith, l));
    }
woken-Signalled consumer ts w i f e =
    let c = set-Changed ts w (asleep consumer i) (awake consumer i) consumer e in
    let d = set-Changed ts w (asleep consumer i) (awake consumer i) producer e in
    let l = All-get_elem? InLoop ts w f e in
    record {
      own = inr (omega (arith, c), ground (arith, c, l));
      partner_asleep = omega (arith, d);
      partner_ready = ground (arith, d, l);
      left_producer = omega (arith, c, d);
      left_consumer = omega (arith, c, d);
      in_loop = All-set InLoop ts w f (omega (arith, l));
    }

asleep-of : (r : Role) (t : Thread) → (is_asleep r t == 0) ≡ false → (i : ℕ) × (t ≡ asleep r i)
asleep-of r (awake s i) h = ground arith
asleep-of producer (asleep producer i) h = (i, refl)
asleep-of producer (asleep consumer i) h = ground arith
asleep-of consumer (asleep producer i) h = ground arith
asleep-of consumer (asleep consumer i) h = (i, refl)

wake_at-asleep :
    (r : Role) (w : ℕ) (ts us : List Thread) (t : Thread)
    → wake_at r w ts t ≡ some us
    → (i : ℕ) × (t ≡ asleep r i) × (us ≡ set ts w (awake r i))
wake_at-asleep r w ts us t e = elim (Bool-cases (is_asleep r t == 0)) [
  | inl z ↦ absurd (ground arith)
  | inr n ↦ (let (i, p) = asleep-of r t n in (i, p, ground arith))
]

pub signal-Signalled :
    (r : Role) (w : ℕ) (ts us : List Thread)
    → All InLoop ts
    → signal r w ts ≡ some us
    → Signalled r ts us
unfolding signal
signal-Signalled r w ts us f e = elim (Bool-cases (asleeps r ts == 0)) [
  | inl z ↦
      subst (Signalled r ts) (some-eq-some ts us (ground arith))
        (nobody-Signalled r ts f ((==_iff (asleeps r ts) 0).0 z))
  | inr n ↦ elim (Option-cases (get_elem? ts w)) [
    | inl o ↦ absurd (ground arith)
    | inr (t, g) ↦
        let (i, p, q) = wake_at-asleep r w ts us t (ground arith) in
        subst (Signalled r ts) (sym q) (woken-Signalled r ts w i f (g ∙ ap some p))
  ]
]
