-- ===== src/Threads/Handover.antt =====
-- What the mailbox of ex3_condition_variable.c gives.
use mathlib.Core.List.{append-nil}
use linux_exercises.Base.{
  ℕ, ◌+◌, ◌<◌, ◌≤◌, ◌≡◌, refl, true, false, some, some-eq-some, List, [], ◌∷◌, ◌++◌, arith, ltb,
  if◌then◌else◌, length, length-append, Bool-cases, inl, inr, ◌⊎◌, subst, ap, ◌∙◌, sym, false≢true,
}
use linux_exercises.Threads.Mailbox.{
  Mailbox, produce, consume, empty_box, number_datas, BoxReach, untouched, producer_turn,
  consumer_turn,
}

-- What lies in the box.
abbrev pub inside : Mailbox → List ℕ
inside m = if m.ready then m.data_ ∷ [] else []

record Inv (m : Mailbox) : Type 0 where
  order : m.made ≡ m.seen ++ inside m
  prod_len : length m.made ≡ m.prod_i
  cons_len : length m.seen ≡ m.cons_i
  bound : m.prod_i ≤ number_datas
  prod_full : m.prod_waits ≡ true → m.ready ≡ true
  cons_empty : m.cons_waits ≡ true → m.ready ≡ false

produce-Inv : (x : ℕ) (m u : Mailbox) → Inv m → produce x m ≡ some u → Inv u
unfolding produce
produce-Inv x m u v h = elim (Bool-cases m.prod_waits) [
  | inl w ↦ subst Inv (some-eq-some _ u (rw w at h)) (record {
    order = v.order;
    prod_len = v.prod_len;
    cons_len = v.cons_len;
    bound = v.bound;
    prod_full = λ e. absurd (false≢true e);
    cons_empty = v.cons_empty;
  })
  | inr w ↦ elim (Bool-cases (ltb m.prod_i number_datas)) [
    | inr l ↦ absurd (cc (rw (w, l) at h))
    | inl l ↦ elim (Bool-cases m.ready) [
      | inl r ↦ subst Inv (some-eq-some _ u (rw (w, l, r) at h)) (record {
        order = rw r at v.order;
        prod_len = v.prod_len;
        cons_len = v.cons_len;
        bound = v.bound;
        prod_full = λ e. refl;
        cons_empty = λ e. sym r ∙ v.cons_empty e;
      })
      | inr r ↦ subst Inv (some-eq-some _ u (rw (w, l, r) at h)) (record {
        order = ap (λ y. y ++ x ∷ []) (v.order ∙ rw r (append-nil m.seen));
        prod_len = omega (arith, length-append m.made (x ∷ []), v.prod_len);
        cons_len = v.cons_len;
        bound = ground arith;
        prod_full = λ e. refl;
        cons_empty = λ e. absurd (false≢true e);
      })
    ]
  ]
]

consume-Inv : (m u : Mailbox) → Inv m → consume m ≡ some u → Inv u
unfolding consume
consume-Inv m u v h = elim (Bool-cases m.cons_waits) [
  | inl w ↦ subst Inv (some-eq-some _ u (rw w at h)) (record {
    order = v.order;
    prod_len = v.prod_len;
    cons_len = v.cons_len;
    bound = v.bound;
    prod_full = v.prod_full;
    cons_empty = λ e. absurd (false≢true e);
  })
  | inr w ↦ elim (Bool-cases (ltb m.cons_i number_datas)) [
    | inr l ↦ absurd (cc (rw (w, l) at h))
    | inl l ↦ elim (Bool-cases m.ready) [
      | inl r ↦ subst Inv (some-eq-some _ u (rw (w, l, r) at h)) (record {
        order = v.order ∙ rw r (sym (append-nil (m.seen ++ m.data_ ∷ [])));
        prod_len = v.prod_len;
        cons_len = omega (arith, length-append m.seen (m.data_ ∷ []), v.cons_len);
        bound = v.bound;
        prod_full = λ e. absurd (false≢true e);
        cons_empty = λ e. refl;
      })
      | inr r ↦ subst Inv (some-eq-some _ u (rw (w, l, r) at h)) (record {
        order = rw r at v.order;
        prod_len = v.prod_len;
        cons_len = v.cons_len;
        bound = v.bound;
        prod_full = λ e. sym r ∙ v.prod_full e;
        cons_empty = λ e. refl;
      })
    ]
  ]
]

BoxReach-Inv : {m : Mailbox} → BoxReach empty_box m → Inv m
BoxReach-Inv untouched = record {
  order = refl;
  prod_len = refl;
  cons_len = refl;
  bound = omega arith;
  prod_full = λ e. absurd (false≢true e);
  cons_empty = λ e. refl;
}
BoxReach-Inv (producer_turn {t} {u} r x e) = produce-Inv x t u (BoxReach-Inv r) e
BoxReach-Inv (consumer_turn {t} {u} r e) = consume-Inv t u (BoxReach-Inv r) e

-- In every reachable state of ex3_condition_variable.c in which both threads have made their ten
-- rounds, the consumer has printed exactly the numbers that the producer has handed in, in their
-- order.
all_seen :
    {m : Mailbox}
    → BoxReach empty_box m
    → m.prod_i ≡ number_datas
    → m.cons_i ≡ number_datas
    → m.seen ≡ m.made
all_seen {m} r p c =
    let v = BoxReach-Inv r in
    elim (Bool-cases m.ready) [
      | inl y ↦ absurd (
          omega (
            arith,
            v.prod_len,
            v.cons_len,
            rw y at (ap length v.order ∙ length-append m.seen (inside m)),
          ))
      | inr n ↦ sym (v.order ∙ rw n (append-nil m.seen))
    ]

someone_awake :
    {m : Mailbox}
    → Inv m
    → m.prod_i + m.cons_i < 20
    → ((m.prod_waits ≡ false) × (m.prod_i < number_datas))
      ⊎ ((m.cons_waits ≡ false) × (m.cons_i < number_datas))
someone_awake {m} v h =
    let o = ap length v.order ∙ length-append m.seen (inside m) in
    elim (Bool-cases m.ready) [
      | inl y ↦
          let n : length m.made ≡ length m.seen + 1 = rw y at o in
          inr (consumer_awake y, omega (arith, n, v.prod_len, v.cons_len, v.bound))
      | inr y ↦
          let n : length m.made ≡ length m.seen + 0 = rw y at o in
          inl (producer_awake y, omega (arith, n, v.prod_len, v.cons_len, v.bound, h))
    ]
  where
    consumer_awake : m.ready ≡ true → m.cons_waits ≡ false
    consumer_awake y = elim (Bool-cases m.cons_waits) [
      | inl w ↦ absurd (false≢true (sym (v.cons_empty w) ∙ y))
      | inr w ↦ w
    ]

    producer_awake : m.ready ≡ false → m.prod_waits ≡ false
    producer_awake y = elim (Bool-cases m.prod_waits) [
      | inl w ↦ absurd (false≢true (sym y ∙ v.prod_full w))
      | inr w ↦ w
    ]

-- Whatever the order of turns of the producer and the consumer of ex3_condition_variable.c, the
-- numbers that the consumer has printed, followed by the one that is ready, if any, are the
-- numbers that the producer has handed in, each once and in their order; and the two have made
-- all of their twenty rounds, or one that has rounds to make does not wait on the condition
-- variable.
pub handover :
    {m : Mailbox}
    → BoxReach empty_box m
    → (m.made ≡ m.seen ++ inside m)
      × ((20 ≤ m.prod_i + m.cons_i)
          ⊎ ((m.prod_waits ≡ false) × (m.prod_i < number_datas))
          ⊎ ((m.cons_waits ≡ false) × (m.cons_i < number_datas)))
handover {m} r =
    let v = BoxReach-Inv r in
    (
      v.order,
      elim (Bool-cases (ltb (m.prod_i + m.cons_i) 20)) [
        | inl l ↦ inr (someone_awake v (ground (arith, l)))
        | inr l ↦ inl (ground (arith, l))
      ],
    )
