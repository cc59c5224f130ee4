-- ===== src/Buffer/Turns.antt =====
-- Every turn of a thread of nConsumer.c keeps the invariant.
use linux_exercises.Base.{
  ℕ, suc, ◌+◌, ◌-◌, ◌%◌, ◌<◌, ◌≡◌, false, some, List, [], ◌∷◌, ◌++◌, arith, ltb, length,
  length-append, get_elem?, set, All-set, Option-cases, Bool-cases, inl, inr, some-eq-some, subst,
  sym, ap, ◌∙◌,
}
use mathlib.Core.List.{append_assoc}
use linux_exercises.Buffer.Ring.{buffer_size, insert, take_out, Shows, insert-Shows, take_out-Shows}
use linux_exercises.Buffer.Workers.{
  Role, producer, consumer, Thread, awake, asleep, limit, partner, signal, Plant, must_wait, work,
  act, turn_of, turn, start, Reach, here, later,
}
use linux_exercises.Buffer.Tally.{InLoop, Signalled, signal-Signalled}
use linux_exercises.Buffer.Invariant.{
  InOrder, Balanced, Inv, start-Inv, wait-Balanced, made-Balanced, used-Balanced, woken-Balanced,
}

make-InOrder :
    (x : ℕ) (p : Plant) → p.ring.count < buffer_size → InOrder p → InOrder (work producer x p)
unfolding work
make-InOrder x p h o = record {
  queue = o.queue ++ (x % 100 ∷ []);
  shows = insert-Shows p.ring o.queue (x % 100) o.shows h;
  order = ap (λ l. l ++ (x % 100 ∷ [])) o.order ∙ append_assoc p.used o.queue (x % 100 ∷ []);
}

use-queue :
    (x : ℕ) (p : Plant) (q : List ℕ)
    → 0 < p.ring.count
    → Shows p.ring q
    → p.made ≡ p.used ++ q
    → InOrder (work consumer x p)
unfolding work
use-queue x p [] h s e = absurd (omega (arith, s.len, h))
use-queue x p (y ∷ q) h s e =
    let (a, t) = take_out-Shows p.ring y q s in
    record {
      queue = q;
      shows = t;
      order = e ∙ sym (append_assoc p.used (y ∷ []) q) ∙ ap (λ z. p.used ++ (z ∷ []) ++ q) (sym a);
    }

use-InOrder : (x : ℕ) (p : Plant) → 0 < p.ring.count → InOrder p → InOrder (work consumer x p)
use-InOrder x p h o = use-queue x p o.queue h o.shows o.order

InOrder-threads : (p : Plant) (ts : List Thread) → InOrder p → InOrder (record p { threads = ts })
InOrder-threads p ts o = record { queue = o.queue; shows = o.shows; order = o.order }

work-Inv :
    (r : Role) (i j x : ℕ) (p : Plant) (us : List Thread)
    → Inv p
    → get_elem? p.threads j ≡ some (awake r i)
    → i < limit r
    → must_wait r p.ring ≡ false
    → Signalled (partner r) (set p.threads j (awake r (suc i))) us
    → Inv (record (work r x p) { threads = us })
unfolding work insert take_out
work-Inv producer i j x p us v e l n g = record {
  in_order =
      InOrder-threads (work producer x p) us
        (make-InOrder x p (ground (arith, v.in_order.shows.fits)) v.in_order);
  balanced =
      subst (λ m. Balanced (p.ring.count + 1) m (length p.used) us)
        (sym (length-append p.made (x % 100 ∷ [])))
        (made-Balanced i j p.threads us v.balanced e l g);
}
work-Inv consumer i j x p us v e l n g = record {
  in_order = InOrder-threads (work consumer x p) us (use-InOrder x p (ground arith) v.in_order);
  balanced =
      subst (λ m. Balanced (p.ring.count - 1) (length p.made) m us)
        (sym (length-append p.used ((take_out p.ring).0 ∷ [])))
        (used-Balanced i j p.threads us v.balanced (ground arith) e l g);
}

act-Inv :
    (r : Role) (i j w x : ℕ) (p p' : Plant)
    → Inv p
    → get_elem? p.threads j ≡ some (awake r i)
    → i < limit r
    → must_wait r p.ring ≡ false
    → act r i j w x p ≡ some p'
    → Inv p'
act-Inv r i j w x p p' v e l n h =
    let ts = set p.threads j (awake r (suc i)) in
    let f =
      All-set InLoop p.threads j {a = awake r (suc i)} v.balanced.in_loop (omega (arith, l)) in
    elim (Option-cases (signal (partner r) w ts)) [
      | inl o ↦ absurd (ground arith)
      | inr (us, g) ↦
          subst Inv (some-eq-some (record (work r x p) { threads = us }) p' (ground arith))
            (work-Inv r i j x p us v e l n (signal-Signalled (partner r) w ts us f g))
    ]

turn_of-Inv :
    (j w x : ℕ) (p p' : Plant) (t : Thread)
    → Inv p
    → get_elem? p.threads j ≡ some t
    → turn_of j w x p t ≡ some p'
    → Inv p'
turn_of-Inv j w x p p' (asleep r i) v e h =
    subst Inv (some-eq-some (record p { threads = set p.threads j (awake r i) }) p' h) (record {
      in_order = InOrder-threads p (set p.threads j (awake r i)) v.in_order;
      balanced = woken-Balanced r i j p.threads v.balanced e;
    })
turn_of-Inv j w x p p' (awake r i) v e h = elim (Bool-cases (ltb i (limit r))) [
  | inl l ↦ elim (Bool-cases (must_wait r p.ring)) [
    | inl m ↦
        subst Inv
          (some-eq-some (record p { threads = set p.threads j (asleep r i) }) p' (ground arith))
          (record {
            in_order = InOrder-threads p (set p.threads j (asleep r i)) v.in_order;
            balanced = wait-Balanced r i j p v e (ground arith) m;
          })
    | inr m ↦ act-Inv r i j w x p p' v e (ground arith) m (ground arith)
  ]
  | inr l ↦ absurd (ground arith)
]

turn-Inv : (j w x : ℕ) (p p' : Plant) → Inv p → turn j w x p ≡ some p' → Inv p'
unfolding turn
turn-Inv j w x p p' v h = elim (Option-cases (get_elem? p.threads j)) [
  | inl o ↦ absurd (ground arith)
  | inr (t, e) ↦ turn_of-Inv j w x p p' t v e (ground arith)
]

pub Reach-Inv : {p : Plant} → Reach start p → Inv p
Reach-Inv here = start-Inv
Reach-Inv (later {a} {b} r j w x e) = turn-Inv j w x a b (Reach-Inv r) e
