-- ===== src/Threads/Readers.antt =====
-- What the read-write lock of ex4_rw_lock.c gives.
use linux_exercises.Base.{
  sym, ◌∙◌, ℕ, suc, ◌+◌, ◌-◌, ◌<◌, ◌≤◌, ◌≡◌, ◌≢◌, refl, ◌&&◌, some, some-eq-some, List, ◌∷◌, arith,
  ◌==◌, ltb, get_elem?, set, total, total-set, le-total, add-le-total, All, All-set, All-get_elem?,
  Option-cases, Bool-cases, inl, inr, ◌⊎◌, subst,
}
use linux_exercises.Threads.RwLock.{
  Thread, reader, reading, writer, writing, Shared, step, System, turn, start, Reach, here, later,
  num_iterations,
}

abbrev pub reads : Thread → ℕ
reads (reading i) = 1
reads _ = 0

abbrev pub writes : Thread → ℕ
writes (writing i) = 1
writes _ = 0

-- The rounds that a writer has behind it, and those that it has before it.
abbrev pub written : Thread → ℕ
written (writer i) = i
written (writing i) = i
written _ = 0

abbrev pub unwritten : Thread → ℕ
unwritten (writer i) = num_iterations - i
unwritten (writing i) = num_iterations - i
unwritten _ = 0

-- A thread inside the lock is inside its loop.
abbrev pub InLoop : Thread → Type 0
InLoop (reader i) = Unit
InLoop (reading i) = Unit
InLoop (writer i) = i ≤ num_iterations
InLoop (writing i) = i < num_iterations

pub record Counted (d : Shared) (ts : List Thread) : Type 0 where
  pub rd_ : d.rd ≡ total reads ts
  pub wr_ : d.wr ≡ total writes ts
  pub one : d.wr ≤ 1
  pub alone : (d.wr ≡ 0) ⊎ (d.rd ≡ 0)
  pub data__ : d.data_ ≡ 5 + total written ts
  pub all : total written ts + total unwritten ts ≡ 10
  pub in_loop : All InLoop ts

-- One thread's place in the totals.
record Changed (ts : List Thread) (j : ℕ) (a b : Thread) : Type 0 where
  reads_ : total reads (set ts j b) + reads a ≡ total reads ts + reads b
  writes_ : total writes (set ts j b) + writes a ≡ total writes ts + writes b
  written_ : total written (set ts j b) + written a ≡ total written ts + written b
  unwritten_ : total unwritten (set ts j b) + unwritten a ≡ total unwritten ts + unwritten b

set-Changed : (ts : List Thread) (j : ℕ) (a b : Thread) → get_elem? ts j ≡ some a → Changed ts j a b
set-Changed ts j a b e = record {
  reads_ = total-set reads ts j a b e;
  writes_ = total-set writes ts j a b e;
  written_ = total-set written ts j a b e;
  unwritten_ = total-set unwritten ts j a b e;
}

-- The thread and the lock after its step.
abbrev Keeps : Shared → List Thread → ℕ → Shared × Thread → Type 0
Keeps d ts j (d', t') = Counted d' (set ts j t')

reader-Keeps :
    (d : Shared) (ts : List Thread) (j i : ℕ)
    → Counted d ts
    → get_elem? ts j ≡ some (reader i)
    → d.wr ≡ 0
    → Counted (record d { rd = d.rd + 1 }) (set ts j (reading i))
reader-Keeps d ts j i v e z =
    let c = set-Changed ts j (reader i) (reading i) e in
    record {
      rd_ = omega (arith, v.rd_, c);
      wr_ = omega (arith, v.wr_, c);
      one = v.one;
      alone = inl z;
      data__ = omega (arith, v.data__, c);
      all = omega (arith, v.all, c);
      in_loop = All-set InLoop ts j v.in_loop tt;
    }

reading-Keeps :
    (d : Shared) (ts : List Thread) (j i : ℕ)
    → Counted d ts
    → get_elem? ts j ≡ some (reading i)
    → Counted (record d { rd = d.rd - 1; seen = d.data_ ∷ d.seen }) (set ts j (reader (suc i)))
reading-Keeps d ts j i v e =
    let c = set-Changed ts j (reading i) (reader (suc i)) e in
    record {
      rd_ = omega (arith, v.rd_, c);
      wr_ = omega (arith, v.wr_, c);
      one = v.one;
      alone = ground (arith, v.alone);
      data__ = omega (arith, v.data__, c);
      all = omega (arith, v.all, c);
      in_loop = All-set InLoop ts j v.in_loop tt;
    }

writer-Keeps :
    (d : Shared) (ts : List Thread) (j i : ℕ)
    → Counted d ts
    → get_elem? ts j ≡ some (writer i)
    → i < num_iterations
    → d.wr ≡ 0
    → d.rd ≡ 0
    → Counted (record d { wr = d.wr + 1 }) (set ts j (writing i))
writer-Keeps d ts j i v e l z y =
    let c = set-Changed ts j (writer i) (writing i) e in
    record {
      rd_ = omega (arith, v.rd_, c);
      wr_ = omega (arith, v.wr_, c);
      one = omega arith;
      alone = inr y;
      data__ = omega (arith, v.data__, c);
      all = omega (arith, v.all, c);
      in_loop = All-set InLoop ts j v.in_loop l;
    }

writing-Keeps :
    (d : Shared) (ts : List Thread) (j i : ℕ)
    → Counted d ts
    → get_elem? ts j ≡ some (writing i)
    → Counted (record d { wr = d.wr - 1; data_ = d.data_ + 1 }) (set ts j (writer (suc i)))
writing-Keeps d ts j i v e =
    let c = set-Changed ts j (writing i) (writer (suc i)) e in
    let l = All-get_elem? InLoop ts j v.in_loop e in
    record {
      rd_ = omega (arith, v.rd_, c);
      wr_ = omega (arith, v.wr_, c);
      one = omega (arith, v.one);
      alone = inl (omega (arith, v.one));
      data__ = omega (arith, v.data__, c);
      all = omega (arith, v.all, c, l);
      in_loop = All-set InLoop ts j v.in_loop l;
    }

step-Keeps :
    (d d' : Shared) (ts : List Thread) (j : ℕ) (t t' : Thread)
    → Counted d ts
    → get_elem? ts j ≡ some t
    → step d t ≡ some (d', t')
    → Counted d' (set ts j t')
unfolding step
step-Keeps d d' ts j (reader i) t' v e h = elim (Bool-cases (ltb i num_iterations && d.wr == 0)) [
  | inl y ↦
      subst (Keeps d ts j) (some-eq-some _ (d', t') (rw y at h))
        (reader-Keeps d ts j i v e (ground arith))
  | inr n ↦ absurd (ground arith)
]
step-Keeps d d' ts j (reading i) t' v e h =
    subst (Keeps d ts j) (some-eq-some _ (d', t') h) (reading-Keeps d ts j i v e)
step-Keeps d d' ts j (writer i) t' v e h =
    elim (Bool-cases (ltb i num_iterations && (d.wr == 0 && d.rd == 0))) [
      | inl y ↦
          subst (Keeps d ts j) (some-eq-some _ (d', t') (rw y at h))
            (writer-Keeps d ts j i v e (ground arith) (ground arith) (ground arith))
      | inr n ↦ absurd (ground arith)
    ]
step-Keeps d d' ts j (writing i) t' v e h =
    subst (Keeps d ts j) (some-eq-some _ (d', t') h) (writing-Keeps d ts j i v e)

turn-Counted :
    (j : ℕ) (s u : System)
    → Counted s.shared s.threads
    → turn j s ≡ some u
    → Counted u.shared u.threads
unfolding turn
turn-Counted j s u v h = elim (Option-cases (get_elem? s.threads j)) [
  | inl z ↦ absurd (ground arith)
  | inr (t, e) ↦ elim (Option-cases (step s.shared t)) [
    | inl y ↦ absurd (ground arith)
    | inr ((d, t'), y) ↦
        let q : record { shared = d; threads = set s.threads j t' } ≡ u = ground arith in
        subst (λ (x : System). Counted x.shared x.threads) q
          (step-Keeps s.shared d s.threads j t t' v e y)
  ]
]

Reach-Counted : {s : System} → Reach start s → Counted s.shared s.threads
Reach-Counted here = record {
  rd_ = refl;
  wr_ = refl;
  one = omega arith;
  alone = inl refl;
  data__ = refl;
  all = refl;
  in_loop = ground arith;
}
Reach-Counted (later {t} {u} r j e) = turn-Counted j t u (Reach-Counted r) e

-- In every reachable state of ex4_rw_lock.c, while one thread holds the lock to write, no other
-- thread holds it, to write or to read.
lock_exclusion :
    {s : System}
    → Reach start s
    → (j k : ℕ) {a b : Thread} → j ≢ k
    → get_elem? s.threads j ≡ some a
    → get_elem? s.threads k ≡ some b
    → writes a ≡ 1
    → (writes b ≡ 0) × (reads b ≡ 0)
lock_exclusion {s} r j k {a} {b} ne e f w =
    let v = Reach-Counted r in
    let x = add-le-total writes s.threads j k a b ne e f in
    let y = le-total reads s.threads k b f in
    (omega (arith, v.wr_, v.one, x), omega (arith, v, x, y))

-- In every reachable state of ex4_rw_lock.c, the shared number and the rounds that the writers
-- have left make 15 together; at most one thread holds the lock to write, and while one does,
-- none holds it to read.
pub lock_counts :
    {s : System}
    → Reach start s
    → (s.shared.data_ + total unwritten s.threads ≡ 15)
      × (total writes s.threads ≤ 1)
      × ((total writes s.threads ≡ 0) ⊎ (total reads s.threads ≡ 0))
lock_counts {s} r =
    let v = Reach-Counted r in
    (
      omega (arith, v.data__, v.all),
      omega (arith, v.one, v.wr_),
      elim v.alone [ inl z ↦ inl (sym v.wr_ ∙ z) | inr z ↦ inr (sym v.rd_ ∙ z) ],
    )
