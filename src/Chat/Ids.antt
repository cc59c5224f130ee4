-- ===== src/Chat/Ids.antt =====
-- The ids of the connections in the list.
use linux_exercises.Base.{
  ℕ, suc, ◌+◌, ◌<◌, ◌≤◌, ◌^◌, ◌≡◌, refl, Bool, false, ◌||◌, none, some, List, [], ◌∷◌, arith, ◌==◌,
  length, Bool-cases, inl, inr, subst, sym,
}
use linux_exercises.Chat.State.{Ptr, null, Chat, done}
use linux_exercises.Chat.Threads.{failed, peer, Outside, recv_ends, arrives, others}
use linux_exercises.Chat.Registry.{Cells, IsRegistry, drop_cell, update_cell}
use linux_exercises.Chat.Arrivals.{
  ended, outside_cells, outside_id, others_cells, others_id, Holds, AllFit, others-Holds,
}

abbrev pub id_used : ℕ → Cells → Bool
id_used i [] = false
id_used i ((a, c) ∷ xs) = c.id == i || id_used i xs

-- Each id is below the next one to be given, and no two are the same.
abbrev pub UniqueIds : ℕ → Cells → Type 0
UniqueIds n [] = Unit
UniqueIds n ((a, c) ∷ xs) = (c.id < n) × (id_used c.id xs ≡ false) × UniqueIds n xs

UniqueIds-le : (n m : ℕ) (xs : Cells) → UniqueIds n xs → n ≤ m → UniqueIds m xs
UniqueIds-le n m [] u h = tt
UniqueIds-le n m ((a, c) ∷ xs) u h = (omega (arith, u.0), u.1, UniqueIds-le n m xs u.2 h)

id_used-above : (n i : ℕ) (xs : Cells) → UniqueIds n xs → n ≤ i → id_used i xs ≡ false
id_used-above n i [] u h = refl
id_used-above n i ((a, c) ∷ xs) u h = ground (arith, u.0, id_used-above n i xs u.2)

id_used-drop_cell :
    (i : ℕ) (p : Ptr) (xs : Cells) → id_used i xs ≡ false → id_used i (drop_cell p xs) ≡ false
id_used-drop_cell i p [] h = refl
id_used-drop_cell i p ((a, c) ∷ xs) h = ground (arith, id_used-drop_cell i p xs)

UniqueIds-drop_cell : (n : ℕ) (p : Ptr) (xs : Cells) → UniqueIds n xs → UniqueIds n (drop_cell p xs)
UniqueIds-drop_cell n p [] u = tt
UniqueIds-drop_cell n p ((a, c) ∷ xs) u = elim (Bool-cases (a == p)) [
  | inl e ↦ rw e u.2
  | inr e ↦ rw e (u.0, id_used-drop_cell c.id p xs u.1, UniqueIds-drop_cell n p xs u.2)
]

id_used-update_cell :
    (i : ℕ) (p : Ptr) (xs : Cells) → id_used i (update_cell p ended xs) ≡ id_used i xs
id_used-update_cell i p [] = refl
id_used-update_cell i p ((a, c) ∷ xs) = ground (arith, id_used-update_cell i p xs)

UniqueIds-update_cell :
    (n : ℕ) (p : Ptr) (xs : Cells) → UniqueIds n xs → UniqueIds n (update_cell p ended xs)
UniqueIds-update_cell n p [] u = tt
UniqueIds-update_cell n p ((a, c) ∷ xs) u = elim (Bool-cases (a == p)) [
  | inl e ↦ rw e u
  | inr e ↦
      rw e
        (u.0, ground (arith, id_used-update_cell c.id p xs, u.1), UniqueIds-update_cell n p xs u.2)
]

UniqueIds-outside :
    (n : ℕ) (o : Outside) (xs : Cells)
    → UniqueIds n xs
    → suc n < 2 ^ 32
    → UniqueIds (outside_id n o) (outside_cells n o xs) × (outside_id n o ≤ suc n)
UniqueIds-outside n (recv_ends p) xs u h = (UniqueIds-update_cell n p xs u, omega arith)
UniqueIds-outside n (arrives failed) xs u h = (u, omega arith)
UniqueIds-outside n (arrives (peer fd ip port fresh none)) xs u h =
    elim (Bool-cases (fresh == null)) [
      | inl e ↦ rw e (u, omega arith)
      | inr e ↦ rw e (UniqueIds-le n _ xs u (omega arith), omega arith)
    ]
UniqueIds-outside n (arrives (peer fd ip port fresh (some t))) xs u h =
    elim (Bool-cases (fresh == null)) [
      | inl e ↦ rw e (u, omega arith)
      | inr e ↦ rw e (
        (omega arith, id_used-above n n xs u (omega arith), UniqueIds-le n _ xs u (omega arith)),
        omega arith,
      )
    ]

others-UniqueIds :
    (n : ℕ) (os : List Outside) (xs : Cells)
    → UniqueIds n xs
    → n + length os < 2 ^ 32
    → UniqueIds (others_id n os) (others_cells n os xs)
      × (id_used (others_id n os) (others_cells n os xs) ≡ false)
others-UniqueIds n [] xs u h = (u, id_used-above n n xs u (omega arith))
others-UniqueIds n (o ∷ os) xs u h =
    let z = UniqueIds-outside n o xs u (omega arith) in
    others-UniqueIds (outside_id n o) os (outside_cells n o xs) z.0 (omega (arith, z.1))

-- From a list of connections with different ids, all below the next one, with enough fuel and
-- while fewer than 2^32 connections have been made: whatever connections arrive, are rolled back
-- or end, in any order, the calls return, and the list in the heap has different ids again, all
-- below next_conn_id, which is thus not in use.
pub UniqueIds-others :
    (fuel : ℕ) (os : List Outside) {n : ℕ} {xs : Cells} (s : Chat)
    → Holds n xs s
    → UniqueIds n xs
    → AllFit n os xs
    → n + length os < 2 ^ 32
    → length xs + length os < fuel
    → (t : Chat) × (ys : Cells) × (others fuel os s ≡ done tt t)
      × IsRegistry t ys
      × UniqueIds t.next_conn_id ys
      × (id_used t.next_conn_id ys ≡ false)
UniqueIds-others fuel os {n} {xs} s h u fit few lt =
    let (t, e, k) = others-Holds fuel os s h fit lt in
    let ys = others_cells n os xs in
    let (v, w) = others-UniqueIds n os xs u few in
    (
      t,
      ys,
      e,
      k.registry,
      subst (λ m. UniqueIds m ys) (sym k.id) v,
      subst (λ m. id_used m ys ≡ false) (sym k.id) w,
    )
