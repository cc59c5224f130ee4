-- ===== src/Chat/Quiet.antt =====
-- `reap_connections` while no other thread touches the list: exactly the marked cells go.
use linux_exercises.Base.{
  ℕ, ◌+◌, ◌*◌, ◌<◌, ◌≡◌, ◌≢◌, refl, Bool, true, false, ◌⊎◌, [], ◌∷◌, arith, ◌==◌, length, All, sym,
  ap, subst, ◌∙◌, Bool-cases, inl, inr,
}
use linux_exercises.Chat.State.{Ptr, null, Conn, Heap, Chat, done}
use linux_exercises.Chat.Reap.{reap_connections}
use linux_exercises.Chat.Registry.{
  Cells, has, Linked, ne_of_has, drop_cell, has-drop_cell, find_cells,
}
use linux_exercises.Chat.Arrivals.{Holds}
use linux_exercises.Chat.Reaping.{marked, Unmarked, first_marked, Reaped, rest, join}
use linux_exercises.Chat.Walk.{keep, reap_connections-Reaped}

abbrev Distinct : Cells → Type 0
Distinct [] = Unit
Distinct ((a, c) ∷ xs) = (a ≢ null) × (has a xs ≡ false) × Distinct xs

Distinct-Linked : (h : Heap) (xs : Cells) → Linked h xs → Distinct xs
Distinct-Linked h [] l = tt
Distinct-Linked h ((a, c) ∷ xs) l = (l.0, l.2, Distinct-Linked h xs l.3)

Distinct-drop_cell : (p : Ptr) (xs : Cells) → Distinct xs → Distinct (drop_cell p xs)
Distinct-drop_cell p [] d = tt
Distinct-drop_cell p ((a, c) ∷ xs) d = elim (Bool-cases (a == p)) [
  | inl e ↦ rw e d.2
  | inr e ↦ rw e (d.0, has-drop_cell p a xs d.1, Distinct-drop_cell p xs d.2)
]

find_cells-has :
    (test : Conn → Bool) (prev : Ptr) (xs : Cells)
    → ((find_cells test prev xs).1 ≡ null) ⊎ (has (find_cells test prev xs).1 xs ≡ true)
find_cells-has test prev [] = inl refl
find_cells-has test prev ((a, c) ∷ xs) = ground (arith, find_cells-has test a xs)

-- A cell before the first marked one has another address.
before_marked :
    (a : Ptr) (xs : Cells) → a ≢ null → has a xs ≡ false → (a == (find_cells marked a xs).1) ≡ false
before_marked a xs ne out = elim (find_cells-has marked a xs) [
  | inl z ↦ rw z (ground arith)
  | inr j ↦ let q = ne_of_has xs j out in ground arith
]

find_cells-skip :
    (prev a : Ptr) (c : Conn) (xs : Cells)
    → marked c ≡ false
    → (find_cells marked prev ((a, c) ∷ xs)).1 ≡ (find_cells marked a xs).1
find_cells-skip prev a c xs m = rw m

other_cell :
    (a : Ptr) (c : Conn) (p : Ptr) (xs : Cells)
    → (a == p) ≡ false
    → has p ((a, c) ∷ xs) ≡ true
    → has p xs ≡ true
other_cell a c p xs b i = ground arith

keep-drop_cell :
    (prev : Ptr) (xs : Cells)
    → Distinct xs
    → has (find_cells marked prev xs).1 xs ≡ true
    → keep (drop_cell (find_cells marked prev xs).1 xs) ≡ keep xs
keep-drop_cell prev [] d i = refl
keep-drop_cell prev ((a, c) ∷ xs) d i = elim (Bool-cases (marked c)) [
  | inl m ↦ ground arith
  | inr m ↦
      let b = before_marked a xs d.0 d.1 in
      let j : has (find_cells marked a xs).1 xs ≡ true =
        other_cell a c (find_cells marked a xs).1 xs b
          (subst (λ x. has x ((a, c) ∷ xs) ≡ true) (find_cells-skip prev a c xs m) i) in
      subst (λ p. keep (drop_cell p ((a, c) ∷ xs)) ≡ keep ((a, c) ∷ xs))
        (sym (find_cells-skip prev a c xs m))
        (simp (m, b) (ap (λ ys. (a, c) ∷ ys) (keep-drop_cell a xs d.2 j)))
]

Unmarked-keep : (xs : Cells) → All Unmarked xs → keep xs ≡ xs
Unmarked-keep [] u = refl
Unmarked-keep ((a, c) ∷ xs) u = rw (u.0, Unmarked-keep xs u.1)

Reaped-keep :
    {n m : ℕ} {xs ys : Cells} → Reaped n [] xs m ys → Distinct xs → (m ≡ n) × (ys ≡ keep xs)
Reaped-keep (rest {xs} u) d = (refl, sym (Unmarked-keep xs u))
Reaped-keep (join {xs} i r) d =
    let z = Reaped-keep r (Distinct-drop_cell (first_marked xs) xs d) in
    (z.0, z.1 ∙ keep-drop_cell null xs d i)

-- Where no other thread acts during the joins, reap_connections returns and leaves exactly the
-- connections that are not marked for removal, in their order, and the next id as it was.
pub reap_connections-keep :
    (rounds fuel n : ℕ) (xs : Cells) (s : Chat)
    → Holds n xs s
    → length xs < fuel
    → length xs * (length xs + 1) + length xs < rounds
    → (t : Chat) × (reap_connections rounds fuel [] s ≡ done tt t) × Holds n (keep xs) t
reap_connections-keep rounds fuel n xs s h f r =
    let (t, m, ys, e, k, z) =
      reap_connections-Reaped rounds fuel n [] xs s h tt (omega arith)
        (subst (λ l. l * (l + 1) + length xs < rounds) (omega arith) r) in
    let q = Reaped-keep z (Distinct-Linked s.heap xs h.registry.linked) in
    (t, e, subst (λ y. Holds n y t) q.1 (subst (λ i. Holds i ys t) q.0 k))
