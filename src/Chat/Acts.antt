-- ===== src/Chat/Acts.antt =====
-- What the other threads do while the listener waits, on cells.
use linux_exercises.Base.{
  ℕ, suc, ◌+◌, ◌<◌, ◌≤◌, ◌≡◌, refl, false, true, List, [], ◌∷◌, arith, ◌==◌, ==_iff, length, ap,
  ◌∙◌,
}
use linux_exercises.Chat.State.{null, Chat, done, connected}
use linux_exercises.Chat.Connection.{scan_loop}
use linux_exercises.Chat.Threads.{peer, arrives, Act, other, dials, marks, removes, one_act, acts}
use linux_exercises.Chat.Registry.{Cells, has, drop_cell, update_cell}
use linux_exercises.Chat.Nodes.{update-IsRegistry, scan_cells, scan_loop-scan_cells}
use linux_exercises.Chat.Lists.{scan_cells-has}
use linux_exercises.Chat.Removal.{remove-Unlinked}
use linux_exercises.Chat.Reaping.{length-drop_cell}
use linux_exercises.Chat.Terminate.{off}
use linux_exercises.Chat.Arrivals.{
  Holds, Fits, accept_cells, accept_id, outside_cells, outside_id, admit-Holds, outside-Holds,
  length-update_cell, length-outside_cells,
}

-- Cells and next id after one action.
abbrev pub act_cells : ℕ → Act → Cells → Cells
act_cells n (other o) xs = outside_cells n o xs
act_cells n (dials fd ip port fresh th) xs = accept_cells n (peer fd ip port fresh th) xs
act_cells n (marks p) xs = update_cell p off xs
act_cells n (removes p) xs = drop_cell p xs

abbrev pub act_id : ℕ → Act → ℕ
act_id n (other o) = outside_id n o
act_id n (dials fd ip port fresh th) = accept_id n (peer fd ip port fresh th)
act_id n (marks p) = n
act_id n (removes p) = n

abbrev pub acts_cells : ℕ → List Act → Cells → Cells
acts_cells n [] xs = xs
acts_cells n (a ∷ as') xs = acts_cells (act_id n a) as' (act_cells n a xs)

abbrev pub acts_id : ℕ → List Act → ℕ
acts_id n [] = n
acts_id n (a ∷ as') = acts_id (act_id n a) as'

-- Only a node in the list is marked or removed, and `malloc` returns an address not in use.
abbrev pub ActFits : Act → Cells → Type 0
ActFits (other o) xs = Fits o xs
ActFits (dials fd ip port fresh th) xs = has fresh xs ≡ false
ActFits (marks p) xs = has p xs ≡ true
ActFits (removes p) xs = has p xs ≡ true

abbrev pub AllActsFit : ℕ → List Act → Cells → Type 0
AllActsFit n [] xs = Unit
AllActsFit n (a ∷ as') xs = ActFits a xs × AllActsFit (act_id n a) as' (act_cells n a xs)

length-act_cells :
    (n : ℕ) (a : Act) (xs : Cells) → ActFits a xs → length (act_cells n a xs) ≤ suc (length xs)
length-act_cells n (other o) xs h = length-outside_cells n o xs
length-act_cells n (dials fd ip port fresh th) xs h =
    length-outside_cells n (arrives (peer fd ip port fresh th)) xs
length-act_cells n (marks p) xs h = omega (arith, length-update_cell p off xs)
length-act_cells n (removes p) xs h = omega (arith, length-drop_cell p xs h)

one_act-Holds :
    (fuel : ℕ) (a : Act) {n : ℕ} {xs : Cells} (s : Chat)
    → Holds n xs s
    → ActFits a xs
    → suc (length xs) < fuel
    → (t : Chat) × (one_act fuel a s ≡ done tt t) × Holds (act_id n a) (act_cells n a xs) t
unfolding one_act
one_act-Holds fuel (other o) s h fit lt = outside-Holds fuel o s h fit lt
one_act-Holds fuel (dials fd ip port fresh th) s h fit lt =
    admit-Holds fuel connected fd ip port fresh th s h fit lt
one_act-Holds fuel (marks p) s h fit lt =
    let (g, e, r, _, _) = update-IsRegistry s {p = p} off h.registry fit in
    (record s { heap = g }, e, record { registry = r; id = h.id })
one_act-Holds fuel (removes p) {n} {xs} s h fit lt =
    let w : scan_loop fuel p null s.conn_head s ≡ done (scan_cells p null xs) s =
      ap (λ x. scan_loop fuel p null x s) h.registry.head
      ∙ scan_loop-scan_cells fuel p null xs s h.registry.linked (omega (arith, lt)) in
    let hit : ((scan_cells p null xs).1 == p) ≡ true =
      (==_iff _ _).1 (scan_cells-has p null xs fit) in
    let (u, e, un) = remove-Unlinked p xs s h.registry fit in
    (u, rw (w, hit) e, record { registry = un.registry; id = un.next_conn_id ∙ h.id })

-- With enough fuel, the actions return, and the state stands for the list that they make.
pub acts-Holds :
    (fuel : ℕ) (as' : List Act) {n : ℕ} {xs : Cells} (s : Chat)
    → Holds n xs s
    → AllActsFit n as' xs
    → length xs + length as' < fuel
    → (t : Chat) × (acts fuel as' s ≡ done tt t) × Holds (acts_id n as') (acts_cells n as' xs) t
unfolding acts
acts-Holds fuel [] s h fit lt = (s, refl, h)
acts-Holds fuel (a ∷ as') {n} {xs} s h fit lt =
    let (t, e, k) = one_act-Holds fuel a s h fit.0 (omega arith) in
    let (u, f, m) = acts-Holds fuel as' t k fit.1 (omega (arith, length-act_cells n a xs fit.0)) in
    rw e (u, f, m)
