-- ===== src/Chat/Reaping.antt =====
-- `reap_connections` on cells: it ends, and what it leaves.
use linux_exercises.Base.{
  ℕ, suc, ◌+◌, ◌<◌, ◌≤◌, ◌≡◌, refl, Bool, true, false, none, some, List, [], ◌∷◌, ◌++◌, arith, ◌==◌,
  length, All, ap, ◌∙◌, ==_iff, false≢true,
}
use linux_exercises.Chat.State.{
  Ptr, null, Conn, Heap, Chat, done, load, printed, removed, stale_read,
}
use linux_exercises.Chat.Connection.{scan_loop}
use linux_exercises.Chat.Threads.{failed, peer, Outside, recv_ends, arrives}
use linux_exercises.Chat.Reap.{Waits, now, after, reap_node}
use linux_exercises.Chat.Registry.{
  Cells, has, Linked, IsRegistry, drop_cell, cell_at, has-update_cell, find_cells,
}
use linux_exercises.Chat.Nodes.{At-has, scan_cells, scan_loop-scan_cells}
use linux_exercises.Chat.Removal.{remove-Unlinked, freed_node}
use linux_exercises.Chat.Lists.{not_null, scan_cells-has}
use linux_exercises.Chat.Arrivals.{
  AllFit, outside_id, outside_cells, others_id, others_cells, ended, length-outside_cells,
}

load-freed :
    (s : Chat) (p : Ptr) {c : Conn} {q : Ptr}
    → (p == null) ≡ false
    → s.heap p ≡ freed_node c q
    → load p s ≡ done (record { conn = c; next = q }) (record s { log = stale_read p ∷ s.log })
unfolding load
load-freed s p ne e = ground arith

-- With enough fuel, on every removal of a joined connection reap_connections unlinks and frees
-- the node, then reads the id from the freed node to print it; nothing else is visible, so no
-- socket is closed.
pub reap_node-stale_read :
    (fuel : ℕ) (p : Ptr) (xs : Cells) (s : Chat)
    → IsRegistry s xs
    → has p xs ≡ true
    → length xs < fuel
    → (t : Chat) × (c : Conn) × (reap_node fuel p s ≡ done tt t)
      × (cell_at p xs ≡ some c)
      × IsRegistry t (drop_cell p xs)
      × (t.next_conn_id ≡ s.next_conn_id)
      × (t.log ≡ printed (removed c.id) ∷ stale_read p ∷ s.log)
unfolding reap_node
reap_node-stale_read fuel p xs s r i lt =
    let (u, e, un) = remove-Unlinked p xs s r i in
    let f = un.freed_ in
    let w : scan_loop fuel p null s.conn_head s ≡ done (scan_cells p null xs) s =
      ap (λ x. scan_loop fuel p null x s) r.head
      ∙ scan_loop-scan_cells fuel p null xs s r.linked lt in
    let hit : ((scan_cells p null xs).1 == p) ≡ true =
      (==_iff _ _).1 (scan_cells-has p null xs i) in
    (
      record u { log = printed (removed f.conn.id) ∷ stale_read p ∷ u.log },
      f.conn,
      rw (w, hit, e, load-freed u p (not_null (At-has xs r.linked i).ne_null) f.holds),
      f.was,
      record { head = un.registry.head; linked = un.registry.linked },
      un.next_conn_id,
      ap (λ l. printed (removed f.conn.id) ∷ stale_read p ∷ l) un.log,
    )

abbrev pub marked : Conn → Bool
marked c = c.should_remove

abbrev pub Unmarked : Ptr × Conn → Type 0
Unmarked (a, c) = marked c ≡ false

-- The address of the first marked cell.
abbrev pub first_marked : Cells → Ptr
first_marked xs = (find_cells marked null xs).1

-- What `reap_connections` may leave of `xs`: while a cell is marked, the first such is joined, the
-- other threads act, and that cell is dropped.
pub data Reaped : ℕ → Waits → Cells → ℕ → Cells → Type 0 where
  rest : {n : ℕ} {ws : Waits} {xs : Cells} → All Unmarked xs → Reaped n ws xs n xs
  join :
      {n m : ℕ} {ws : Waits} {xs ys : Cells}
      → has (first_marked xs) xs ≡ true
      → Reaped
          (others_id n (now ws))
          (after ws)
          (drop_cell (first_marked xs) (others_cells n (now ws) xs))
          m
          ys
      → Reaped n ws xs m ys

-- The actions of the other threads during the joins are possible ones.
abbrev pub WaitsFit : ℕ → Waits → Cells → Type 0
WaitsFit n [] xs = Unit
WaitsFit n (w ∷ ws) xs =
    AllFit n w xs × WaitsFit (others_id n w) ws (drop_cell (first_marked xs) (others_cells n w xs))

abbrev pub actions : Waits → ℕ
actions [] = 0
actions (w ∷ ws) = length w + actions ws

has-outside_cells :
    (n : ℕ) (o : Outside) (p : Ptr) (xs : Cells)
    → has p xs ≡ true
    → has p (outside_cells n o xs) ≡ true
has-outside_cells n (recv_ends q) p xs i = has-update_cell q p ended xs ∙ i
has-outside_cells n (arrives failed) p xs i = i
has-outside_cells n (arrives (peer fd ip port fresh none)) p xs i = ground arith
has-outside_cells n (arrives (peer fd ip port fresh (some t))) p xs i = ground arith

pub has-others_cells :
    (n : ℕ) (os : List Outside) (p : Ptr) (xs : Cells)
    → has p xs ≡ true
    → has p (others_cells n os xs) ≡ true
has-others_cells n [] p xs i = i
has-others_cells n (o ∷ os) p xs i =
    has-others_cells (outside_id n o) os p (outside_cells n o xs) (has-outside_cells n o p xs i)

pub length-others_cells :
    (n : ℕ) (os : List Outside) (xs : Cells) → length (others_cells n os xs) ≤ length xs + length os
length-others_cells n [] xs = omega arith
length-others_cells n (o ∷ os) xs = omega (
  arith,
  length-others_cells (outside_id n o) os (outside_cells n o xs),
  length-outside_cells n o xs,
)

pub length-drop_cell :
    (p : Ptr) (xs : Cells) → has p xs ≡ true → suc (length (drop_cell p xs)) ≡ length xs
length-drop_cell p [] i = absurd (false≢true i)
length-drop_cell p ((a, c) ∷ xs) i = ground (arith, length-drop_cell p xs)

pub first_marked-append :
    (prev : Ptr) (pre : Cells) (a : Ptr) (c : Conn) (suf : Cells)
    → All Unmarked pre
    → marked c ≡ true
    → (find_cells marked prev (pre ++ (a, c) ∷ suf)).1 ≡ a
first_marked-append prev [] a c suf u m = rw m
first_marked-append prev ((b, d) ∷ pre) a c suf u m =
    rw u.0 (first_marked-append b pre a c suf u.1 m)

pub has-append_self :
    (pre : Cells) (a : Ptr) (c : Conn) (suf : Cells) → has a (pre ++ (a, c) ∷ suf) ≡ true
has-append_self [] a c suf = ground arith
has-append_self ((b, d) ∷ pre) a c suf = ground (arith, has-append_self pre a c suf)

pub Linked-append : (h : Heap) (pre suf : Cells) → Linked h (pre ++ suf) → Linked h suf
Linked-append h [] suf l = l
Linked-append h ((b, d) ∷ pre) suf l = Linked-append h pre suf l.3

pub All-snoc :
    (pre : Cells) (x : Ptr × Conn) → All Unmarked pre → Unmarked x → All Unmarked (pre ++ x ∷ [])
All-snoc [] x u v = (v, tt)
All-snoc (y ∷ pre) x u v = (u.0, All-snoc pre x u.1 v)

pub WaitsFit-after :
    (n : ℕ) (ws : Waits) (xs : Cells)
    → WaitsFit n ws xs
    → AllFit n (now ws) xs
      × WaitsFit
          (others_id n (now ws))
          (after ws)
          (drop_cell (first_marked xs) (others_cells n (now ws) xs))
WaitsFit-after n [] xs f = (tt, tt)
WaitsFit-after n (w ∷ ws) xs f = f

pub actions-after : (ws : Waits) → length (now ws) + actions (after ws) ≡ actions ws
actions-after [] = omega arith
actions-after (w ∷ ws) = refl
