-- ===== src/Chat/Lists.antt =====
-- What `add_connection`, the removal of a node, and the other threads do, on cells.
use linux_exercises.Base.{
  ℕ, zero, suc, ◌+◌, ◌<◌, ◌%◌, ◌^◌, ◌≡◌, ◌≢◌, true, false, [], ◌∷◌, arith, ◌==◌, length, ap, ◌∙◌,
  Bool-cases, inl, inr, false≢true,
}
use linux_exercises.Chat.State.{Text, Ptr, null, Conn, PeerConn, Heap, write, Chat, done, load}
use linux_exercises.Chat.Connection.{new_conn, add_connection, remove_node_locked}
use linux_exercises.Chat.Threads.{before_loop, rollback}
use linux_exercises.Chat.Registry.{Cells, has, node, Linked, IsRegistry, write_same, Linked-write}
use linux_exercises.Chat.Nodes.{load-ok, At, At-has, scan_cells}
use linux_exercises.Chat.Removal.{Unlinked, remove-Unlinked}

abbrev pub next_id : ℕ → ℕ
next_id n = (n + 1) % 2 ^ 32

pub not_null : {p : Ptr} → p ≢ null → (p == null) ≡ false
not_null ne = ground arith

pub ne_null : {p : Ptr} → (p == null) ≡ false → p ≢ null
ne_null e = ground arith

-- Given an unused address, the new connection stands first, with the next id; without memory
-- nothing changes.
pub add_connection-Linked :
    (fresh : Ptr) (sockfd : ℕ) (ip : Text) (port : ℕ) (s : Chat) {xs : Cells}
    → IsRegistry s xs
    → fresh ≢ null
    → has fresh xs ≡ false
    → (g : Heap) × (add_connection fresh sockfd ip port s
        ≡ done fresh
            (record s { heap = g; conn_head = fresh; next_conn_id = next_id s.next_conn_id }))
      × Linked g ((fresh, new_conn s.next_conn_id sockfd ip port) ∷ xs)
unfolding add_connection
add_connection-Linked fresh sockfd ip port s {xs} r ne out =
    let c = new_conn s.next_conn_id sockfd ip port in
    (
      write s.heap fresh (node c s.conn_head),
      ground arith,
      (
        ne,
        write_same s.heap fresh _ ∙ ap (node c) r.head,
        out,
        Linked-write s.heap xs fresh _ r.linked out,
      ),
    )

pub scan_cells-has : (p prev : Ptr) (xs : Cells) → has p xs ≡ true → (scan_cells p prev xs).1 ≡ p
scan_cells-has p prev [] i = absurd (false≢true i)
scan_cells-has p prev ((a, c) ∷ xs) i = ground (arith, scan_cells-has p a xs)

before_loop-scan_cells :
    (k : ℕ) (p b : Ptr) (d : Conn) (xs : Cells) (s : Chat)
    → Linked s.heap ((b, d) ∷ xs)
    → has p xs ≡ true
    → length xs < k
    → (before_loop k p b s ≡ done (scan_cells p b xs).0 s) × ((scan_cells p b xs).0 ≢ null)
unfolding before_loop
before_loop-scan_cells k p b d [] s l i lt = absurd (false≢true i)
before_loop-scan_cells zero p b d (x ∷ xs) s l i lt = absurd (omega arith)
before_loop-scan_cells (suc k) p b d ((a, c) ∷ xs) s l i lt = elim (Bool-cases (a == p)) [
  | inl e ↦ ground (arith, load-ok s b l.0 l.1)
  | inr e ↦ ground (arith, load-ok s b l.0 l.1, before_loop-scan_cells k p a c xs s l.3)
]

rollback-behind :
    (fuel : ℕ) (p q : Ptr) (n : PeerConn) (s : Chat)
    → (s.conn_head == p) ≡ false
    → before_loop fuel p s.conn_head s ≡ done q s
    → (q == null) ≡ false
    → (p == null) ≡ false
    → load p s ≡ done n s
    → rollback fuel p s ≡ remove_node_locked q p s
unfolding rollback remove_node_locked
rollback-behind fuel p q n s e₁ e₂ e₃ e₄ e₅ = rw (e₁, e₂, e₃, e₄, e₅)

-- Taking out a node by `rollback` does what `remove_node_locked` does.
rollback-remove :
    (fuel : ℕ) (p : Ptr) (xs : Cells) (s : Chat)
    → IsRegistry s xs
    → has p xs ≡ true
    → length xs < fuel
    → rollback fuel p s ≡ remove_node_locked (scan_cells p null xs).0 (scan_cells p null xs).1 s
unfolding rollback remove_node_locked
rollback-remove fuel p [] s r i lt = absurd (false≢true i)
rollback-remove fuel p ((a, c) ∷ xs) s r i lt = elim (Bool-cases (a == p)) [
  | inl e ↦ ground (arith, load-ok s a r.linked.0 r.linked.1)
  | inr e ↦
      let j : has p xs ≡ true = ground arith in
      let at : At s.heap p = At-has xs r.linked.3 j in
      let b = before_loop-scan_cells fuel p a c xs s r.linked j (omega arith) in
      rw (e, scan_cells-has p a xs j)
        (rollback-behind fuel p _ _ s (ap (λ x. x == p) r.head ∙ e)
          (ap (λ x. before_loop fuel p x s) r.head ∙ b.0) (not_null b.1) (not_null at.ne_null)
          (load-ok s p at.ne_null at.holds))
]

-- With enough fuel, the rollback after a failed pthread_create takes exactly its node out of the
-- list, wherever in the list it has come to stand, and frees it; no other node and no other
-- global changes.
pub rollback-Unlinked :
    (fuel : ℕ) (p : Ptr) (xs : Cells) (s : Chat)
    → IsRegistry s xs
    → has p xs ≡ true
    → length xs < fuel
    → (t : Chat) × (rollback fuel p s ≡ done tt t) × Unlinked p xs s t
rollback-Unlinked fuel p xs s r i lt =
    let (t, e, u) = remove-Unlinked p xs s r i in (t, rollback-remove fuel p xs s r i lt ∙ e, u)
