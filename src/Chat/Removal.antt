-- ===== src/Chat/Removal.antt =====
-- A node of the list unlinked and freed.
use linux_exercises.Base.{
  ◌≡◌, ◌≢◌, refl, true, false, some, [], ◌∷◌, arith, ◌==◌, sym, subst, ◌∙◌, Bool-cases, ==_iff, inl,
  inr, false≢true,
}
use linux_exercises.Chat.State.{
  Ptr, null, Conn, Cell, freed, Heap, write, Chat, Run, done, set_next, free,
}
use linux_exercises.Chat.Connection.{remove_node_locked}
use linux_exercises.Chat.Registry.{
  Cells, first, has, node, Linked, IsRegistry, write_same, write_other, not_has-cons, Linked-write,
  has-drop_cell, drop_cell, cell_at,
}
use linux_exercises.Chat.Nodes.{load-ok, scan_cells}

abbrev pub freed_node : Conn → Ptr → Cell
freed_node c q = freed (record { conn = c; next = q })

-- `p` has been freed, and still has the bytes of its cell.
pub record IsFreed (h : Heap) (p : Ptr) (xs : Cells) : Type 0 where
  pub conn : Conn
  pub next : Ptr
  pub holds : h p ≡ freed_node conn next
  pub was : cell_at p xs ≡ some conn

remove_node_behind :
    (s : Chat) (b a : Ptr) {d c : Conn} {q : Ptr}
    → b ≢ null
    → a ≢ null
    → b ≢ a
    → s.heap b ≡ node d a
    → s.heap a ≡ node c q
    → remove_node_locked b a s
      ≡ done tt (record s { heap = write (write s.heap b (node d q)) a (freed_node c q) })
unfolding remove_node_locked set_next free
remove_node_behind s b a {d} {c} {q} bn an ne eb ea =
    let t : Chat = record s { heap = write s.heap b (node d q) } in
    ground
      (arith, load-ok s a an ea, load-ok s b bn eb, load-ok t a an (write_other s.heap _ ne ∙ ea))

remove_node_first :
    (s : Chat) (a : Ptr) {c : Conn} {q : Ptr}
    → a ≢ null
    → s.heap a ≡ node c q
    → remove_node_locked null a s
      ≡ done tt (record s { heap = write s.heap a (freed_node c q); conn_head = q })
unfolding remove_node_locked free
remove_node_first s a {c} {q} an ea =
    ground (arith, load-ok s a an ea, load-ok (record s { conn_head = q }) a an ea)

-- What is left of the cells behind a node that stays.
record Removed (p b : Ptr) (d : Conn) (xs ys : Cells) (s : Chat) (r : Run (Unit {0})) : Type 0 where
  heap : Heap
  returns : r ≡ done tt (record s { heap = heap })
  linked : Linked heap ((b, d) ∷ ys)
  same : (x : Ptr) → has x ((b, d) ∷ xs) ≡ false → heap x ≡ s.heap x
  freed_ : IsFreed heap p xs

remove-Removed :
    (p b : Ptr) (d : Conn) (xs : Cells) (s : Chat)
    → Linked s.heap ((b, d) ∷ xs)
    → has p xs ≡ true
    → Removed p b d xs
        (drop_cell p xs)
        s
        (remove_node_locked (scan_cells p b xs).0 (scan_cells p b xs).1 s)
remove-Removed p b d [] s l i = absurd (false≢true i)
remove-Removed p b d ((a, c) ∷ xs) s l i = elim (Bool-cases (a == p)) [
  | inl e ↦
      let (ne', out) = not_has-cons b a c xs l.2 in
      let ne : b ≢ a = λ z. ne' (sym z) in
      let h : Heap = write s.heap b (node d (first xs)) in
      rw e (record {
        heap = write h a (freed_node c (first xs));
        returns = remove_node_behind s b a l.0 l.3.0 ne l.1 l.3.1;
        linked = (
          l.0,
          write_other h _ ne' ∙ write_same s.heap b _,
          out,
          Linked-write h xs a _ (Linked-write s.heap xs b _ l.3.3 out) l.3.2,
        );
        same = λ x o. write_other h _ (ground arith) ∙ write_other s.heap _ (ground arith);
        freed_ = record {
          conn = c;
          next = first xs;
          holds =
              subst (λ x. write h a (freed_node c (first xs)) x ≡ freed_node c (first xs))
                ((==_iff a p).0 e) (write_same h a _);
          was = rw e;
        };
      })
  | inr e ↦
      let rest = remove-Removed p a c xs s l.3 (ground arith) in
      rw e (record {
        heap = rest.heap;
        returns = rest.returns;
        linked = (l.0, rest.same b l.2 ∙ l.1, ground (arith, has-drop_cell p b xs), rest.linked);
        same = λ x o. rest.same x (ground arith);
        freed_ =
            let f = rest.freed_ in
            record { conn = f.conn; next = f.next; holds = f.holds; was = rw e f.was };
      })
]

-- The state after a node has been unlinked and freed: the registry has lost that cell, the node's
-- memory is given back, and no other node of the list and no other global is touched.
pub record Unlinked (p : Ptr) (xs : Cells) (s t : Chat) : Type 0 where
  pub registry : IsRegistry t (drop_cell p xs)
  pub freed_ : IsFreed t.heap p xs
  pub same : (x : Ptr) → has x xs ≡ false → t.heap x ≡ s.heap x
  pub log : t.log ≡ s.log
  pub next_conn_id : t.next_conn_id ≡ s.next_conn_id

-- remove_node_locked, at the place where the walk finds a node of the list, takes exactly that
-- node out of the list and frees it; no node outside the list, no other global and no output
-- changes.
pub remove-Unlinked :
    (p : Ptr) (xs : Cells) (s : Chat)
    → IsRegistry s xs
    → has p xs ≡ true
    → (t : Chat) × (remove_node_locked (scan_cells p null xs).0 (scan_cells p null xs).1 s
        ≡ done tt t)
      × Unlinked p xs s t
remove-Unlinked p [] s r i = absurd (false≢true i)
remove-Unlinked p ((a, c) ∷ xs) s r i = elim (Bool-cases (a == p)) [
  | inl e ↦ rw e (
    record s { heap = write s.heap a (freed_node c (first xs)); conn_head = first xs },
    remove_node_first s a r.linked.0 r.linked.1,
    record {
      registry =
          rw e (record { head = refl; linked = Linked-write s.heap xs a _ r.linked.3 r.linked.2 });
      freed_ = record {
        conn = c;
        next = first xs;
        holds =
            subst (λ x. write s.heap a (freed_node c (first xs)) x ≡ freed_node c (first xs))
              ((==_iff a p).0 e) (write_same s.heap a _);
        was = rw e;
      };
      same = λ x o. write_other s.heap _ (ground arith);
      log = refl;
      next_conn_id = refl;
    },
  )
  | inr e ↦
      let rest = remove-Removed p a c xs s r.linked (ground arith) in
      rw e (
        record s { heap = rest.heap },
        rest.returns,
        record {
          registry = rw e (record { head = r.head; linked = rest.linked });
          freed_ =
              let f = rest.freed_ in
              record { conn = f.conn; next = f.next; holds = f.holds; was = rw e f.was };
          same = λ x o. rest.same x o;
          log = refl;
          next_conn_id = refl;
        },
      )
]
