-- ===== src/Chat/Nodes.antt =====
-- The node operations at a list of connections: each is the operation on cells of its name.
use linux_exercises.Base.{
  ℕ, zero, suc, ◌<◌, ◌≡◌, ◌≢◌, refl, Bool, true, [], ◌∷◌, arith, ◌==◌, if◌then◌else◌, length, sym,
  ap, subst, ◌∙◌, Bool-cases, ==_iff, inl, inr, false≢true,
}
use linux_exercises.Chat.State.{Ptr, null, Conn, Cell, live, Heap, write, Chat, done, load, update}
use linux_exercises.Chat.Connection.{find_loop, scan_loop}
use linux_exercises.Chat.Registry.{
  Cells, first, has, node, Linked, IsRegistry, write_same, write_other, find_cells, update_cell,
  Linked-update_cell, first-update_cell,
}

pub load-ok :
    (s : Chat) (p : Ptr) {c : Conn} {q : Ptr}
    → p ≢ null
    → s.heap p ≡ node c q
    → load p s ≡ done (record { conn = c; next = q }) s
unfolding load
load-ok s p ne e = ground arith

-- Where a cell's node lies.
pub record At (h : Heap) (p : Ptr) : Type 0 where
  pub conn : Conn
  pub next : Ptr
  pub ne_null : p ≢ null
  pub holds : h p ≡ node conn next

pub At-has : {h : Heap} {p : Ptr} (xs : Cells) → Linked h xs → has p xs ≡ true → At h p
At-has [] l i = absurd (false≢true i)
At-has {h} {p} ((a, c) ∷ xs) l i = elim (Bool-cases (a == p)) [
  | inl e ↦
      let q : a ≡ p = (==_iff a p).0 e in
      record {
        conn = c;
        next = first xs;
        ne_null = λ z. l.0 (q ∙ z);
        holds = subst (λ x. h x ≡ node c (first xs)) q l.1;
      }
  | inr e ↦ At-has xs l.3 (ground arith)
]

-- A change of the fields of a live node.
abbrev relabel : (Conn → Conn) → Cell → Cell
relabel f (live n) = live (record n { conn = f n.conn })
relabel f c = c

pub update-IsRegistry :
    (s : Chat) {p : Ptr} (f : Conn → Conn) {xs : Cells}
    → IsRegistry s xs
    → has p xs ≡ true
    → (g : Heap) × (update p f s ≡ done tt (record s { heap = g }))
      × IsRegistry (record s { heap = g }) (update_cell p f xs)
      × ((a : Ptr) → a ≢ p → g a ≡ s.heap a)
      × ((c : Conn) (q : Ptr) → s.heap p ≡ node c q → g p ≡ node (f c) q)
unfolding update
update-IsRegistry s {p} f {xs} r i =
    let at = At-has xs r.linked i in
    let g = write s.heap p (node (f at.conn) at.next) in
    let same : (a : Ptr) → a ≢ p → g a ≡ s.heap a =
      λ a ne. write_other s.heap _ (λ e. ne (sym e)) in
    let new : (c : Conn) (q : Ptr) → s.heap p ≡ node c q → g p ≡ node (f c) q =
      λ c q e. write_same s.heap p _ ∙ ap (relabel f) (sym at.holds ∙ e) in
    (
      g,
      rw (load-ok s p at.ne_null at.holds),
      record {
        head = r.head ∙ sym (first-update_cell p f xs);
        linked = Linked-update_cell p f xs r.linked g same new;
      },
      same,
      new,
    )

pub find_loop-find_cells :
    (k : ℕ) (test : Conn → Bool) (prev : Ptr) (xs : Cells) (s : Chat)
    → Linked s.heap xs
    → length xs < k
    → find_loop k test prev (first xs) s ≡ done (find_cells test prev xs) s
unfolding find_loop
find_loop-find_cells zero test prev xs s l lt = absurd (omega arith)
find_loop-find_cells (suc k) test prev [] s l lt = refl
find_loop-find_cells (suc k) test prev ((a, c) ∷ xs) s l lt =
    ground (arith, load-ok s a l.0 l.1, find_loop-find_cells k test a xs s l.3)

-- The walk of `scan_loop`, on cells.
abbrev pub scan_cells : Ptr → Ptr → Cells → Ptr × Ptr
scan_cells target prev [] = (prev, null)
scan_cells target prev ((a, c) ∷ xs) = if a == target then (prev, a) else scan_cells target a xs

pub scan_loop-scan_cells :
    (k : ℕ) (target prev : Ptr) (xs : Cells) (s : Chat)
    → Linked s.heap xs
    → length xs < k
    → scan_loop k target prev (first xs) s ≡ done (scan_cells target prev xs) s
unfolding scan_loop
scan_loop-scan_cells zero target prev xs s l lt = absurd (omega arith)
scan_loop-scan_cells (suc k) target prev [] s l lt = refl
scan_loop-scan_cells (suc k) target prev ((a, c) ∷ xs) s l lt =
    ground (arith, load-ok s a l.0 l.1, scan_loop-scan_cells k target a xs s l.3)
