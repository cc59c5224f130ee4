-- ===== src/Chat/Registry.antt =====
-- The list of connections as a list of cells, and the linked nodes of the heap that stand for it.
use linux_exercises.Base.{
  ◌≡◌, ◌≢◌, refl, Bool, true, false, ◌||◌, Option, none, some, List, [], ◌∷◌, arith, ◌==◌,
  if◌then◌else◌, sym, subst, ◌∙◌, Bool-cases, ==_iff, inl, inr, false≢true,
}
use linux_exercises.Chat.State.{Ptr, null, Conn, Cell, live, Heap, write, Chat}

-- Address and fields of each node, in order.
abbrev pub Cells : Type 0
Cells = List (Ptr × Conn)

abbrev pub first : Cells → Ptr
first [] = null
first ((a, c) ∷ xs) = a

abbrev pub has : Ptr → Cells → Bool
has p [] = false
has p ((a, c) ∷ xs) = a == p || has p xs

abbrev pub node : Conn → Ptr → Cell
node c q = live (record { conn = c; next = q })

-- The cells are distinct live nodes, each linked to the next and the last to NULL.
abbrev pub Linked : Heap → Cells → Type 0
Linked h [] = Unit
Linked h ((a, c) ∷ xs) = (a ≢ null) × (h a ≡ node c (first xs)) × (has a xs ≡ false) × Linked h xs

pub record IsRegistry (s : Chat) (xs : Cells) : Type 0 where
  pub head : s.conn_head ≡ first xs
  pub linked : Linked s.heap xs

-- Two heaps that agree on the cells.
pub Linked-frame :
    {h g : Heap} (xs : Cells)
    → Linked h xs
    → ((a : Ptr) → has a xs ≡ true → g a ≡ h a)
    → Linked g xs
Linked-frame [] l same = tt
Linked-frame ((a, c) ∷ xs) l same =
    (l.0, same a (ground arith) ∙ l.1, l.2, Linked-frame xs l.3 (λ b i. same b (ground arith)))

pub write_same : (h : Heap) (p : Ptr) (c : Cell) → write h p c p ≡ c
unfolding write
write_same h p c = ground arith

pub write_other : (h : Heap) {p q : Ptr} (c : Cell) → p ≢ q → write h p c q ≡ h q
unfolding write
write_other h c ne = ground arith

pub ne_of_has : {a b : Ptr} (xs : Cells) → has b xs ≡ true → has a xs ≡ false → a ≢ b
ne_of_has {b} xs i out e = false≢true (sym out ∙ subst (λ x. has x xs ≡ true) (sym e) i)

pub not_has-cons :
    (b a : Ptr) (c : Conn) (xs : Cells) → has b ((a, c) ∷ xs) ≡ false → (a ≢ b) × (has b xs ≡ false)
not_has-cons b a c xs h = (ground arith, ground arith)

pub Linked-write :
    (h : Heap) (xs : Cells) (a : Ptr) (c : Cell)
    → Linked h xs
    → has a xs ≡ false
    → Linked (write h a c) xs
Linked-write h xs a c l out = Linked-frame xs l (λ b i. write_other h c (ne_of_has xs i out))

-- The walk of `find_loop`, on cells.
abbrev pub find_cells : (Conn → Bool) → Ptr → Cells → Ptr × Ptr
find_cells test prev [] = (prev, null)
find_cells test prev ((a, c) ∷ xs) = if test c then (prev, a) else find_cells test a xs

-- The fields of the cell at `p`.
abbrev pub cell_at : Ptr → Cells → Option Conn
cell_at p [] = none
cell_at p ((a, c) ∷ xs) = if a == p then some c else cell_at p xs

-- The cells without the one at `p`.
abbrev pub drop_cell : Ptr → Cells → Cells
drop_cell p [] = []
drop_cell p ((a, c) ∷ xs) = if a == p then xs else (a, c) ∷ drop_cell p xs

-- The cells with the fields of the one at `p` changed.
abbrev pub update_cell : Ptr → (Conn → Conn) → Cells → Cells
update_cell p f [] = []
update_cell p f ((a, c) ∷ xs) = if a == p then (a, f c) ∷ xs else (a, c) ∷ update_cell p f xs

pub has-drop_cell : (p a : Ptr) (xs : Cells) → has a xs ≡ false → has a (drop_cell p xs) ≡ false
has-drop_cell p a [] h = refl
has-drop_cell p a ((b, c) ∷ xs) h = ground (arith, has-drop_cell p a xs)

pub has-update_cell :
    (p a : Ptr) (f : Conn → Conn) (xs : Cells) → has a (update_cell p f xs) ≡ has a xs
has-update_cell p a f [] = refl
has-update_cell p a f ((b, c) ∷ xs) = ground (arith, has-update_cell p a f xs)

pub first-update_cell :
    (p : Ptr) (f : Conn → Conn) (xs : Cells) → first (update_cell p f xs) ≡ first xs
first-update_cell p f [] = refl
first-update_cell p f ((b, c) ∷ xs) = ground arith

-- A change of the fields of one node.
pub Linked-update_cell :
    {h : Heap} (p : Ptr) (f : Conn → Conn) (xs : Cells)
    → Linked h xs
    → (g : Heap) → ((a : Ptr) → a ≢ p → g a ≡ h a)
    → ((c : Conn) (q : Ptr) → h p ≡ node c q → g p ≡ node (f c) q)
    → Linked g (update_cell p f xs)
Linked-update_cell p f [] l g same new = tt
Linked-update_cell p f ((a, c) ∷ xs) l g same new = elim (Bool-cases (a == p)) [
  | inl e ↦ rw e (
    l.0,
    ground (arith, new c (first xs)),
    l.2,
    Linked-frame xs l.3 (λ b i. same b (λ q. ne_of_has xs i l.2 ((==_iff a p).0 e ∙ sym q))),
  )
  | inr e ↦ rw e (
    l.0,
    ground (arith, same a, first-update_cell p f xs),
    has-update_cell p a f xs ∙ l.2,
    Linked-update_cell p f xs l.3 g same new,
  )
]
