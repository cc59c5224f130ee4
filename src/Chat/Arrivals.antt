-- ===== src/Chat/Arrivals.antt =====
-- What the other threads do, on cells.
use linux_exercises.Base.{
  ℕ, suc, ◌+◌, ◌<◌, ◌≤◌, ◌≡◌, refl, true, false, Option, none, some, List, [], ◌∷◌, arith, ◌==◌,
  if◌then◌else◌, length, ap, subst, ◌∙◌, Bool-cases, inl, inr,
}
use linux_exercises.Chat.State.{
  Text, Ptr, null, Conn, Chat, done, no_memory, Line, closed, printed, no_thread, accepted,
}
use linux_exercises.Chat.Connection.{new_conn, add_connection, recv_thread_ends}
use linux_exercises.Chat.Threads.{
  Accept, failed, peer, started, admit, accept_one, Outside, recv_ends, arrives, outside, others,
}
use linux_exercises.Chat.Registry.{Cells, has, Linked, IsRegistry, update_cell}
use linux_exercises.Chat.Nodes.{load-ok, update-IsRegistry}
use linux_exercises.Chat.Lists.{next_id, ne_null, add_connection-Linked, rollback-Unlinked}

-- The marks that a receiving thread leaves on its connection.
abbrev pub ended : Conn → Conn
ended c = record c { active = false; should_remove = true }

-- A new connection in front, if a thread could be started for it.
abbrev pub start_cells : Ptr → Option ℕ → Conn → Cells → Cells
start_cells fresh none c xs = xs
start_cells fresh (some t) c xs = (fresh, record c { thread = t }) ∷ xs

-- Cells and next id after an action of another thread.
abbrev pub accept_cells : ℕ → Accept → Cells → Cells
accept_cells n failed xs = xs
accept_cells n (peer fd ip port fresh th) xs =
    if fresh == null then xs else start_cells fresh th (new_conn n fd ip port) xs

abbrev pub accept_id : ℕ → Accept → ℕ
accept_id n failed = n
accept_id n (peer fd ip port fresh t) = if fresh == null then n else next_id n

abbrev pub outside_cells : ℕ → Outside → Cells → Cells
outside_cells n (recv_ends p) xs = update_cell p ended xs
outside_cells n (arrives a) xs = accept_cells n a xs

abbrev pub outside_id : ℕ → Outside → ℕ
outside_id n (recv_ends p) = n
outside_id n (arrives a) = accept_id n a

abbrev pub others_cells : ℕ → List Outside → Cells → Cells
others_cells n [] xs = xs
others_cells n (o ∷ os) xs = others_cells (outside_id n o) os (outside_cells n o xs)

abbrev pub others_id : ℕ → List Outside → ℕ
others_id n [] = n
others_id n (o ∷ os) = others_id (outside_id n o) os

-- A thread ends only for a connection in the list, and `malloc` returns an address not in use.
abbrev pub Fits : Outside → Cells → Type 0
Fits (recv_ends p) xs = has p xs ≡ true
Fits (arrives failed) xs = Unit
Fits (arrives (peer fd ip port fresh t)) xs = has fresh xs ≡ false

abbrev pub AllFit : ℕ → List Outside → Cells → Type 0
AllFit n [] xs = Unit
AllFit n (o ∷ os) xs = Fits o xs × AllFit (outside_id n o) os (outside_cells n o xs)

-- A state that stands for these cells and this next id.
pub record Holds (n : ℕ) (xs : Cells) (s : Chat) : Type 0 where
  pub registry : IsRegistry s xs
  pub id : s.next_conn_id ≡ n

started-Holds :
    (fuel : ℕ) (line : Text → ℕ → ℕ → Line) (fd : ℕ) (fresh : Ptr) (thread : Option ℕ) (c : Conn)
    {n : ℕ} {xs : Cells} (s : Chat)
    → Holds n ((fresh, c) ∷ xs) s
    → suc (length xs) < fuel
    → (t : Chat) × (started fuel line fd fresh thread s ≡ done tt t)
      × Holds n (start_cells fresh thread c xs) t
unfolding started
started-Holds fuel line fd fresh none c {n} {xs} s h lt =
    let (t, e, u) =
      rollback-Unlinked fuel fresh ((fresh, c) ∷ xs)
        (record s { log = closed fd ∷ printed no_thread ∷ s.log })
        (record { head = h.registry.head; linked = h.registry.linked }) (ground arith) lt in
    (
      t,
      e,
      record {
        registry = subst (IsRegistry t) (ground arith) u.registry;
        id = u.next_conn_id ∙ h.id;
      },
    )
started-Holds fuel line fd fresh (some t) c {n} {xs} s h lt =
    let f : Conn → Conn = λ x. record x { thread = t } in
    let (g, e, r, _, _) = update-IsRegistry s {p = fresh} f h.registry (ground arith) in
    let u : Chat = record s { heap = g } in
    let r' : IsRegistry u ((fresh, f c) ∷ xs) = subst (IsRegistry u) (ground arith) r in
    rw (e, load-ok u fresh r'.linked.0 r'.linked.1)
      (
        record u { log = printed (line c.ip c.port c.id) ∷ s.log },
        refl,
        record { registry = record { head = r'.head; linked = r'.linked }; id = h.id },
      )

pub length-update_cell :
    (p : Ptr) (f : Conn → Conn) (xs : Cells) → length (update_cell p f xs) ≡ length xs
length-update_cell p f [] = refl
length-update_cell p f ((a, c) ∷ xs) = ground (arith, length-update_cell p f xs)

pub length-outside_cells :
    (n : ℕ) (o : Outside) (xs : Cells) → length (outside_cells n o xs) ≤ suc (length xs)
length-outside_cells n (recv_ends p) xs = omega (arith, length-update_cell p ended xs)
length-outside_cells n (arrives failed) xs = omega arith
length-outside_cells n (arrives (peer fd ip port fresh none)) xs = ground arith
length-outside_cells n (arrives (peer fd ip port fresh (some t))) xs = ground arith

add_connection-null :
    (fresh : Ptr) (sockfd : ℕ) (ip : Text) (port : ℕ) (s : Chat)
    → (fresh == null) ≡ true
    → add_connection fresh sockfd ip port s ≡ done null s
unfolding add_connection
add_connection-null fresh sockfd ip port s z = rw z

-- Whatever `malloc` and `pthread_create` return, a connected socket is taken into the list or closed.
pub admit-Holds :
    (fuel : ℕ) (line : Text → ℕ → ℕ → Line) (fd : ℕ) (ip : Text) (port : ℕ) (fresh : Ptr)
    (th : Option ℕ) {n : ℕ} {xs : Cells} (s : Chat)
    → Holds n xs s
    → has fresh xs ≡ false
    → suc (length xs) < fuel
    → (t : Chat) × (admit fuel line fd ip port fresh th s ≡ done tt t)
      × Holds
          (accept_id n (peer fd ip port fresh th))
          (accept_cells n (peer fd ip port fresh th) xs)
          t
unfolding admit
admit-Holds fuel line fd ip port fresh th {n} {xs} s h fit lt = elim (Bool-cases (fresh == null)) [
  | inl z ↦
      rw (z, add_connection-null fresh fd ip port s z)
        (
          record s { log = closed fd ∷ printed no_memory ∷ s.log },
          refl,
          record {
            registry = record { head = h.registry.head; linked = h.registry.linked };
            id = h.id;
          },
        )
  | inr z ↦
      let (g, e, l) = add_connection-Linked fresh fd ip port s h.registry (λ q. ne_null z q) fit in
      let u : Chat = record s {
        heap = g;
        conn_head = fresh;
        next_conn_id = next_id s.next_conn_id;
      } in
      rw (z, e, z)
        (started-Holds fuel line fd fresh th (new_conn n fd ip port) u
          (record {
            registry = record {
              head = refl;
              linked = subst (λ m. Linked g ((fresh, new_conn m fd ip port) ∷ xs)) h.id l;
            };
            id = ap next_id h.id;
          })
          lt)
]

pub outside-Holds :
    (fuel : ℕ) (o : Outside) {n : ℕ} {xs : Cells} (s : Chat)
    → Holds n xs s
    → Fits o xs
    → suc (length xs) < fuel
    → (t : Chat) × (outside fuel o s ≡ done tt t) × Holds (outside_id n o) (outside_cells n o xs) t
unfolding outside recv_thread_ends accept_one
outside-Holds fuel (recv_ends p) s h fit lt =
    let (g, e, r, _, _) = update-IsRegistry s {p = p} ended h.registry fit in
    (record s { heap = g }, e, record { registry = r; id = h.id })
outside-Holds fuel (arrives failed) s h fit lt = (
  _,
  refl,
  record { registry = record { head = h.registry.head; linked = h.registry.linked }; id = h.id },
)
outside-Holds fuel (arrives (peer fd ip port fresh th)) s h fit lt =
    admit-Holds fuel accepted fd ip port fresh th s h fit lt

-- With enough fuel, a sequence of possible actions of the listener and of receiving threads
-- returns, and takes a state that stands for a list of connections to one that stands for the
-- list that these actions make: failed accepts, new connections, rolled back ones and ended ones,
-- in any order.
pub others-Holds :
    (fuel : ℕ) (os : List Outside) {n : ℕ} {xs : Cells} (s : Chat)
    → Holds n xs s
    → AllFit n os xs
    → length xs + length os < fuel
    → (t : Chat) × (others fuel os s ≡ done tt t) × Holds (others_id n os) (others_cells n os xs) t
unfolding others
others-Holds fuel [] s h fit lt = (s, refl, h)
others-Holds fuel (o ∷ os) {n} {xs} s h fit lt =
    let (t, e, k) = outside-Holds fuel o s h fit.0 (omega arith) in
    let (u, f, m) = others-Holds fuel os t k fit.1 (omega (arith, length-outside_cells n o xs)) in
    rw e (u, f, m)
