-- ===== src/Chat/Goes.antt =====
-- What a command makes of the list of connections where no other thread acts.
use linux_exercises.Base.{
  ℕ, suc, ◌+◌, ◌*◌, ◌<◌, ◌≤◌, ◌≡◌, ◌≢◌, refl, false, Option, none, some, List, [], ◌∷◌, arith,
  length,
}
use linux_exercises.Chat.State.{
  Text, Ptr, Chat, Run, done, Event, printed, closed, pton_failed, connect_failed,
}
use linux_exercises.Chat.Command.{Net, Dial, connect_socket}
use linux_exercises.Chat.Registry.{Cells, has, drop_cell}
use linux_exercises.Chat.Arrivals.{Holds, accept_cells}
use linux_exercises.Chat.Threads.{peer}
use native.Mathlib.Nat.{mul-le-mul}
use linux_exercises.Chat.Walk.{keep}

-- The list after a command: it has at most one connection more, at the address that `malloc` gave,
-- and otherwise only old ones.
pub record Goes (xs : Cells) (p : Ptr) {A : Type 0} (r : Run A) : Type 0 where
  pub result : A
  pub state : Chat
  pub id : ℕ
  pub cells : Cells
  pub returns : r ≡ done result state
  pub holds : Holds id cells state
  pub grown : length cells ≤ length xs + 1
  pub known : (q : Ptr) → q ≢ p → has q xs ≡ false → has q cells ≡ false

pub has-keep : (q : Ptr) (xs : Cells) → has q xs ≡ false → has q (keep xs) ≡ false
has-keep q [] h = refl
has-keep q ((a, c) ∷ xs) h = ground (arith, has-keep q xs)

pub length-keep-le : (xs : Cells) → length (keep xs) ≤ length xs
length-keep-le [] = omega arith
length-keep-le ((a, c) ∷ xs) = ground (arith, length-keep-le xs)

pub length-drop_cell-le : (p : Ptr) (xs : Cells) → length (drop_cell p xs) ≤ length xs
length-drop_cell-le p [] = omega arith
length-drop_cell-le p ((a, c) ∷ xs) = ground (arith, length-drop_cell-le p xs)

pub no_address :
    (fuel : ℕ) (net : Net) (d : Dial) (sock : ℕ) (ip : Text) (port : ℕ) (s : Chat)
    → net.pton ip ≡ none
    → connect_socket fuel net d [] sock ip port s
      ≡ done tt (record s { log = closed sock ∷ printed pton_failed ∷ s.log })
unfolding connect_socket
no_address fuel net d sock ip port s e = rw (e, connect_socket)

pub not_reached :
    (fuel : ℕ) (net : Net) (d : Dial) (sock : ℕ) (ip : Text) (port a : ℕ) (s : Chat)
    → net.pton ip ≡ some a
    → d.reached ≡ false
    → connect_socket fuel net d [] sock ip port s
      ≡ done tt (record s { log = closed sock ∷ printed connect_failed ∷ s.log })
unfolding connect_socket
not_reached fuel net d sock ip port a s e w = rw (e, connect_socket) (rw w)

pub same-Goes :
    {A : Type 0} {n : ℕ} {xs : Cells} (p : Ptr) (s : Chat) (l : List Event) {r : Run A} (a : A)
    → Holds n xs s
    → r ≡ done a (record s { log = l })
    → Goes xs p r
same-Goes {n = n} {xs = xs} p s l a h e = record {
  result = a;
  state = record s { log = l };
  id = n;
  cells = xs;
  returns = e;
  holds = record {
    registry = record { head = h.registry.head; linked = h.registry.linked };
    id = h.id;
  };
  grown = omega arith;
  known = λ q ne o. o;
}

-- The bounds of the loops.
abbrev pub Enough : (b rounds fuel : ℕ) → Type 0
Enough b rounds fuel = (b * (b + 1) + b < rounds) × (suc b < fuel)

pub enough : (n b rounds fuel : ℕ) → n ≤ b → Enough b rounds fuel → n * (n + 1) + n < rounds
enough n b rounds fuel le e =
    let le' : n + 1 ≤ b + 1 = omega (arith, le) in omega (arith, e.0, le, mul-le-mul le le')

pub accept_cells-start :
    (n fd : ℕ) (ip : Text) (port : ℕ) (fresh : Ptr) (th : Option ℕ) (xs : Cells)
    → (length (accept_cells n (peer fd ip port fresh th) xs) ≤ length xs + 1)
      × ((q : Ptr)
          → q ≢ fresh
          → has q xs ≡ false
          → has q (accept_cells n (peer fd ip port fresh th) xs) ≡ false)
accept_cells-start n fd ip port fresh none xs = (ground arith, λ q ne o. ground arith)
accept_cells-start n fd ip port fresh (some t) xs = (ground arith, λ q ne o. ground arith)
