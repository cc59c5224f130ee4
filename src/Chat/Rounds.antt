-- ===== src/Chat/Rounds.antt =====
-- -- The commands, on cells, where no other thread acts.
use linux_exercises.Base.{
  ℕ, ◌≤◌, ◌≡◌, refl, false, Option, none, [], ◌∷◌, arith, length, ap, ◌∙◌, Bool-cases, Option-cases,
  inl, inr,
}
use linux_exercises.Chat.State.{
  Text, Ptr, Chat, Run, done, printed, closed, socket_failed, pton_failed, connect_failed,
  not_found,
}
use linux_exercises.Chat.Command.{
  Net, Config, Dial, cmd_connect, try_socket, list_loop, cmd_list, cmd_terminate, cmd_exit,
}
use linux_exercises.Chat.Reap.{reap_connections}
use linux_exercises.Chat.Registry.{
  Cells, has, drop_cell, has-drop_cell, update_cell, has-update_cell,
}
use linux_exercises.Chat.Arrivals.{Holds, length-update_cell, accept_cells}
use linux_exercises.Chat.Threads.{peer}
use linux_exercises.Strings.{strtol}
use linux_exercises.Chat.Connect.{
  refusal, cmd_connect-refusal, cmd_connect-try_socket, cmd_connect-Holds,
}
use linux_exercises.Chat.Send.{find?, rows, list_loop-rows}
use linux_exercises.Chat.Terminate.{has_id, off, cmd_terminate-not_found, cmd_terminate-Terminated}
use linux_exercises.Chat.Exit.{cmd_exit-Exited}
use linux_exercises.Chat.Walk.{keep}
use linux_exercises.Chat.Quiet.{reap_connections-keep}
use linux_exercises.Chat.Goes.{
  Goes, has-keep, length-keep-le, length-drop_cell-le, no_address, not_reached, same-Goes, Enough,
  enough, accept_cells-start,
}

module _ (b rounds fuel : ℕ) (net : Net) (cfg : Config) where
  reap_connections-Goes :
      {n : ℕ} {xs : Cells} (p : Ptr) (s : Chat)
      → Enough b rounds fuel
      → Holds n xs s
      → length xs ≤ b
      → Goes xs p (reap_connections rounds fuel [] s)
  reap_connections-Goes {n} {xs} p s e h le =
      let (t, z, k) =
        reap_connections-keep rounds fuel n xs s h (omega (arith, e.1))
          (enough (length xs) b rounds fuel le e) in
      record {
        result = tt;
        state = t;
        id = n;
        cells = keep xs;
        returns = z;
        holds = k;
        grown = omega (arith, length-keep-le xs);
        known = λ q ne o. has-keep q xs o;
      }

  accept_cells-Goes :
      (n : ℕ) {m : ℕ} {xs : Cells} (fd : ℕ) (ip : Text) (port : ℕ) (fresh : Ptr) (th : Option ℕ)
      (t : Chat) {r : Run (Unit {0})}
      → r ≡ done tt t
      → Holds m (accept_cells n (peer fd ip port fresh th) xs) t
      → Goes xs fresh r
  accept_cells-Goes n {m} {xs} fd ip port fresh th t e h = record {
    result = tt;
    state = t;
    id = m;
    cells = accept_cells n (peer fd ip port fresh th) xs;
    returns = e;
    holds = h;
    grown = (accept_cells-start n fd ip port fresh th xs).0;
    known = (accept_cells-start n fd ip port fresh th xs).1;
  }

  pub cmd_connect-Goes :
      {n : ℕ} {xs : Cells} (d : Dial) (ip portstr : Text) (s : Chat)
      → Enough b rounds fuel
      → Holds n xs s
      → length xs ≤ b
      → has d.fresh xs ≡ false
      → Goes xs d.fresh (cmd_connect fuel net cfg d [] ip portstr s)
  cmd_connect-Goes {n} {xs} d ip portstr s e h le out =
      elim (Option-cases (refusal net cfg ip portstr xs)) [
        | inr (line, f) ↦ same-Goes d.fresh s (printed line ∷ s.log) tt h (
            cmd_connect-refusal fuel net cfg d [] ip portstr xs s h.registry (omega (arith, e.1)) f)
        | inl f ↦ elim (Option-cases d.socket) [
          | inl g ↦
              same-Goes d.fresh s (printed socket_failed ∷ s.log) tt h
                (opens f ∙ ap (λ k. try_socket fuel net d [] ip (strtol portstr).value k s) g)
          | inr (sock, g) ↦ elim (Option-cases (net.pton ip)) [
            | inl z ↦ same-Goes d.fresh s (closed sock ∷ printed pton_failed ∷ s.log) tt h (
                opens f
                ∙ ap (λ k. try_socket fuel net d [] ip (strtol portstr).value k s) g
                ∙ no_address fuel net d sock ip (strtol portstr).value s z)
            | inr (a, z) ↦ elim (Bool-cases d.reached) [
              | inr w ↦ same-Goes d.fresh s (closed sock ∷ printed connect_failed ∷ s.log) tt h (
                  opens f
                  ∙ ap (λ k. try_socket fuel net d [] ip (strtol portstr).value k s) g
                  ∙ not_reached fuel net d sock ip (strtol portstr).value a s z w)
              | inl w ↦
                  let (t, q, k) =
                    cmd_connect-Holds fuel net cfg d [] ip portstr xs s h tt out
                      (omega (arith, e.1, le)) f g z w in
                  accept_cells-Goes n sock (net.ntop a) (strtol portstr).value d.fresh d.thread t q
                    k
            ]
          ]
        ]
      ]
    where
      opens :
          refusal net cfg ip portstr xs ≡ none
          → cmd_connect fuel net cfg d [] ip portstr s
            ≡ try_socket fuel net d [] ip (strtol portstr).value d.socket s
      opens =
          cmd_connect-try_socket fuel net cfg d [] ip portstr xs s h.registry
            (omega (arith, e.1, le))

  pub cmd_list-Goes :
      {n : ℕ} {xs : Cells} (p : Ptr) (s : Chat)
      → Enough b rounds fuel
      → Holds n xs s
      → length xs ≤ b
      → Goes xs p (cmd_list rounds fuel [] s)
  unfolding cmd_list
  cmd_list-Goes {n} {xs} p s e h le =
      let t : Chat = record s { log = rows xs s.log } in
      let k : Holds n xs t = record {
        registry = record { head = h.registry.head; linked = h.registry.linked };
        id = h.id;
      } in
      let g = reap_connections-Goes p t e k le in
      let w =
        ap (λ x. list_loop fuel x s) h.registry.head
        ∙ list_loop-rows fuel xs s h.registry.linked (omega (arith, e.1, le)) in
      record {
        result = tt;
        state = g.state;
        id = g.id;
        cells = g.cells;
        returns = rw w g.returns;
        holds = g.holds;
        grown = g.grown;
        known = g.known;
      }

  pub cmd_terminate-Goes :
      {n : ℕ} {xs : Cells} (p : Ptr) (id : ℕ) (s : Chat)
      → Enough b rounds fuel
      → Holds n xs s
      → length xs ≤ b
      → Goes xs p (cmd_terminate fuel [] id s)
  cmd_terminate-Goes {n} {xs} p id s e h le = elim (Option-cases (find? (has_id id) xs)) [
    | inl f ↦
        same-Goes p s (printed (not_found id) ∷ s.log) tt h
          (cmd_terminate-not_found fuel [] id xs s h.registry (omega (arith, e.1, le)) f)
    | inr ((a, c), f) ↦
        let t = cmd_terminate-Terminated fuel n id [] xs a c s h f tt (omega (arith, e.1, le)) in
        record {
          result = tt;
          state = t.state;
          id = n;
          cells = drop_cell a (update_cell a off xs);
          returns = t.returns;
          holds = t.holds;
          grown =
              omega
                (arith, length-drop_cell-le a (update_cell a off xs), length-update_cell a off xs);
          known =
              λ q ne o. has-drop_cell a q (update_cell a off xs) (has-update_cell a q off xs ∙ o);
        }
  ]

  pub cmd_exit-Goes :
      {n : ℕ} {xs : Cells} (p : Ptr) (server : Option ℕ) (listener : ℕ) (s : Chat)
      → Enough b rounds fuel
      → Holds n xs s
      → length xs ≤ b
      → Goes xs p (cmd_exit fuel server listener [] s)
  cmd_exit-Goes {n} {xs} p server listener s e h le =
      let t = cmd_exit-Exited fuel n server listener [] xs s h tt (omega (arith, e.1, le)) in
      record {
        result = false;
        state = t.state;
        id = n;
        cells = [];
        returns = t.returns;
        holds = t.empty;
        grown = omega arith;
        known = λ q ne o. refl;
      }
