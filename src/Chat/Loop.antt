-- ===== src/Chat/Loop.antt =====
-- -- A round of the command loop of app/main_p2pchat.c, on cells, where no other thread acts.
use linux_exercises.Base.{
  ℕ, ◌≤◌, ◌≡◌, refl, Bool, true, false, Option, none, some, [], ◌∷◌, ◌++◌, arith, length,
}
use linux_exercises.Chat.State.{
  Text, Ptr, Chat, Line, Cmd, pure, tell, ◌>>◌, shown_ip, shown_port, good_bye, printed,
}
use linux_exercises.Chat.Command.{Net, Config, Dial, cmd_connect, cmd_list, cmd_terminate, cmd_send}
use linux_exercises.Chat.Main.{
  nothing, say, show_ip, show_port, connect, show_list, end_peer, send_to, leave, parse_line, Round,
  Action, act, round_of, main_round,
}
use linux_exercises.Chat.Registry.{Cells, has}
use linux_exercises.Chat.Arrivals.{Holds}
use linux_exercises.Strings.{c_string, cut_newline}
use linux_exercises.Chat.Send.{cmd_send-send_events, send_events}
use linux_exercises.Chat.Quiet.{reap_connections-keep}
use linux_exercises.Chat.Goes.{Goes, has-keep, length-keep-le, same-Goes, Enough, enough}
use linux_exercises.Chat.Rounds.{cmd_connect-Goes, cmd_list-Goes, cmd_terminate-Goes, cmd_exit-Goes}

-- What the surroundings give to a round in which no other thread acts.
abbrev pub quiet : (input : Option Text) → Dial → (ok : Bool) → Round
quiet input d ok = record {
  input = input;
  reap_waits = [];
  list_waits = [];
  os = [];
  dial = d;
  ok = ok;
}

go_on :
    {xs : Cells} {p : Ptr} (m : Cmd (Unit {0})) (s : Chat)
    → Goes xs p (m s)
    → Goes xs p ((m >> pure true) s)
go_on m s g = record {
  result = true;
  state = g.state;
  id = g.id;
  cells = g.cells;
  returns = rw g.returns;
  holds = g.holds;
  grown = g.grown;
  known = g.known;
}

say_Goes :
    {n : ℕ} {xs : Cells} (p : Ptr) (l : Line) (s : Chat)
    → Holds n xs s
    → Goes xs p ((tell (printed l) >> pure true) s)
say_Goes p l s h = same-Goes p s (printed l ∷ s.log) true h refl

module _ (b rounds fuel : ℕ) (net : Net) (cfg : Config) (server : Option ℕ) (listener : ℕ)
    (input : Option Text) (d : Dial) (ok : Bool) where
  act-Goes :
      {n : ℕ} {xs : Cells} (a : Action) (s : Chat)
      → Enough b rounds fuel
      → Holds n xs s
      → length xs ≤ b
      → has d.fresh xs ≡ false
      → Goes xs d.fresh (act rounds fuel net cfg server listener (quiet input d ok) a s)
  unfolding act
  act-Goes nothing s e h le out = same-Goes d.fresh s s.log true h refl
  act-Goes (say l) s e h le out = say_Goes d.fresh l s h
  act-Goes show_ip s e h le out = say_Goes d.fresh (shown_ip cfg.local_ip) s h
  act-Goes show_port s e h le out = say_Goes d.fresh (shown_port cfg.listen_port) s h
  act-Goes (connect ip port) s e h le out =
      go_on (cmd_connect fuel net cfg d [] ip port) s
        (cmd_connect-Goes b rounds fuel net cfg d ip port s e h le out)
  act-Goes show_list s e h le out =
      go_on (cmd_list rounds fuel []) s (cmd_list-Goes b rounds fuel net cfg d.fresh s e h le)
  act-Goes (end_peer id) s e h le out =
      go_on (cmd_terminate fuel [] id) s
        (cmd_terminate-Goes b rounds fuel net cfg d.fresh id s e h le)
  act-Goes {n} {xs} (send_to id msg) s e h le out = go_on (cmd_send fuel ok id msg) s (
      same-Goes d.fresh s (send_events ok id msg xs ++ s.log) tt h
        (cmd_send-send_events fuel ok id msg xs s h.registry (omega (arith, e.1, le))))
  act-Goes leave s e h le out =
      let g = cmd_exit-Goes b rounds fuel net cfg d.fresh server listener s e h le in
      record {
        result = false;
        state = record g.state { log = printed good_bye ∷ g.state.log };
        id = g.id;
        cells = g.cells;
        returns = rw g.returns;
        holds = record {
          registry = record { head = g.holds.registry.head; linked = g.holds.registry.linked };
          id = g.holds.id;
        };
        grown = g.grown;
        known = g.known;
      }

  round_of-Goes :
      {n : ℕ} {xs : Cells} (line : Text) (s : Chat)
      → Enough b rounds fuel
      → Holds n xs s
      → length xs ≤ b
      → has d.fresh xs ≡ false
      → Goes xs d.fresh (round_of rounds fuel net cfg server listener (quiet input d ok) line s)
  unfolding round_of
  round_of-Goes {n} {xs} [] s e h le out = same-Goes d.fresh s s.log true h refl
  round_of-Goes {n} {xs} (c ∷ line) s e h le out =
      let (t, z, k) =
        reap_connections-keep rounds fuel n xs s h (omega (arith, e.1))
          (enough (length xs) b rounds fuel le e) in
      let g =
        act-Goes (parse_line (c ∷ line)) t e k (omega (arith, length-keep-le xs))
          (has-keep d.fresh xs out) in
      record {
        result = g.result;
        state = g.state;
        id = g.id;
        cells = g.cells;
        returns = rw z g.returns;
        holds = g.holds;
        grown = omega (arith, g.grown, length-keep-le xs);
        known = λ q ne o. g.known q ne (has-keep q xs o);
      }

module _ (b rounds fuel : ℕ) (net : Net) (cfg : Config) (server : Option ℕ) (listener : ℕ)
    (d : Dial) (ok : Bool) where
  -- With enough fuel and rounds, where no other thread acts and malloc gives an address that is
  -- not in the list, a round of the command loop, whatever the line and the results of the calls,
  -- returns and leaves a well-formed list, with at most one connection more than before, at that
  -- address.
  pub main_round-Goes :
      {n : ℕ} {xs : Cells} (input : Option Text) (s : Chat)
      → Enough b rounds fuel
      → Holds n xs s
      → length xs ≤ b
      → has d.fresh xs ≡ false
      → Goes xs d.fresh (main_round rounds fuel net cfg server listener (quiet input d ok) s)
  unfolding main_round
  main_round-Goes none s e h le out = same-Goes d.fresh s s.log false h refl
  main_round-Goes (some line) s e h le out =
      round_of-Goes b rounds fuel net cfg server listener (some line) d ok
        (cut_newline (c_string line)) s e h le out
