-- ===== src/Chat/Terminate.antt =====
-- `cmd_terminate` on cells.
use linux_exercises.Base.{
  ℕ, ◌+◌, ◌<◌, ◌≡◌, ◌≢◌, refl, Bool, true, false, none, some, List, ◌∷◌, arith, ◌==◌, length, ap,
  ◌∙◌, ==_iff,
}
use linux_exercises.Chat.State.{
  Ptr, null, Conn, Chat, Run, done, Event, printed, send_disconnect, shut, closed, joined,
  not_found, terminated,
}
use linux_exercises.Chat.Connection.{scan_loop}
use linux_exercises.Chat.Threads.{Outside, others}
use linux_exercises.Chat.Command.{terminate_node, cmd_terminate}
use linux_exercises.Chat.Registry.{
  Cells, has, node, IsRegistry, drop_cell, update_cell, has-update_cell,
}
use linux_exercises.Chat.Nodes.{load-ok, update-IsRegistry, scan_cells, scan_loop-scan_cells}
use linux_exercises.Chat.Removal.{remove-Unlinked}
use linux_exercises.Chat.Lists.{not_null, scan_cells-has}
use linux_exercises.Chat.Arrivals.{
  Holds, AllFit, others_id, others_cells, others-Holds, length-update_cell,
}
use linux_exercises.Chat.Reaping.{has-others_cells, length-others_cells}
use linux_exercises.Chat.Send.{find?, find?-Found, find?-none, walk}

abbrev pub has_id : ℕ → Conn → Bool
has_id id c = c.id == id

abbrev pub off : Conn → Conn
off c = record c { active = false }

-- With enough fuel, cmd_terminate for an id that no connection in the list has only reports that.
pub cmd_terminate-not_found :
    (fuel : ℕ) (os : List Outside) (id : ℕ) (xs : Cells) (s : Chat)
    → IsRegistry s xs
    → length xs < fuel
    → find? (has_id id) xs ≡ none
    → cmd_terminate fuel os id s ≡ done tt (record s { log = printed (not_found id) ∷ s.log })
unfolding cmd_terminate
cmd_terminate-not_found fuel os id xs s r lt e =
    rw (walk fuel (has_id id) xs s r lt, find?-none (has_id id) null xs e)

-- What is visible before the wait for the receiving thread.
abbrev pub goodbye : Conn → List Event → List Event
goodbye c log = joined c.thread ∷ closed c.sockfd ∷ shut c.sockfd ∷ send_disconnect c.sockfd ∷ log

-- A run of `terminate_node`: the states about the wait, and the end.
pub record Terminated (fuel n id : ℕ) (os : List Outside) (xs : Cells) (p : Ptr) (c : Conn)
    (s : Chat) (r : Run (Unit {0})) : Type 0 where
  pub waiting : Chat
  pub joined_ : Chat
  pub state : Chat
  pub returns : r ≡ done tt state
  pub acts : others fuel os waiting ≡ done tt joined_
  pub said : waiting.log ≡ goodbye c s.log
  pub reported : state.log ≡ printed (terminated id) ∷ joined_.log
  pub holds : Holds (others_id n os) (drop_cell p (others_cells n os (update_cell p off xs))) state

terminate_node-Terminated :
    (fuel n id : ℕ) (os : List Outside) (xs : Cells) (p : Ptr) (c : Conn) (q : Ptr) (s : Chat)
    → Holds n xs s
    → has p xs ≡ true
    → p ≢ null
    → s.heap p ≡ node c q
    → AllFit n os (update_cell p off xs)
    → length xs + length os < fuel
    → Terminated fuel n id os xs p c s (terminate_node fuel os id p s)
unfolding terminate_node
terminate_node-Terminated fuel n id os xs p c q s h i ne e fit lt =
    let s₁ : Chat = record s {
      log = closed c.sockfd ∷ shut c.sockfd ∷ send_disconnect c.sockfd ∷ s.log;
    } in
    let (g, e₁, r₁, _, _) =
      update-IsRegistry s₁ {p = p} off {xs = xs}
        (record { head = h.registry.head; linked = h.registry.linked }) i in
    let s₂ : Chat = record s₁ { heap = g; log = goodbye c s.log } in
    let ys = update_cell p off xs in
    let l₂ = length-update_cell p off xs in
    let (s₃, e₃, h₃) =
      others-Holds fuel os s₂
        (record { registry = record { head = r₁.head; linked = r₁.linked }; id = h.id }) fit
        (omega (arith, l₂)) in
    let zs = others_cells n os ys in
    let j = has-others_cells n os p ys (has-update_cell p p off xs ∙ i) in
    let w : scan_loop fuel p null s₃.conn_head s₃ ≡ done (scan_cells p null zs) s₃ =
      ap (λ x. scan_loop fuel p null x s₃) h₃.registry.head
      ∙ scan_loop-scan_cells fuel p null zs s₃ h₃.registry.linked
          (omega (arith, l₂, length-others_cells n os ys)) in
    let hit : ((scan_cells p null zs).1 == p) ≡ true =
      (==_iff _ _).1 (scan_cells-has p null zs j) in
    let (u, e₄, un) = remove-Unlinked p zs s₃ h₃.registry j in
    record {
      waiting = s₂;
      joined_ = s₃;
      state = record u { log = printed (terminated id) ∷ u.log };
      returns = rw (load-ok s p ne e, e₁, e₃, w, hit, e₄);
      acts = e₃;
      said = refl;
      reported = ap (λ l. printed (terminated id) ∷ l) un.log;
      holds = record {
        registry = record { head = un.registry.head; linked = un.registry.linked };
        id = un.next_conn_id ∙ h₃.id;
      };
    }

-- With enough fuel, whatever the other threads do during the join, cmd_terminate for an id in the
-- list returns: the first connection with the id is told to disconnect, its socket shut and
-- closed, and its thread joined, in this order and before the wait; in the end that node is out
-- of the list, and all else is what the other threads made of it.
pub cmd_terminate-Terminated :
    (fuel n id : ℕ) (os : List Outside) (xs : Cells) (p : Ptr) (c : Conn) (s : Chat)
    → Holds n xs s
    → find? (has_id id) xs ≡ some (p, c)
    → AllFit n os (update_cell p off xs)
    → length xs + length os < fuel
    → Terminated fuel n id os xs p c s (cmd_terminate fuel os id s)
unfolding cmd_terminate
cmd_terminate-Terminated fuel n id os xs p c s h e fit lt =
    let f = find?-Found s.heap (has_id id) null xs h.registry.linked e in
    rw (walk fuel (has_id id) xs s h.registry (omega arith), f.walked, not_null f.ne_null)
      (terminate_node-Terminated fuel n id os xs p c f.next s h f.mem f.ne_null f.holds fit lt)
