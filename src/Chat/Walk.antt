-- ===== src/Chat/Walk.antt =====
-- The loop of `reap_connections`: it ends, and what it leaves.
use mathlib.Core.List.{append_assoc, append-nil}
use linux_exercises.Base.{
  ℕ, zero, suc, ◌+◌, ◌*◌, ◌<◌, ◌≤◌, ◌≡◌, refl, true, false, List, [], ◌∷◌, ◌++◌, arith, ◌==◌,
  if◌then◌else◌, length, All, sym, ap, subst, ◌∙◌, Bool-cases, inl, inr,
}
use linux_exercises.Chat.State.{Ptr, null, Conn, Chat, Run, done, load, joined}
use linux_exercises.Chat.Threads.{Outside, others}
use linux_exercises.Chat.Reap.{Waits, now, after, reap_node, reap_loop, reap_connections}
use linux_exercises.Chat.Registry.{Cells, first, has, Linked, drop_cell}
use linux_exercises.Chat.Nodes.{load-ok}
use linux_exercises.Chat.Lists.{not_null}
use linux_exercises.Chat.Arrivals.{Holds, others_id, others_cells, others-Holds}
use linux_exercises.Chat.Reaping.{
  reap_node-stale_read, marked, Unmarked, first_marked, Reaped, rest, join, WaitsFit, actions,
  has-others_cells, length-others_cells, length-drop_cell, first_marked-append, has-append_self,
  Linked-append, All-snoc, WaitsFit-after, actions-after,
}

-- Where the loop has come to: `suf` is still to be walked, and no cell of `pre` is marked.
record Walk (bound fuel k n : ℕ) (ws : Waits) (xs pre suf : Cells) (s : Chat) : Type 0 where
  holds : Holds n xs s
  split : xs ≡ pre ++ suf
  clean : All Unmarked pre
  fit : WaitsFit n ws xs
  small : length xs + actions ws ≤ bound
  walks : bound < fuel
  rounds : (length xs + actions ws) * (bound + 1) + length suf < k

record Reaps (n : ℕ) (ws : Waits) (xs : Cells) (r : Run (Unit {0})) : Type 0 where
  state : Chat
  id : ℕ
  cells : Cells
  returns : r ≡ done tt state
  holds : Holds id cells state
  reaped : Reaped n ws xs id cells

-- The node that the loop stands at.
at_suffix :
    (s : Chat) (pre : Cells) (a : Ptr) (c : Conn) (suf : Cells)
    → Linked s.heap (pre ++ (a, c) ∷ suf)
    → ((a == null) ≡ false) × (load a s ≡ done (record { conn = c; next = first suf }) s)
at_suffix s pre a c suf l =
    let k = Linked-append s.heap pre ((a, c) ∷ suf) l in (not_null k.0, load-ok s a k.0 k.1)

length-drop_cell-others_cells :
    (n : ℕ) (os : List Outside) (xs : Cells) (p : Ptr)
    → has p xs ≡ true
    → suc (length (drop_cell p (others_cells n os xs))) ≤ length xs + length os
length-drop_cell-others_cells n os xs p i = omega (
  arith,
  length-drop_cell p (others_cells n os xs) (has-others_cells n os p xs i),
  length-others_cells n os xs,
)

fewer_rounds :
    (m m' b l x k : ℕ) → m' + 1 ≤ m → x ≤ b → m * (b + 1) + suc l < suc k → m' * (b + 1) + x < k
fewer_rounds m m' b l x k h h' r = grind arith

-- One join: the other threads act, and the node is taken out; the walk begins again.
record Joined (bound fuel k n : ℕ) (ws : Waits) (xs : Cells) (a : Ptr) (s : Chat) : Type 0 where
  found : first_marked xs ≡ a
  mem : has a xs ≡ true
  between : Chat
  after_ : Chat
  acts : others fuel (now ws) s ≡ done tt between
  reaps : reap_node fuel a between ≡ done tt after_
  walk :
      Walk bound fuel k
        (others_id n (now ws))
        (after ws)
        (drop_cell a (others_cells n (now ws) xs))
        []
        (drop_cell a (others_cells n (now ws) xs))
        after_

Walk-Joined :
    (bound fuel k n : ℕ) (ws : Waits) (xs pre : Cells) (a : Ptr) (c : Conn) (suf : Cells) (s : Chat)
    → Walk bound fuel (suc k) n ws xs pre ((a, c) ∷ suf) s
    → marked c ≡ true
    → Joined bound fuel k n ws xs a (record s { log = joined c.thread ∷ s.log })
Walk-Joined bound fuel k n ws xs pre a c suf s w m =
    let fm : first_marked xs ≡ a =
      ap first_marked w.split ∙ first_marked-append null pre a c suf w.clean m in
    let i : has a xs ≡ true =
      subst (λ x. has a x ≡ true) (sym w.split) (has-append_self pre a c suf) in
    let fit = WaitsFit-after n ws xs w.fit in
    let s₁ : Chat = record s { log = joined c.thread ∷ s.log } in
    let h₁ : Holds n xs s₁ = record {
      registry = record { head = w.holds.registry.head; linked = w.holds.registry.linked };
      id = w.holds.id;
    } in
    let (t₁, e₁, k₁) =
      others-Holds fuel (now ws) s₁ h₁ fit.0 (omega (arith, actions-after ws, w.small, w.walks)) in
    let xs₁ = others_cells n (now ws) xs in
    let i₁ = has-others_cells n (now ws) a xs i in
    let shorter = length-drop_cell-others_cells n (now ws) xs a i in
    let (t₂, _, e₂, _, r₂, n₂, _) =
      reap_node-stale_read fuel a xs₁ t₁ k₁.registry i₁
        (omega (arith, length-others_cells n (now ws) xs, actions-after ws, w.small, w.walks)) in
    record {
      found = fm;
      mem = i;
      between = t₁;
      after_ = t₂;
      acts = e₁;
      reaps = e₂;
      walk = record {
        holds = record { registry = r₂; id = n₂ ∙ k₁.id };
        split = refl;
        clean = tt;
        fit = subst (λ x. WaitsFit (others_id n (now ws)) (after ws) (drop_cell x xs₁)) fm fit.1;
        small = omega (arith, shorter, actions-after ws, w.small);
        walks = w.walks;
        rounds =
            fewer_rounds (length xs + actions ws) _ bound (length suf) _ k
              (omega (arith, shorter, actions-after ws))
              (omega (arith, shorter, actions-after ws, w.small)) w.rounds;
      };
    }

reap_loop-Reaps :
    (bound fuel k n : ℕ) (ws : Waits) (xs pre suf : Cells) (s : Chat)
    → Walk bound fuel k n ws xs pre suf s
    → Reaps n ws xs (reap_loop k fuel ws (first suf) s)
unfolding reap_loop
reap_loop-Reaps bound fuel zero n ws xs pre suf s w = absurd (omega (arith, w.rounds))
reap_loop-Reaps bound fuel (suc k) n ws xs pre [] s w = record {
  state = s;
  id = n;
  cells = xs;
  returns = refl;
  holds = w.holds;
  reaped = rest (subst (All Unmarked) (sym (w.split ∙ append-nil pre)) w.clean);
}
reap_loop-Reaps bound fuel (suc k) n ws xs pre ((a, c) ∷ suf) s w = elim (Bool-cases (marked c)) [
  | inl m ↦
      let l = at_suffix s pre a c suf (subst (Linked s.heap) w.split w.holds.registry.linked) in
      let j = Walk-Joined bound fuel k n ws xs pre a c suf s w m in
      let xs' = others_cells n (now ws) xs in
      let on =
        reap_loop-Reaps bound fuel k (others_id n (now ws)) (after ws) (drop_cell a xs') []
          (drop_cell a xs') j.after_ j.walk in
      rw (l.0, l.1, m, j.acts, j.reaps)
        (record {
          state = on.state;
          id = on.id;
          cells = on.cells;
          returns =
              ap (λ x. reap_loop k fuel (after ws) x j.after_) j.walk.holds.registry.head
              ∙ on.returns;
          holds = on.holds;
          reaped = join (subst (λ x. has x xs ≡ true) (sym j.found) j.mem) (
              subst (λ x. Reaped (others_id n (now ws)) (after ws) (drop_cell x xs') on.id on.cells)
                (sym j.found) on.reaped);
        })
  | inr m ↦
      let l = at_suffix s pre a c suf (subst (Linked s.heap) w.split w.holds.registry.linked) in
      rw (l.0, l.1, m)
        (reap_loop-Reaps bound fuel k n ws xs (pre ++ (a, c) ∷ []) suf s (record {
          holds = w.holds;
          split = w.split ∙ sym (append_assoc pre ((a, c) ∷ []) suf);
          clean = All-snoc pre (a, c) w.clean m;
          fit = w.fit;
          small = w.small;
          walks = w.walks;
          rounds = omega (arith, w.rounds);
        }))
]

-- With enough rounds and fuel, whatever the other threads do during the joins, reap_connections
-- returns; the list that it leaves comes from the old one by the other threads' actions and the
-- removal of the first marked cell, again and again, until no cell is marked.
pub reap_connections-Reaped :
    (rounds fuel n : ℕ) (ws : Waits) (xs : Cells) (s : Chat)
    → Holds n xs s
    → WaitsFit n ws xs
    → length xs + actions ws < fuel
    → (length xs + actions ws) * (length xs + actions ws + 1) + length xs < rounds
    → (t : Chat) × (m : ℕ) × (ys : Cells) × (reap_connections rounds fuel ws s ≡ done tt t)
      × Holds m ys t
      × Reaped n ws xs m ys
unfolding reap_connections
reap_connections-Reaped rounds fuel n ws xs s h fit f r =
    let z = reap_loop-Reaps (length xs + actions ws) fuel rounds n ws xs [] xs s (record {
      holds = h;
      split = refl;
      clean = tt;
      fit = fit;
      small = omega arith;
      walks = f;
      rounds = r;
    }) in
    (
      z.state,
      z.id,
      z.cells,
      ap (λ x. reap_loop rounds fuel ws x s) h.registry.head ∙ z.returns,
      z.holds,
      z.reaped,
    )

-- No cell is left marked.
Reaped-Unmarked : {n m : ℕ} {ws : Waits} {xs ys : Cells} → Reaped n ws xs m ys → All Unmarked ys
Reaped-Unmarked (rest u) = u
Reaped-Unmarked (join i r) = Reaped-Unmarked r

-- The cells that are not marked.
abbrev pub keep : Cells → Cells
keep [] = []
keep ((a, c) ∷ xs) = if marked c then keep xs else (a, c) ∷ keep xs
