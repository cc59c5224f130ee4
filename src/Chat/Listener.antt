-- ===== src/Chat/Listener.antt =====
-- `listener_thread` on cells, with what the other threads do while it waits in `accept`.
use linux_exercises.Base.{
  ℕ, ◌+◌, ◌<◌, ◌≡◌, refl, Bool, true, false, not, ◌&&◌, ◌||◌, List, [], ◌∷◌, ◌++◌, if◌then◌else◌,
  length, ◌∙◌, Bool-cases, inl, inr,
}
use linux_exercises.Chat.State.{Chat, Run, Cmd, done, fault, out_of_fuel, and_then}
use linux_exercises.Chat.Threads.{
  Turn, has_failed, accept_one, listener_thread, arrives, outside, Act, other, one_act, acts,
}
use linux_exercises.Chat.Registry.{Cells}
use linux_exercises.Chat.Arrivals.{Holds}
use linux_exercises.Chat.Acts.{AllActsFit, acts_id, acts_cells, acts-Holds}

abbrev pub shut_out : Turn → Bool
shut_out t = has_failed t.accepted_ && not t.still_running

-- What is done to the list up to the end of the thread.
abbrev pub handled : List Turn → List Act
handled [] = []
handled (t ∷ ts) =
    let rest = handled ts in
    if not t.running
    then []
    else t.meanwhile ++ (if shut_out t then [] else other (arrives t.accepted_) ∷ rest)

abbrev pub has_ended : List Turn → Bool
has_ended [] = false
has_ended (t ∷ ts) = not t.running || shut_out t || has_ended ts

and_then-cong :
    {A B C : Type 0} (r : Run A) (k : A → Cmd C) (m : A → Cmd B) (g : B → Cmd C)
    → ((a : A) (s : Chat) → k a s ≡ and_then (m a s) g)
    → and_then r k ≡ and_then (and_then r m) g
and_then-cong (done a s) k m g e = e a s
and_then-cong fault k m g e = refl
and_then-cong out_of_fuel k m g e = refl

acts-append :
    (fuel : ℕ) (os ps : List Act) (s : Chat)
    → acts fuel (os ++ ps) s ≡ and_then (acts fuel os s) (λ _. acts fuel ps)
unfolding acts
acts-append fuel [] ps s = refl
acts-append fuel (o ∷ os) ps s =
    and_then-cong (one_act fuel o s) (λ _. acts fuel (os ++ ps)) (λ _. acts fuel os)
      (λ _. acts fuel ps) (λ _ u. acts-append fuel os ps u)

listener_thread-acts :
    (fuel : ℕ) (ts : List Turn) (s : Chat)
    → listener_thread fuel ts s ≡ and_then (acts fuel (handled ts) s) (λ _. done (has_ended ts))
unfolding listener_thread acts one_act outside
listener_thread-acts fuel [] s = refl
listener_thread-acts fuel (t ∷ ts) s = elim (Bool-cases t.running) [
  | inr e ↦ rw e
  | inl e ↦ elim (Bool-cases (shut_out t)) [
    | inl f ↦
        rw (e, f, acts-append fuel t.meanwhile [] s)
          (and_then-cong (acts fuel t.meanwhile s) (λ _. done true) (λ _. acts fuel [])
            (λ _. done true) (λ _ u. refl))
    | inr f ↦
        rw (e, f, acts-append fuel t.meanwhile (other (arrives t.accepted_) ∷ handled ts) s)
          (and_then-cong (acts fuel t.meanwhile s)
            (λ _ u. and_then (accept_one fuel t.accepted_ u) (λ _. listener_thread fuel ts))
            (λ _. acts fuel (other (arrives t.accepted_) ∷ handled ts)) (λ _. done (has_ended ts))
            (λ _ u.
              and_then-cong (accept_one fuel t.accepted_ u) (λ _. listener_thread fuel ts)
                (λ _. acts fuel (handled ts)) (λ _. done (has_ended ts))
                (λ _ v. listener_thread-acts fuel ts v)))
  ]
]

-- With enough fuel, listener_thread returns or waits in accept as `running` says, and takes a
-- state that stands for a list of connections to one that stands for the list that, up to its
-- end, these make in their order: what the other threads do to the list while it waits, that is,
-- connections that end, and those that the commands of the main thread add, mark or remove; and
-- the results of accept: failed ones, new connections and rolled back ones.
pub listener_thread-Holds :
    (fuel : ℕ) (ts : List Turn) {n : ℕ} {xs : Cells} (s : Chat)
    → Holds n xs s
    → AllActsFit n (handled ts) xs
    → length xs + length (handled ts) < fuel
    → (t : Chat) × (listener_thread fuel ts s ≡ done (has_ended ts) t)
      × Holds (acts_id n (handled ts)) (acts_cells n (handled ts) xs) t
listener_thread-Holds fuel ts s h fit lt =
    let (t, e, k) = acts-Holds fuel (handled ts) s h fit lt in
    (t, listener_thread-acts fuel ts s ∙ rw e, k)
