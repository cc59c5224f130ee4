-- ===== src/Chat/ProgramTests.antt =====
-- The theorems on the whole program at concrete runs.
use linux_exercises.Base.{
  ◌↔◌, ◌≤◌, ◌<◌, ◌⊎◌, ◌≡◌, refl, true, false, none, some, List, [], ◌∷◌, ◌++◌, arith,
}
use linux_exercises.Chat.State.{Text, Chat, done}
use linux_exercises.Chat.Threads.{peer, recv_ends}
use linux_exercises.Chat.Arrivals.{Holds}
use linux_exercises.Chat.Acts.{acts_cells, acts_id}
use linux_exercises.Io as Io
use linux_exercises.Chat.Threads.{Turn, failed, listener_thread, other, dials, marks, removes}
use linux_exercises.Chat.Listener.{handled, has_ended, listener_thread-Holds}
use linux_exercises.Chat.Main.{list_word}
use linux_exercises.Chat.Startup.{Probe, startup}
use linux_exercises.Chat.Program.{Step, server_calls, listener_of, startup_log, startup-listens}
use linux_exercises.Chat.Joins as Joins
use linux_exercises.Chat.Joins.{Who, at_lock, join_run, all_ended, joins_all_iff_ended}
use linux_exercises.Strings.{atoi}
use linux_exercises.Chat.Main.{connect_word}
use linux_exercises.Chat.Tests.{two_cells, two, two-Holds, one_net, dial, new_peer, port_text}

-- The line `connect 5 4000`.
abbrev connect_line : Text
connect_line = connect_word ++ 32 ∷ (new_peer ++ 32 ∷ (port_text ++ 10 ∷ []))

-- Two peers arrive, and then main closes the server's socket.
abbrev turns : List Turn
turns =
    record {
      running = true;
      meanwhile =
          other (recv_ends 20) ∷ marks 20 ∷ removes 20 ∷ dials 8 (b'8' ∷ []) 8000 40 (some 10) ∷ [];
      accepted_ = peer 6 (b'7' ∷ []) 7000 30 (some 9);
      still_running = true;
    }
    ∷ record {
      running = true;
      meanwhile = [];
      accepted_ = peer 7 (b'7' ∷ []) 7001 31 none;
      still_running = true;
    }
    ∷ record { running = true; meanwhile = []; accepted_ = failed; still_running = false }
    ∷ []

listener_thread-Holds_example :
    (t : Chat) × (listener_thread 20 turns two ≡ done (has_ended turns) t)
    × Holds (acts_id 2 (handled turns)) (acts_cells 2 (handled turns) two_cells) t
listener_thread-Holds_example =
    listener_thread-Holds 20 turns two two-Holds (refl, (refl, (refl, (refl, (refl, (refl, tt))))))
      (omega arith)

abbrev probe : Probe
probe = record { socket = some 3; reached = true; name = some (b'6') }

abbrev steps : List Step
steps =
    (some connect_line, dial, true)
    ∷ (some (list_word ++ 10 ∷ []), record dial { fresh = 50 }, true)
    ∷ []

startup-listens_example :
    ((1 ≤ atoi port_text)
      × (atoi port_text ≤ 65535)
      × (startup one_net (server_calls probe 3 6) (port_text ∷ []) []
          ≡ Io.done
              (listener_of one_net probe 3 6 (atoi port_text))
              (startup_log one_net probe 3 (atoi port_text))))
    ⊎ (((atoi port_text ≡ 0) ⊎ (65535 < atoi port_text))
        × (startup one_net (server_calls probe 3 6) (port_text ∷ []) []
            ≡ Io.failure (Io.shown Io.bad_port ∷ [])))
startup-listens_example = startup-listens one_net probe 3 6 port_text

-- One thread has ended, and the other waits for the lock that main holds.
joins_all_iff_ended_example :
    ((ws : List Who) × (join_run ws (Joins.ended ∷ at_lock ∷ []) ≡ []))
    ↔ (all_ended (Joins.ended ∷ at_lock ∷ []) ≡ true)
joins_all_iff_ended_example = joins_all_iff_ended (Joins.ended ∷ at_lock ∷ [])
