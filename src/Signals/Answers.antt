-- ===== src/Signals/Answers.antt =====
-- What ex4_select.c answers.
use linux_exercises.Base.{Bool, ◌||◌, Option, none, some, List, [], ◌∷◌, ◌++◌, map, if◌then◌else◌}
use linux_exercises.Strings.{Text, NoNewline}
use linux_exercises.Signals.Select.{Event, sigint_received, you_inputed, Flags, ready, Round, round}

-- Input, without its newline, with the signals that are handled while `select` waits for it or before;
-- no text where `fgets` stores nothing.
abbrev pub Input : Type 0
Input = Flags × Option Text

abbrev pub with_newline : Option Text → Option Text
with_newline none = none
with_newline (some t) = some (t ++ 10 ∷ [])

abbrev pub input_rounds : List Input → List Round
input_rounds is = map (λ (i : Input). round i.0 (ready (with_newline i.1))) is

abbrev pub IsLine : Input → Type 0
IsLine (came, none) = Unit
IsLine (came, some t) = NoNewline t

-- Whether a SIGINT, and whether a SIGTERM, has come before or with the input.
abbrev pub any_sigint : Bool → List Input → Bool
any_sigint b [] = b
any_sigint b (i ∷ is) = any_sigint (b || i.0.sigint) is

abbrev pub any_sigterm : Bool → List Input → Bool
any_sigterm b [] = b
any_sigterm b (i ∷ is) = any_sigterm (b || i.0.sigterm) is

-- The lines that are printed, the latest first.
abbrev pub echoes : List Input → List Event → List Event
echoes [] log = log
echoes ((came, none) ∷ is) log = echoes is log
echoes ((came, some t) ∷ is) log = echoes is (you_inputed t ∷ log)

-- What is said as `select` is interrupted: of a SIGINT, once, where one has come.
abbrev pub reported : Bool → List Event → List Event
reported int log = if int then sigint_received ∷ log else log
