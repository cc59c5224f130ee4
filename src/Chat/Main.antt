-- ===== src/Chat/Main.antt =====
-- app/main_p2pchat.c: the loop that reads the user's commands.
use linux_exercises.Base.{
  ℕ, ◌^◌, Bool, true, false, ◌||◌, Option, none, some, List, [], ◌∷◌, ◌==◌, leb, if◌then◌else◌,
}
use linux_exercises.Chat.State.{
  Text, Line, printed, help_text, shown_ip, shown_port, connect_usage, terminate_usage, send_usage,
  invalid_id, good_bye, unknown_command, Cmd, pure, ◌>>=◌, ◌>>◌, tell,
}
use linux_exercises.Strings.{c_string, cut_newline, is_empty, same_text, atoi}
use linux_exercises.Chat.Threads.{Outside}
use linux_exercises.Chat.Reap.{Waits, reap_connections}
use linux_exercises.Chat.Command.{
  Net, Config, Dial, cmd_connect, cmd_list, cmd_terminate, cmd_send, cmd_exit,
}

-- `strtok` with the delimiter " ": the delimiters in front are passed over, the one behind the token
-- is dropped.
unfoldable pub skip_blanks : Text → Text
skip_blanks [] = []
skip_blanks (c ∷ cs) = let rest = skip_blanks cs in if c == 32 then rest else c ∷ cs

unfoldable pub cut_blank : Text → Text × Text
cut_blank [] = ([], [])
cut_blank (c ∷ cs) = let (w, r) = cut_blank cs in if c == 32 then ([], cs) else (c ∷ w, r)

unfoldable pub strtok : Text → Option (Text × Text)
strtok cs = let t = skip_blanks cs in if is_empty t then none else some (cut_blank t)

-- `strtok(NULL, "")`
abbrev pub strtok_rest : Text → Option Text
strtok_rest cs = if is_empty cs then none else some cs

-- What a line asks for.
pub data Action : Type 0 where
  nothing : Action
  say : Line → Action
  show_ip show_port : Action
  connect : (ip port : Text) → Action
  show_list : Action
  end_peer : (id : ℕ) → Action
  send_to : (id : ℕ) → Text → Action
  leave : Action

-- `id <= 0` on the bit pattern of an `int`.
abbrev pub not_positive : ℕ → Bool
not_positive id = id == 0 || leb (2 ^ 31) id

abbrev pub help_word : Text
help_word = b'h' ∷ b'e' ∷ b'l' ∷ b'p' ∷ []

abbrev pub connect_word : Text
connect_word = b'c' ∷ b'o' ∷ b'n' ∷ b'n' ∷ b'e' ∷ b'c' ∷ b't' ∷ []

abbrev pub terminate_word : Text
terminate_word = b't' ∷ b'e' ∷ b'r' ∷ b'm' ∷ b'i' ∷ b'n' ∷ b'a' ∷ b't' ∷ b'e' ∷ []

abbrev pub list_word : Text
list_word = b'l' ∷ b'i' ∷ b's' ∷ b't' ∷ []

abbrev pub send_word : Text
send_word = b's' ∷ b'e' ∷ b'n' ∷ b'd' ∷ []

abbrev pub exit_word : Text
exit_word = b'e' ∷ b'x' ∷ b'i' ∷ b't' ∷ []

abbrev pub myip_word : Text
myip_word = b'm' ∷ b'y' ∷ b'i' ∷ b'p' ∷ []

abbrev pub myport_word : Text
myport_word = b'm' ∷ b'y' ∷ b'p' ∷ b'o' ∷ b'r' ∷ b't' ∷ []

unfoldable pub parse_connect : Text → Action
parse_connect args = elim (strtok args) [
  | none ↦ say connect_usage
  | some (ip, r) ↦ elim (strtok r) [ none ↦ say connect_usage | some (port, _) ↦ connect ip port ]
]

abbrev pub with_id : Text → (ℕ → Action) → Action
with_id idstr k = if not_positive (atoi idstr) then say invalid_id else k (atoi idstr)

unfoldable pub parse_terminate : Text → Action
parse_terminate args = elim (strtok args) [
  | none ↦ say terminate_usage
  | some (idstr, _) ↦ with_id idstr end_peer
]

unfoldable pub parse_send : Text → Action
parse_send args = elim (strtok args) [
  | none ↦ say send_usage
  | some (idstr, r) ↦ elim (strtok_rest r) [
    | none ↦ say send_usage
    | some msg ↦ with_id idstr (λ id. send_to id msg)
  ]
]

unfoldable pub parse_word : Text → Text → Action
parse_word cmd args =
    if same_text cmd help_word
    then say help_text
    else if same_text cmd myip_word
    then show_ip
    else if same_text cmd myport_word
    then show_port
    else if same_text cmd connect_word
    then parse_connect args
    else if same_text cmd list_word
    then show_list
    else if same_text cmd terminate_word
    then parse_terminate args
    else if same_text cmd send_word
    then parse_send args
    else if same_text cmd exit_word
    then leave
    else say unknown_command

unfoldable pub parse_line : Text → Action
parse_line line = elim (strtok line) [ none ↦ nothing | some (cmd, args) ↦ parse_word cmd args ]

-- What the program's surroundings give to one round: the line that `fgets` stored, if it stored
-- any, what the other threads do while `conn_mutex` is free, and what the calls return.
pub record Round : Type 0 where
  pub input : Option Text
  pub reap_waits : Waits
  pub list_waits : Waits
  pub os : List Outside
  pub dial : Dial
  pub ok : Bool

-- `fuel` and `rounds` bound the loops of the commands.
module _ (rounds fuel : ℕ) (net : Net) (cfg : Config) (server : Option ℕ) (listener : ℕ) where
  -- The result says whether the loop goes on.
  unfoldable pub act : Round → Action → Cmd Bool
  act r nothing = pure true
  act r (say l) = do tell (printed l); pure true
  act r show_ip = do tell (printed (shown_ip cfg.local_ip)); pure true
  act r show_port = do tell (printed (shown_port cfg.listen_port)); pure true
  act r (connect ip port) = do cmd_connect fuel net cfg r.dial r.os ip port; pure true
  act r show_list = do cmd_list rounds fuel r.list_waits; pure true
  act r (end_peer id) = do cmd_terminate fuel r.os id; pure true
  act r (send_to id msg) = do cmd_send fuel r.ok id msg; pure true
  act r leave = do running ← cmd_exit fuel server listener r.os; tell (printed good_bye); pure false

  unfoldable pub round_of : Round → Text → Cmd Bool
  round_of r line =
      if is_empty line
      then pure true
      else (do reap_connections rounds fuel r.reap_waits; act r (parse_line line))

  unfoldable pub main_round : Round → Cmd Bool
  main_round r = elim r.input [
    | none ↦ pure false
    | some line ↦ round_of r (cut_newline (c_string line))
  ]

  -- The loop over the rounds at hand.
  unfoldable pub main_loop : List Round → Cmd (Unit {0})
  main_loop [] = pure tt
  main_loop (r ∷ rs) = do b ← main_round r; if b then main_loop rs else pure tt
