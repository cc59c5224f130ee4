-- ===== src/Chat/Lines.antt =====
-- The parsing of the user's lines in app/main_p2pchat.c against the way they are written.
use linux_exercises.Base.{◌∙◌, ◌≡◌, ◌≢◌, refl, false, some, [], ◌∷◌, ◌++◌, arith}
use linux_exercises.Chat.State.{Text}
use linux_exercises.Strings.{is_empty, same_text, atoi}
use linux_exercises.Chat.Main.{
  skip_blanks, cut_blank, strtok, connect, end_peer, send_to, not_positive, connect_word,
  terminate_word, send_word, parse_connect, parse_terminate, parse_send, parse_word, parse_line,
}

-- A word: not empty, without a blank.
abbrev pub NoBlank : Text → Type 0
NoBlank [] = Unit
NoBlank (c ∷ cs) = (c ≢ 32) × NoBlank cs

abbrev pub IsWord : Text → Type 0
IsWord [] = ⊥
IsWord (c ∷ cs) = NoBlank (c ∷ cs)

cut_blank-word : (w r : Text) → NoBlank w → cut_blank (w ++ 32 ∷ r) ≡ (w, r)
unfolding cut_blank
cut_blank-word [] r n = refl
cut_blank-word (c ∷ w) r n = ground (arith, cut_blank-word w r n.1, n.0)

cut_blank-end : (w : Text) → NoBlank w → cut_blank w ≡ (w, [])
unfolding cut_blank
cut_blank-end [] n = refl
cut_blank-end (c ∷ w) n = ground (arith, cut_blank-end w n.1, n.0)

-- `strtok` splits a word off.
strtok-word : (w r : Text) → IsWord w → strtok (w ++ 32 ∷ r) ≡ some (w, r)
unfolding strtok skip_blanks
strtok-word [] r n = absurd n
strtok-word (c ∷ w) r n = ground (arith, cut_blank-word (c ∷ w) r n, n.0)

strtok-end : (w : Text) → IsWord w → strtok w ≡ some (w, [])
unfolding strtok skip_blanks
strtok-end [] n = absurd n
strtok-end (c ∷ w) n = ground (arith, cut_blank-end (c ∷ w) n, n.0)

connect_word-IsWord : IsWord connect_word
connect_word-IsWord = ground arith

terminate_word-IsWord : IsWord terminate_word
terminate_word-IsWord = ground arith

send_word-IsWord : IsWord send_word
send_word-IsWord = ground arith

parse_line-word :
    (line : Text) {cmd args : Text}
    → strtok line ≡ some (cmd, args)
    → parse_line line ≡ parse_word cmd args
unfolding parse_line
parse_line-word line e = ground (arith, e)

parse_connect-words :
    (args r : Text) {ip port last : Text}
    → strtok args ≡ some (ip, r)
    → strtok r ≡ some (port, last)
    → parse_connect args ≡ connect ip port
unfolding parse_connect
parse_connect-words args r e f = ground (arith, e, f)

parse_terminate-word :
    (args : Text) {idstr last : Text}
    → strtok args ≡ some (idstr, last)
    → not_positive (atoi idstr) ≡ false
    → parse_terminate args ≡ end_peer (atoi idstr)
unfolding parse_terminate
parse_terminate-word args e p = ground (arith, e, p)

parse_send-words :
    (args msg : Text) {idstr : Text}
    → strtok args ≡ some (idstr, msg)
    → is_empty msg ≡ false
    → not_positive (atoi idstr) ≡ false
    → parse_send args ≡ send_to (atoi idstr) msg
unfolding parse_send
parse_send-words args msg e n p = ground (arith, e, n, p)

-- The line `connect <ip> <port>` asks for a connection to just that address and port, where both
-- are words without a blank.
parse_line-connect :
    (ip port : Text)
    → IsWord ip
    → IsWord port
    → parse_line (connect_word ++ 32 ∷ (ip ++ 32 ∷ port)) ≡ connect ip port
unfolding parse_word same_text
parse_line-connect ip port u v =
    parse_line-word _ (strtok-word connect_word (ip ++ 32 ∷ port) connect_word-IsWord)
    ∙ parse_connect-words (ip ++ 32 ∷ port) port (strtok-word ip port u) (strtok-end port v)

-- The line `terminate <id>` asks for the end of the connection with the number that atoi reads
-- from a word without a blank, where the number is positive.
parse_line-terminate :
    (idstr : Text)
    → IsWord idstr
    → not_positive (atoi idstr) ≡ false
    → parse_line (terminate_word ++ 32 ∷ idstr) ≡ end_peer (atoi idstr)
unfolding parse_word same_text
parse_line-terminate idstr u p =
    parse_line-word _ (strtok-word terminate_word idstr terminate_word-IsWord)
    ∙ parse_terminate-word idstr (strtok-end idstr u) p

-- The line `send <id> <message>` asks for the whole message to be sent, blanks in it and at its
-- ends included, to the connection with the number that atoi reads from a word without a blank,
-- where the number is positive and the message not empty.
parse_line-send :
    (idstr msg : Text)
    → IsWord idstr
    → is_empty msg ≡ false
    → not_positive (atoi idstr) ≡ false
    → parse_line (send_word ++ 32 ∷ (idstr ++ 32 ∷ msg)) ≡ send_to (atoi idstr) msg
unfolding parse_word same_text
parse_line-send idstr msg u n p =
    parse_line-word _ (strtok-word send_word (idstr ++ 32 ∷ msg) send_word-IsWord)
    ∙ parse_send-words (idstr ++ 32 ∷ msg) msg (strtok-word idstr msg u) n p

-- The line `connect <ip> <port>`, for words without a blank, asks for a connection to just that
-- address and port; `terminate <id>` and `send <id> <message>`, for an id that is a word without
-- a blank from which atoi reads a positive number, ask for the end of that connection, and for
-- the whole message, blanks in it and at its ends included, to be sent to it, where it is not
-- empty.
pub parse_line-commands :
    (ip port idstr msg : Text)
    → IsWord ip
    → IsWord port
    → IsWord idstr
    → is_empty msg ≡ false
    → not_positive (atoi idstr) ≡ false
    → (parse_line (connect_word ++ 32 ∷ (ip ++ 32 ∷ port)) ≡ connect ip port)
      × (parse_line (terminate_word ++ 32 ∷ idstr) ≡ end_peer (atoi idstr))
      × (parse_line (send_word ++ 32 ∷ (idstr ++ 32 ∷ msg)) ≡ send_to (atoi idstr) msg)
parse_line-commands ip port idstr msg u v w n p = (
  parse_line-connect ip port u v,
  parse_line-terminate idstr w p,
  parse_line-send idstr msg w n p,
)
