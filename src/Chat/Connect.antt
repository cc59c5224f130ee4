-- ===== src/Chat/Connect.antt =====
-- `cmd_connect` on cells.
use linux_exercises.Base.{
  ℕ, suc, ◌+◌, ◌<◌, ◌≡◌, refl, Bool, true, false, not, ◌&&◌, ◌||◌, Option, none, some, List, ◌∷◌,
  arith, ◌==◌, leb, ltb, [], if◌then◌else◌, length, Bool-cases, some-eq-some, ap, ◌∙◌, Option-cases,
  inl, inr,
}
use linux_exercises.Chat.State.{
  Text, null, Conn, connected, Chat, done, Line, printed, invalid_ip, invalid_port, self_connect,
  duplicate,
}
use linux_exercises.Strings.{is_empty, same_text, strtol}
use linux_exercises.Chat.Threads.{peer, admit, Outside, others}
use linux_exercises.Chat.Command.{
  Net, is_valid_ipv4, Config, localhost, Dial, connect_socket, connect_to, bad_port, try_socket,
  cmd_connect,
}
use linux_exercises.Chat.Registry.{Cells, has, IsRegistry}
use linux_exercises.Chat.Nodes.{load-ok}
use linux_exercises.Chat.Lists.{not_null}
use linux_exercises.Chat.Arrivals.{
  Holds, AllFit, accept_id, accept_cells, others_id, others_cells, others-Holds, admit-Holds,
}
use linux_exercises.Chat.Reaping.{length-others_cells}
use linux_exercises.Chat.Send.{find?, find?-Found, find?-none, walk}

abbrev pub same_peer : Text → ℕ → Conn → Bool
same_peer ip port c = c.active && c.port == port && same_text c.ip ip

-- An IPv4 address, and a decimal number from 1 to 65535 with nothing behind it.
abbrev pub names_address : Net → Text → Bool
names_address net [] = false
names_address net (c ∷ cs) = elim (net.pton (c ∷ cs)) [ none ↦ false | some a ↦ true ]

abbrev pub names_port : Text → Bool
names_port [] = false
names_port (c ∷ cs) =
    let r = strtol (c ∷ cs) in
    is_empty r.rest && not r.negative && leb 1 r.value && leb r.value 65535

is_valid_ipv4-names_address : (net : Net) (ip : Text) → is_valid_ipv4 net ip ≡ names_address net ip
unfolding is_valid_ipv4
is_valid_ipv4-names_address net [] = refl
is_valid_ipv4-names_address net (c ∷ cs) = refl

bad_port-names_port : (portstr : Text) → bad_port portstr ≡ not (names_port portstr)
bad_port-names_port [] = refl
bad_port-names_port (c ∷ cs) =
    rule (is_empty (strtol (c ∷ cs)).rest) (strtol (c ∷ cs)).negative (strtol (c ∷ cs)).value
  where
    rule :
        (e n : Bool) (v : ℕ)
        → (not e || n || v == 0 || ltb 65535 v) ≡ not (e && not n && leb 1 v && leb v 65535)
    rule e n v = ground arith

-- Why a connection is refused before any socket is made: the first of these that applies.
abbrev pub refusal : Net → Config → (ip portstr : Text) → Cells → Option Line
refusal net cfg ip portstr xs =
    if not (names_address net ip)
    then some invalid_ip
    else if not (names_port portstr)
    then some invalid_port
    else if (same_text ip cfg.local_ip || same_text ip localhost)
        && (strtol portstr).value == cfg.listen_port
    then some self_connect
    else elim (find? (same_peer ip (strtol portstr).value) xs) [
      | none ↦ none
      | some (p, c) ↦ some (duplicate ip (strtol portstr).value c.id)
    ]

connect_socket-admit :
    (fuel : ℕ) (net : Net) (d : Dial) (os : List Outside) (sock : ℕ) (ip : Text) (port a : ℕ)
    (s t : Chat)
    → net.pton ip ≡ some a
    → d.reached ≡ true
    → others fuel os s ≡ done tt t
    → connect_socket fuel net d os sock ip port s
      ≡ admit fuel connected sock (net.ntop a) port d.fresh d.thread t
unfolding connect_socket
connect_socket-admit fuel net d os sock ip port a s t e e' o = rw (e, connect_socket) (rw (e', o))

module _ (fuel : ℕ) (net : Net) (cfg : Config) (d : Dial) (os : List Outside) (ip portstr : Text)
    (xs : Cells) (s : Chat) where
  said :
      {x line : Line}
      → some x ≡ some line
      → done tt (record s { log = printed x ∷ s.log })
        ≡ done tt (record s { log = printed line ∷ s.log })
  said {x} {line} e =
      ap (λ l. done tt (record s { log = printed l ∷ s.log })) (some-eq-some x line e)

  abbrev port : ℕ
  port = (strtol portstr).value

  abbrev itself : Bool
  itself = (same_text ip cfg.local_ip || same_text ip localhost) && port == cfg.listen_port

  -- With enough fuel, cmd_connect prints the first reason that applies and changes nothing else:
  -- the address is no IPv4 address, the port is not in 1..65535, the peer is this program, or an
  -- active connection to the same address and port exists.
  pub cmd_connect-refusal :
      {line : Line}
      → IsRegistry s xs
      → length xs < fuel
      → refusal net cfg ip portstr xs ≡ some line
      → cmd_connect fuel net cfg d os ip portstr s
        ≡ done tt (record s { log = printed line ∷ s.log })
  unfolding cmd_connect connect_to
  cmd_connect-refusal r lt e =
      rw (is_valid_ipv4-names_address net ip, bad_port-names_port portstr)
        (elim (Bool-cases (not (names_address net ip))) [
          | inl v ↦ rw v (said (rw v at e))
          | inr v ↦ rw v (elim (Bool-cases (not (names_port portstr))) [
            | inl b ↦ rw b (said (rw (v, b) at e))
            | inr b ↦ rw b (elim (Bool-cases itself) [
              | inl i ↦ rw i (said (rw (v, b, i) at e))
              | inr i ↦ rw i (elim (Option-cases (find? (same_peer ip port) xs)) [
                | inl f ↦ absurd (cc (rw (v, b, i, f) at e))
                | inr ((p, c), f) ↦
                    let z = find?-Found s.heap (same_peer ip port) null xs r.linked f in
                    rw
                      (
                        walk fuel (same_peer ip port) xs s r lt,
                        z.walked,
                        not_null z.ne_null,
                        load-ok s p z.ne_null z.holds,
                      )
                      (said (rw (v, b, i, f) at e))
              ])
            ])
          ])
        ])

  -- What `cmd_connect` does once a connection is not refused.
  pub cmd_connect-try_socket :
      IsRegistry s xs
      → length xs < fuel
      → refusal net cfg ip portstr xs ≡ none
      → cmd_connect fuel net cfg d os ip portstr s ≡ try_socket fuel net d os ip port d.socket s
  unfolding cmd_connect connect_to
  cmd_connect-try_socket r lt e =
      rw (is_valid_ipv4-names_address net ip, bad_port-names_port portstr)
        (elim (Bool-cases (not (names_address net ip))) [
          | inl v ↦ absurd (cc (rw v at e))
          | inr v ↦ elim (Bool-cases (not (names_port portstr))) [
            | inl b ↦ absurd (cc (rw (v, b) at e))
            | inr b ↦ elim (Bool-cases itself) [
              | inl i ↦ absurd (cc (rw (v, b, i) at e))
              | inr i ↦ elim (Option-cases (find? (same_peer ip port) xs)) [
                | inr (x, f) ↦ absurd (cc (rw (v, b, i, f) at e))
                | inl f ↦
                    let w = walk fuel (same_peer ip port) xs s r lt in
                    rw (v, b, i, w, find?-none (same_peer ip port) null xs f)
              ]
            ]
          ]
        ])

  -- Not refused, with a socket that reaches the peer and enough fuel, cmd_connect returns,
  -- whatever the other threads do before it adds the connection: the new connection, with the
  -- next id, stands in front of the list if malloc and pthread_create succeed, and is not in it
  -- otherwise.
  pub cmd_connect-Holds :
      {n sock a : ℕ}
      → Holds n xs s
      → AllFit n os xs
      → has d.fresh (others_cells n os xs) ≡ false
      → suc (length xs + length os) < fuel
      → refusal net cfg ip portstr xs ≡ none
      → d.socket ≡ some sock
      → net.pton ip ≡ some a
      → d.reached ≡ true
      → (t : Chat) × (cmd_connect fuel net cfg d os ip portstr s ≡ done tt t)
        × Holds
            (accept_id
              (others_id n os)
              (peer sock (net.ntop a) (strtol portstr).value d.fresh d.thread))
            (accept_cells
              (others_id n os)
              (peer sock (net.ntop a) (strtol portstr).value d.fresh d.thread)
              (others_cells n os xs))
            t
  cmd_connect-Holds {n} {sock} {a} h fit out lt e e₁ e₂ e₃ =
      let (t, o, k) = others-Holds fuel os s h fit (omega arith) in
      let (u, m, z) =
        admit-Holds fuel connected sock (net.ntop a) port d.fresh d.thread t k out
          (omega (arith, length-others_cells n os xs)) in
      (
        u,
        cmd_connect-try_socket h.registry (omega arith) e
            ∙ ap (λ k. try_socket fuel net d os ip port k s) e₁
            ∙ connect_socket-admit fuel net d os sock ip port a s t e₂ e₃ o
            ∙ m,
        z,
      )
