-- ===== src/Framing/Echo.antt =====
-- systems/tcp/TcpServer.cpp: what the server sends to one client.
use Prim.Native.Char.{code}
use academia_cr.Prelude.{
  ℕ, zero, suc, ◌-◌, ◌^◌, ◌<◌, ◌≡◌, refl, ap, ◌⊎◌, inl, inr, Bool-cases, map, ltb, String, Bool,
  true, false, ◌&&◌, some, Option, ◌∙◌, List, [], ◌∷◌, ◌++◌, ◌==◌, length, if◌then◌else◌, arith,
  drop,
}
use academia_cr.Text.{to_string}
use academia_cr.Framing.{
  network_bytes, network_value, send_message, Socket, recv, receive_rest, receive_body,
  receive_message,
}
use academia_cr.Framing.Roundtrip.{receive-send, small_wire}

-- the bytes of a text of characters below 128
unfoldable pub text_bytes : String → List ℕ
text_bytes String.[] = []
text_bytes (String.◌∷◌ c s) = code c ∷ text_bytes s

unfoldable pub same_bytes : List ℕ → List ℕ → Bool
same_bytes [] [] = true
same_bytes (x ∷ xs) (y ∷ ys) = x == y && same_bytes xs ys
same_bytes _ _ = false

-- msg.empty() || msg == "quit"
unfoldable pub ends_session : List ℕ → Bool
unfolding text_bytes same_bytes
ends_session [] = true
ends_session (x ∷ xs) = same_bytes (x ∷ xs) (text_bytes "quit")

-- the response to a message
unfoldable pub echo : List ℕ → List ℕ
unfolding text_bytes
echo msg =
    text_bytes "Echo: "
    ++ msg
    ++ text_bytes " (length="
    ++ text_bytes (to_string (length msg))
    ++ text_bytes ")"

-- the loop of handle_client: for each turn that it may take, what g_running is and what len_net holds
-- before it is read; what each send_message puts on the wire
unfoldable pub responses : List (Bool × List ℕ) → Socket → List (Option (List ℕ))
unfolding ends_session echo
responses [] s = []
responses ((running, junk) ∷ turns) s =
    let rest = responses turns (receive_message junk s).1 in
    if running
    then (if ends_session (receive_message junk s).0
        then []
        else send_message (echo (receive_message junk s).0) ∷ rest)
    else []

abbrev pub welcome : String
welcome = "Welcome to the TCP Demo Server! Send messages, or 'quit' to exit."

-- handle_client
unfoldable pub handle_client : List (Bool × List ℕ) → Socket → List (Option (List ℕ))
unfolding responses text_bytes
handle_client turns s = send_message (text_bytes welcome) ∷ responses turns s

list_cases : (xs : List ℕ) → (xs ≡ []) ⊎ ((x : ℕ) × (ys : List ℕ) × (xs ≡ x ∷ ys))
list_cases [] = inl refl
list_cases (x ∷ xs) = inr (x, xs, refl)

recv-cuts : (asked : ℕ) (s : Socket) → s.cuts ≡ [] → (recv asked s).1.cuts ≡ []
unfolding recv
recv-cuts asked s h = ap (λ (c : List ℕ). drop 1 c) h

-- A network that cuts nothing goes on to cut nothing.
rest-cuts :
    (fuel remaining : ℕ) (buffer : List ℕ) (s : Socket)
    → s.cuts ≡ []
    → (receive_rest fuel remaining buffer s).1.cuts ≡ []
unfolding receive_rest
rest-cuts zero remaining buffer s h = h
rest-cuts (suc fuel) remaining buffer s h = elim (Bool-cases (remaining == 0)) [
  | inl k ↦ ground (arith, h, k)
  | inr k ↦ elim (list_cases ((recv remaining s).0)) [
    | inl l ↦ ground (arith, k, l, recv-cuts remaining s h)
    | inr (x, xs, l) ↦ ground (
      arith,
      k,
      l,
      rest-cuts fuel (remaining - length (x ∷ xs)) (buffer ++ x ∷ xs) (recv remaining s).1
          (recv-cuts remaining s h),
    )
  ]
]

message-cuts : (junk : List ℕ) (s : Socket) → s.cuts ≡ [] → (receive_message junk s).1.cuts ≡ []
unfolding receive_message receive_body
message-cuts junk s h = elim (list_cases ((recv 4 s).0)) [
  | inl l ↦ ground (arith, l, recv-cuts 4 s h)
  | inr (x, xs, l) ↦
      let len = network_value ((x ∷ xs) ++ drop (length (x ∷ xs)) junk) in
      elim (Bool-cases (ltb len (2 ^ 31))) [
        | inl k ↦ ground (arith, l, k, rest-cuts len len [] (recv 4 s).1 (recv-cuts 4 s h))
        | inr k ↦ ground (arith, l, k, recv-cuts 4 s h)
      ]
]

-- The answer that a client expects to a message.
abbrev pub answer_to : List ℕ → List ℕ
answer_to msg =
    (69 ∷ 99 ∷ 104 ∷ 111 ∷ 58 ∷ 32 ∷ [])
    ++ msg
    ++ (32 ∷ 40 ∷ 108 ∷ 101 ∷ 110 ∷ 103 ∷ 116 ∷ 104 ∷ 61 ∷ [])
    ++ text_bytes (to_string (length msg))
    ++ (41 ∷ [])

-- A message that the server answers, with an answer that it can send.
pub record Plain (msg wire : List ℕ) : Type 0 where
  pub small : length msg < 2 ^ 31
  pub answered : length (answer_to msg) < 2 ^ 31
  pub goes_on : ends_session msg ≡ false
  pub sent : send_message msg ≡ some wire

-- What a client sends: its messages, and then "quit" or nothing more, as it closes.
pub data Sends : List (List ℕ) → List ℕ → Type 0 where
  closes : Sends [] []
  sends :
      (msg wire : List ℕ) (msgs : List (List ℕ)) (wires : List ℕ)
      → Plain msg wire
      → Sends msgs wires
      → Sends (msg ∷ msgs) (wire ++ wires)

-- turns of a server that runs on, with anything in len_net
abbrev pub running_turns : List (List ℕ) → List (Bool × List ℕ)
running_turns junks = map (λ (junk : List ℕ). (true, junk)) junks

received :
    (junk msg wire rest : List ℕ)
    → Plain msg wire
    → receive_message junk (record { incoming = wire ++ rest; cuts = [] })
      ≡ (msg, record { incoming = rest; cuts = [] })
received junk msg wire rest p =
    let r = receive-send junk msg wire rest [] p.small refl p.sent in
    let c = message-cuts junk (record { incoming = wire ++ rest; cuts = [] }) refl in
    ground (arith, r.0, r.1, c)

echo_text : text_bytes "Echo: " ≡ 69 ∷ 99 ∷ 104 ∷ 111 ∷ 58 ∷ 32 ∷ []
unfolding text_bytes
echo_text = refl

length_text : text_bytes " (length=" ≡ 32 ∷ 40 ∷ 108 ∷ 101 ∷ 110 ∷ 103 ∷ 116 ∷ 104 ∷ 61 ∷ []
unfolding text_bytes
length_text = refl

end_text : text_bytes ")" ≡ 41 ∷ []
unfolding text_bytes
end_text = refl

three_parts :
    (a2 b c2 d e2 : List ℕ) {a c e : List ℕ}
    → a ≡ a2
    → c ≡ c2
    → e ≡ e2
    → a ++ b ++ c ++ d ++ e ≡ a2 ++ b ++ c2 ++ d ++ e2
three_parts a2 b c2 d e2 h k l = cc (h, k, l)

echo-answer_to : (msg : List ℕ) → echo msg ≡ answer_to msg
unfolding echo
echo-answer_to msg =
    three_parts _ msg _ (text_bytes (to_string (length msg))) _ echo_text length_text end_text

-- The wire of an answer: its length in four bytes, and its bytes.
abbrev pub on_wire : List ℕ → Option (List ℕ)
on_wire msg = some (network_bytes (length msg) ++ msg)

closed :
    (junk : List ℕ) (turns : List (Bool × List ℕ))
    → responses ((true, junk) ∷ turns) (record { incoming = []; cuts = [] }) ≡ []
unfolding responses receive_message recv ends_session
closed junk turns = refl

all_answered :
    (junks : List (List ℕ)) (msgs : List (List ℕ)) (wires : List ℕ)
    → length junks ≡ suc (length msgs)
    → Sends msgs wires
    → responses (running_turns junks) (record { incoming = wires; cuts = [] })
      ≡ map (λ msg. on_wire (answer_to msg)) msgs
unfolding responses
all_answered [] msgs wires h s = absurd (omega (arith, h))
all_answered (junk ∷ junks) _ _ h closes = closed junk (running_turns junks)
all_answered (junk ∷ junks) _ _ h (sends msg wire msgs wires p s) =
    let answer : send_message (echo msg) ≡ on_wire (answer_to msg) =
      ap send_message (echo-answer_to msg) ∙ small_wire (answer_to msg) p.answered in
    ground (
      arith,
      received junk msg wire wires p,
      p.goes_on,
      answer,
      all_answered junks msgs wires (omega (arith, h)) s,
    )

greeted : send_message (text_bytes welcome) ≡ on_wire (text_bytes welcome)
unfolding text_bytes
greeted = small_wire (text_bytes welcome) (omega arith)

-- To a client that sends messages of fewer than 2 ^ 31 bytes, none of them empty or "quit" and each with
-- an answer of fewer than 2 ^ 31 bytes, and closes, over a network that cuts nothing, the server sends
-- its greeting and then, for each message in order, with its length in front, the text "Echo: ", the
-- message, " (length=", its length in decimal, and ")", and ends, while g_running stays true for as many
-- turns as there are messages, and one more.
pub echoes :
    (junks : List (List ℕ)) (msgs : List (List ℕ)) (wires : List ℕ)
    → length junks ≡ suc (length msgs)
    → Sends msgs wires
    → handle_client (running_turns junks) (record { incoming = wires; cuts = [] })
      ≡ on_wire (text_bytes welcome) ∷ map (λ msg. on_wire (answer_to msg)) msgs
unfolding handle_client
echoes junks msgs wires h s = ground (arith, greeted, all_answered junks msgs wires h s)
