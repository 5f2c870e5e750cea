-- ===== src/Framing.antt =====
-- systems/tcp/TcpServer.cpp and TcpClient.cpp: the length-prefixed messages of send_message and
-- receive_message, which the two programs define alike. A message is the list of its bytes. send is
-- taken to send all it is given; recv may return fewer bytes than asked for, as the network cuts the
-- stream.
pub mod Echo
pub mod Roundtrip
use academia_cr.Prelude.{
  ℕ, zero, suc, ◌+◌, ◌-◌, ◌*◌, ◌/◌, ◌%◌, ◌^◌, Bool, true, false, Option, none, some, List, [], ◌∷◌,
  ◌++◌, ltb, ◌==◌, if◌then◌else◌, length, take, drop,
}

-- the four bytes of htonl(len) in memory
abbrev pub network_bytes : ℕ → List ℕ
network_bytes len =
    (len / 2 ^ 24 % 2 ^ 8) ∷ (len / 2 ^ 16 % 2 ^ 8) ∷ (len / 2 ^ 8 % 2 ^ 8) ∷ (len % 2 ^ 8) ∷ []

-- ntohl of the four bytes in memory
abbrev pub network_value : List ℕ → ℕ
network_value (a ∷ b ∷ c ∷ d ∷ _) = ((a * 2 ^ 8 + b) * 2 ^ 8 + c) * 2 ^ 8 + d
network_value _ = 0

-- send_message: what it puts on the wire, or `none` if static_cast<int> makes the size negative
unfoldable pub send_message : List ℕ → Option (List ℕ)
send_message msg =
    let len = length msg % 2 ^ 32 in
    if ltb len (2 ^ 31) then some (network_bytes len ++ take len msg) else none

-- A socket: the bytes that the peer sends before it closes, and for each recv to come one less than
-- the most bytes it returns; a recv past their end returns all that it may.
pub record Socket : Type 0 where
  pub incoming : List ℕ
  pub cuts : List ℕ

abbrev pub at_most : List ℕ → ℕ → ℕ
at_most [] asked = asked
at_most (cut ∷ _) asked = if ltb cut asked then suc cut else asked

-- recv: the bytes, none of them if the peer has closed
unfoldable pub recv : ℕ → Socket → List ℕ × Socket
recv asked s =
    let n = at_most s.cuts asked in
    (take n s.incoming, record { incoming = drop n s.incoming; cuts = drop 1 s.cuts })

-- the while loop of receive_message, with `remaining` bytes to come: on fuel, which a recv of at
-- least one byte makes last
unfoldable pub receive_rest : ℕ → ℕ → List ℕ → Socket → List ℕ × Socket
receive_rest zero remaining buffer s = (buffer, s)
receive_rest (suc fuel) remaining buffer s = elim (remaining == 0) [
  | true ↦ (buffer, s)
  | false ↦ elim ((recv remaining s).0) [
    | [] ↦ ([], (recv remaining s).1)
    | x ∷ xs ↦
        receive_rest fuel (remaining - length (x ∷ xs)) (buffer ++ x ∷ xs) (recv remaining s).1
  ]
]

zeros : ℕ → List ℕ
zeros zero = []
zeros (suc n) = 0 ∷ zeros n

-- receive_message after len_net was read; a length that static_cast<int> makes negative leaves the
-- buffer as it is
unfoldable pub receive_body : ℕ → Socket → List ℕ × Socket
unfolding zeros
receive_body len s = if ltb len (2 ^ 31) then receive_rest len len [] s else (zeros len, s)

-- receive_message, where `junk` is what len_net holds before recv writes to it
unfoldable pub receive_message : List ℕ → Socket → List ℕ × Socket
receive_message junk s = elim ((recv 4 s).0) [
  | [] ↦ ([], (recv 4 s).1)
  | x ∷ xs ↦ receive_body (network_value ((x ∷ xs) ++ drop (length (x ∷ xs)) junk)) (recv 4 s).1
]
