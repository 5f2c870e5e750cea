-- ===== src/Client/Messages.antt =====
-- send_with_length of server/server.c and read_with_length of client/client.c. A message is the list of
-- its bytes; write is taken to write all it is given, and read may return fewer bytes than asked for.
use academia_cr.Prelude.{
  ℕ, zero, suc, ◌%◌, ◌^◌, ◌≤◌, ◌<◌, ◌≡◌, ◌∙◌, refl, sym, ap, Option, none, some, List, [], ◌∷◌,
  ◌++◌, leb, ltb, length, length-append, take, drop, take-append, arith, if◌then◌else◌,
}
use academia_cr.Framing.{network_bytes, network_value, Socket, at_most, recv}
use academia_cr.Framing.Roundtrip.{value_of_bytes, no_items}

-- send_with_length
abbrev pub send_with_length : List ℕ → List ℕ
send_with_length message =
    network_bytes (length message % 2 ^ 32) ++ take (length message % 2 ^ 32) message

-- the second read of read_with_length: of no bytes, where the peer has closed or the length is 0, it
-- is a failure
unfoldable pub read_body : ℕ → Socket → Option (List ℕ) × Socket
read_body len s = elim ((recv len s).0) [
  | [] ↦ (none, (recv len s).1)
  | x ∷ xs ↦ (some (x ∷ xs), (recv len s).1)
]

-- read_with_length, where `junk` is what len_net holds before it is read
unfoldable pub read_with_length : List ℕ → ℕ → Socket → Option (List ℕ) × Socket
unfolding read_body
read_with_length junk max_size s = elim ((recv 4 s).0) [
  | [] ↦ (none, (recv 4 s).1)
  | x ∷ xs ↦
      let len = network_value ((x ∷ xs) ++ drop (length (x ∷ xs)) junk) in
      if leb max_size len then (none, (recv 4 s).1) else read_body len (recv 4 s).1
]

-- What send_with_length writes of a message whose length four bytes can tell.
sent_bytes :
    (message : List ℕ)
    → length message < 2 ^ 32
    → send_with_length message ≡ network_bytes (length message) ++ message
sent_bytes message small =
    let same : length message % 2 ^ 32 ≡ length message = omega (arith, small) in
    let whole : take (length message) message ≡ message =
      ap (take (length message)) (sym (no_items message)) ∙ take-append message [] in
    ap (λ (n : ℕ). network_bytes n ++ take n message) same
    ∙ ap (λ (l : List ℕ). network_bytes (length message) ++ l) whole

-- The read of the length, where the network has not cut it.
length_read :
    (junk message rest cuts : List ℕ) (max_size : ℕ)
    → length message < max_size
    → max_size ≤ 2 ^ 32
    → read_with_length junk max_size
        (record { incoming = (network_bytes (length message) ++ message) ++ rest; cuts = 3 ∷ cuts })
      ≡ read_body (length message) (record { incoming = message ++ rest; cuts = cuts })
unfolding read_with_length recv
length_read junk message rest cuts max_size fits small =
    let then_body : ℕ → Option (List ℕ) × Socket = λ n.
      if leb max_size n
      then (none, record { incoming = message ++ rest; cuts = cuts })
      else read_body n (record { incoming = message ++ rest; cuts = cuts }) in
    ap then_body (value_of_bytes (length message) (drop 4 junk) (omega (arith, fits, small)))
    ∙ ground (arith, fits)

-- The bytes that a read of n bytes returns, where there is at least one.
taken_body :
    (len cut n : ℕ) (incoming cuts : List ℕ)
    → at_most (cut ∷ cuts) len ≡ n
    → 1 ≤ n
    → n ≤ length incoming
    → read_body len (record { incoming = incoming; cuts = cut ∷ cuts })
      ≡ (some (take n incoming), record { incoming = drop n incoming; cuts = cuts })
unfolding read_body recv
taken_body len cut n [] cuts h k l = absurd (omega (arith, k, l))
taken_body len cut zero (x ∷ xs) cuts h k l = absurd (omega (arith, k))
taken_body len cut (suc n) (x ∷ xs) cuts h k l = ground (arith, h)

-- Taking no more than a list has.
take-within : (n : ℕ) (xs ys : List ℕ) → n ≤ length xs → take n (xs ++ ys) ≡ take n xs
take-within zero xs ys h = refl
take-within (suc n) [] ys h = absurd (omega (arith, h))
take-within (suc n) (x ∷ xs) ys h =
    ap (λ (l : List ℕ). x ∷ l) (take-within n xs ys (omega (arith, h)))

-- How much of a message of `len` bytes a read returns that the network cuts.
abbrev pub delivered : ℕ → ℕ → ℕ
delivered cut len = if ltb cut len then suc cut else len

-- read_with_length returns a message that send_with_length has sent, of 1 to max_size - 1 bytes, up to
-- where the network has cut it, if the network has not cut its length; the bytes from the cut on are
-- the next to be read.
pub read-send_with_length :
    (junk message rest : List ℕ) (max_size cut : ℕ) (cuts : List ℕ)
    → 1 ≤ length message
    → length message < max_size
    → max_size ≤ 2 ^ 32
    → read_with_length junk max_size
        (record { incoming = send_with_length message ++ rest; cuts = 3 ∷ cut ∷ cuts })
      ≡ (
        some (take (delivered cut (length message)) message),
        record { incoming = drop (delivered cut (length message)) (message ++ rest); cuts = cuts },
      )
read-send_with_length junk message rest max_size cut cuts some_bytes fits small =
    let n = delivered cut (length message) in
    let some_n : 1 ≤ n = ground (arith, some_bytes) in
    let within : n ≤ length message = ground arith in
    ap
      (λ (l : List ℕ).
        read_with_length junk max_size (record { incoming = l ++ rest; cuts = 3 ∷ cut ∷ cuts }))
      (sent_bytes message (omega (arith, fits, small)))
    ∙ length_read junk message rest (cut ∷ cuts) max_size fits small
    ∙ taken_body (length message) cut n (message ++ rest) cuts refl some_n
        (omega (arith, within, length-append message rest))
    ∙ ap (λ (l : List ℕ). (some l, record { incoming = drop n (message ++ rest); cuts = cuts }))
        (take-within n message rest within)
