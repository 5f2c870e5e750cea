-- ===== src/Framing/Roundtrip.antt =====
-- What send_message sent, receive_message receives.
use academia_cr.Prelude.{
  ℕ, zero, suc, ◌+◌, ◌-◌, ◌%◌, ◌^◌, ◌≤◌, ◌<◌, ◌≡◌, ◌∙◌, refl, sym, ap, some, List, [], ◌∷◌, ◌++◌,
  length, length-append, take, drop, take-append, drop-append, arith,
}
use academia_cr.Framing.{
  network_bytes, network_value, send_message, Socket, at_most, recv, receive_rest, receive_body,
  receive_message,
}

-- The length that the four bytes stand for.
pub value_of_bytes :
    (len : ℕ) (rest : List ℕ) → len < 2 ^ 32 → network_value (network_bytes len ++ rest) ≡ len
value_of_bytes len rest h = omega (arith, h)

at_most-bounds :
    (cuts : List ℕ) (asked : ℕ)
    → 1 ≤ asked
    → (1 ≤ at_most cuts asked) × (at_most cuts asked ≤ asked)
at_most-bounds [] asked h = ground arith
at_most-bounds (cut ∷ cuts) asked h = ground arith

pub length-take : (n : ℕ) (xs : List ℕ) → n ≤ length xs → length (take n xs) ≡ n
length-take zero xs h = refl
length-take (suc n) [] h = absurd (omega arith)
length-take (suc n) (x ∷ xs) h = omega (arith, length-take n xs (omega arith))

length-drop : (n : ℕ) (xs : List ℕ) → n ≤ length xs → length (drop n xs) + n ≡ length xs
length-drop zero xs h = omega arith
length-drop (suc n) [] h = absurd (omega arith)
length-drop (suc n) (x ∷ xs) h = omega (arith, length-drop n xs (omega arith))

take_none : (n : ℕ) → take {A = ℕ} n [] ≡ []
take_none zero = refl
take_none (suc n) = refl

drop_none : (n : ℕ) → drop {A = ℕ} n [] ≡ []
drop_none zero = refl
drop_none (suc n) = refl

-- Taking n and then k more is taking n + k.
take_more : (n k m : ℕ) (xs : List ℕ) → m ≡ n + k → take n xs ++ take k (drop n xs) ≡ take m xs
take_more zero k m xs h = ap (λ (i : ℕ). take i xs) (omega arith)
take_more (suc n) k zero xs h = absurd (omega arith)
take_more (suc n) k (suc m) [] h = take_none k
take_more (suc n) k (suc m) (x ∷ xs) h =
    ap (λ (l : List ℕ). x ∷ l) (take_more n k m xs (omega arith))

drop_more : (n k m : ℕ) (xs : List ℕ) → m ≡ n + k → drop k (drop n xs) ≡ drop m xs
drop_more zero k m xs h = ap (λ (i : ℕ). drop i xs) (omega arith)
drop_more (suc n) k zero xs h = absurd (omega arith)
drop_more (suc n) k (suc m) [] h = drop_none k
drop_more (suc n) k (suc m) (x ∷ xs) h = drop_more n k m xs (omega arith)

append_assoc : (xs ys zs : List ℕ) → (xs ++ ys) ++ zs ≡ xs ++ (ys ++ zs)
append_assoc [] ys zs = refl
append_assoc (x ∷ xs) ys zs = ap (λ (l : List ℕ). x ∷ l) (append_assoc xs ys zs)

pub no_items : (xs : List ℕ) → xs ++ [] ≡ xs
no_items [] = refl
no_items (x ∷ xs) = ap (λ (l : List ℕ). x ∷ l) (no_items xs)

module _ (fuel remaining : ℕ) (buffer : List ℕ) (s : Socket) where
  abbrev amount : ℕ
  amount = at_most s.cuts remaining

  receive_done : remaining ≡ 0 → receive_rest (suc fuel) remaining buffer s ≡ (buffer, s)
  unfolding receive_rest
  receive_done h = ground (arith, h)

  -- One turn of the loop that finds the bytes that it asks for.
  receive_turn :
      1 ≤ remaining
      → remaining ≤ length s.incoming
      → receive_rest (suc fuel) remaining buffer s
        ≡ receive_rest fuel
            (remaining - amount)
            (buffer ++ take amount s.incoming)
            (recv remaining s).1
  unfolding receive_rest recv
  receive_turn some_left there = go (take amount s.incoming) refl
    where
      go :
          (xs : List ℕ)
          → take amount s.incoming ≡ xs
          → receive_rest (suc fuel) remaining buffer s
            ≡ receive_rest fuel
                (remaining - amount)
                (buffer ++ take amount s.incoming)
                (recv remaining s).1
      go [] h = absurd (
          omega (
            arith,
            ap length h,
            at_most-bounds s.cuts remaining some_left,
            length-take amount s.incoming
                (omega (arith, at_most-bounds s.cuts remaining some_left)),
          ))
      go (x ∷ xs) h =
          let size : length (x ∷ xs) ≡ amount =
            sym (ap length h)
            ∙ length-take amount s.incoming
                (omega (arith, at_most-bounds s.cuts remaining some_left)) in
          ground (arith, h, size)

-- However the network cuts the stream, the loop reads the bytes that it is to read, if they come.
receive_rest-take :
    (fuel remaining : ℕ) (buffer : List ℕ) (s : Socket)
    → remaining ≤ fuel
    → remaining ≤ length s.incoming
    → ((receive_rest fuel remaining buffer s).0 ≡ buffer ++ take remaining s.incoming)
      × ((receive_rest fuel remaining buffer s).1.incoming ≡ drop remaining s.incoming)
unfolding receive_rest recv
receive_rest-take zero zero buffer s enough there = (sym (no_items buffer), refl)
receive_rest-take zero (suc remaining) buffer s enough there = absurd (omega arith)
receive_rest-take (suc fuel) zero buffer s enough there = (sym (no_items buffer), refl)
receive_rest-take (suc fuel) (suc remaining) buffer s enough there =
    let n = at_most s.cuts (suc remaining) in
    let bounds = at_most-bounds s.cuts (suc remaining) (omega arith) in
    let turn = receive_turn fuel (suc remaining) buffer s (omega arith) there in
    let rest =
      receive_rest-take fuel (suc remaining - n) (buffer ++ take n s.incoming)
        (recv (suc remaining) s).1 (omega (arith, bounds))
        (omega (arith, length-drop n s.incoming (omega (arith, bounds)), bounds)) in
    (
      ap (λ (x : List ℕ × Socket). x.0) turn
          ∙ (rest.0
              ∙ (append_assoc buffer (take n s.incoming) _
                  ∙ ap (λ (l : List ℕ). buffer ++ l)
                      (take_more n (suc remaining - n) (suc remaining) s.incoming
                        (omega (arith, bounds))))),
      ap (λ (x : List ℕ × Socket). x.1.incoming) turn
          ∙ (rest.1
              ∙ drop_more n (suc remaining - n) (suc remaining) s.incoming (omega (arith, bounds))),
    )

pub take_all : (xs ys : List ℕ) (n : ℕ) → n ≡ length xs → take n (xs ++ ys) ≡ xs
take_all xs ys n h = ap (λ (i : ℕ). take i (xs ++ ys)) h ∙ take-append xs ys

drop_all : (xs ys : List ℕ) (n : ℕ) → n ≡ length xs → drop n (xs ++ ys) ≡ ys
drop_all xs ys n h = ap (λ (i : ℕ). drop i (xs ++ ys)) h ∙ drop-append xs ys

pub small_wire :
    (msg : List ℕ)
    → length msg < 2 ^ 31
    → send_message msg ≡ some (network_bytes (length msg) ++ msg)
unfolding send_message
small_wire msg h =
    let same : length msg % 2 ^ 32 ≡ length msg = omega (arith, h) in
    let whole : take (length msg) msg ≡ msg =
      ap (take (length msg)) (sym (no_items msg)) ∙ take_all msg [] (length msg) refl in
    ground (arith, h, same, whole)

-- The body of a message whose length was read.
receive_body-take :
    (msg rest cuts : List ℕ)
    → length msg < 2 ^ 31
    → ((receive_body (length msg) (record { incoming = msg ++ rest; cuts = cuts })).0 ≡ msg)
      × ((receive_body (length msg) (record { incoming = msg ++ rest; cuts = cuts })).1.incoming
          ≡ rest)
unfolding receive_body
receive_body-take msg rest cuts h =
    let s : Socket = record { incoming = msg ++ rest; cuts = cuts } in
    let read =
      receive_rest-take (length msg) (length msg) [] s (omega arith)
        (omega (arith, length-append msg rest)) in
    (
      ground (arith, h, read.0, take_all msg rest (length msg) refl),
      ground (arith, h, read.1, drop_all msg rest (length msg) refl),
    )

header_read :
    (junk msg rest cuts : List ℕ)
    → length msg < 2 ^ 31
    → at_most cuts 4 ≡ 4
    → receive_message junk
        (record { incoming = (network_bytes (length msg) ++ msg) ++ rest; cuts = cuts })
      ≡ receive_body (length msg) (record { incoming = msg ++ rest; cuts = drop 1 cuts })
unfolding receive_message recv
header_read junk msg rest cuts small whole =
    rw (whole, receive_message, recv)
      (rw whole (
        ap (λ (n : ℕ). receive_body n (record { incoming = msg ++ rest; cuts = drop 1 cuts }))
          (value_of_bytes (length msg) [] (omega (arith, small)))))

-- Of a message of fewer than 2 ^ 31 bytes, receive_message gives back exactly the bytes, and leaves
-- what follows it in the stream, however the network cuts the message, provided that the first recv
-- is given all four bytes of the length.
pub receive-send :
    (junk msg wire rest cuts : List ℕ)
    → length msg < 2 ^ 31
    → at_most cuts 4 ≡ 4
    → send_message msg ≡ some wire
    → ((receive_message junk (record { incoming = wire ++ rest; cuts = cuts })).0 ≡ msg)
      × ((receive_message junk (record { incoming = wire ++ rest; cuts = cuts })).1.incoming ≡ rest)
receive-send junk msg wire rest cuts small whole sent =
    let same : wire ≡ network_bytes (length msg) ++ msg =
      ground (arith, small_wire msg small, sent) in
    let read : receive_message junk (record { incoming = wire ++ rest; cuts = cuts })
        ≡ receive_body (length msg) (record { incoming = msg ++ rest; cuts = drop 1 cuts }) =
      ap (λ (w : List ℕ). receive_message junk (record { incoming = w ++ rest; cuts = cuts })) same
      ∙ header_read junk msg rest cuts small whole in
    let body = receive_body-take msg rest (drop 1 cuts) small in
    (
      ap (λ (x : List ℕ × Socket). x.0) read ∙ body.0,
      ap (λ (x : List ℕ × Socket). x.1.incoming) read ∙ body.1,
    )
