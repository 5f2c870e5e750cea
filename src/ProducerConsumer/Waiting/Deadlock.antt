-- ===== src/ProducerConsumer/Waiting/Deadlock.antt =====
-- Whenever a thread of the producer-consumer program has something left to do, one that is awake can
-- move.
use academia_cr.Prelude.{
  ℕ, ◌+◌, ◌≤◌, ◌≡◌, refl, Bool, true, false, some, none, List, [], ◌∷◌, ◌++◌, arith, ltb, length,
  count_where, pos, negsuc, Bool-cases, inl, inr, ◌⊎◌,
}
use academia_cr.Prelude.Counting.{count_where_mono}
use academia_cr.Prelude.Threads.{Found, found}
use academia_cr.ProducerConsumer.{BoundedBuffer, produce, consume}
use academia_cr.ProducerConsumer.Waiting.{
  Producer, fetching, holding, asleep_with, stopped, Consumer, consuming, asleep, leaving, Program,
  in_loop, is_sleeping_producer, is_sleeping_consumer, in_consume, WokenProducer, woken_producer,
  no_producer, WokenConsumer, woken_consumer, no_consumer, launched, Move, fetch, put,
  wait_not_full, get, wait_not_empty, leave, finish, Leads,
}
use academia_cr.ProducerConsumer.Waiting.Awake.{
  is_holding, is_awake_producer, is_awake_consumer, IsWatched, Leads-IsWatched, launched-IsWatched,
}

-- Whom a notify_one wakes.
wakes_producer : (xs : List Producer) → (ys : List Producer) × WokenProducer xs ys
wakes_producer xs = elim (Bool-cases (ltb 0 (count_where is_sleeping_producer xs))) [
  | inl some_sleep ↦ go (found is_sleeping_producer xs (ground arith))
  | inr none_sleep ↦ (xs, no_producer (ground arith))
]
  where
    sleeper :
        (front back : List Producer) (x : Producer)
        → xs ≡ front ++ x ∷ back
        → is_sleeping_producer x ≡ true
        → (ys : List Producer) × WokenProducer xs ys
    sleeper front back (asleep_with item) h k = (_, woken_producer front back item h)
    sleeper front back fetching h k = absurd (ground arith)
    sleeper front back (holding item) h k = absurd (ground arith)
    sleeper front back stopped h k = absurd (ground arith)

    go : Found is_sleeping_producer xs → (ys : List Producer) × WokenProducer xs ys
    go x = sleeper x.front x.back x.element x.split x.holds

wakes_consumer : (xs : List Consumer) → (ys : List Consumer) × WokenConsumer xs ys
wakes_consumer xs = elim (Bool-cases (ltb 0 (count_where is_sleeping_consumer xs))) [
  | inl some_sleep ↦ go (found is_sleeping_consumer xs (ground arith))
  | inr none_sleep ↦ (xs, no_consumer (ground arith))
]
  where
    sleeper :
        (front back : List Consumer) (x : Consumer)
        → xs ≡ front ++ x ∷ back
        → is_sleeping_consumer x ≡ true
        → (ys : List Consumer) × WokenConsumer xs ys
    sleeper front back asleep h k = (_, woken_consumer front back h)
    sleeper front back consuming h k = absurd (ground arith)
    sleeper front back leaving h k = absurd (ground arith)

    go : Found is_sleeping_consumer xs → (ys : List Consumer) × WokenConsumer xs ys
    go x = sleeper x.front x.back x.element x.split x.holds

abbrev AnItem : BoundedBuffer → Type 0
AnItem b = (item : ℕ) × (c : BoundedBuffer) × (consume b ≡ some (pos item, c))

abbrev TheEnd : BoundedBuffer → Type 0
TheEnd b = (c : BoundedBuffer) × (consume b ≡ some (negsuc 0, c))

-- consume takes an item, sees the end, or waits.
consume-cases : (b : BoundedBuffer) → AnItem b ⊎ (TheEnd b ⊎ (consume b ≡ none))
unfolding consume
consume-cases b = go b.buffer b.done refl refl
  where
    go :
        (xs : List ℕ) (over : Bool)
        → b.buffer ≡ xs
        → b.done ≡ over
        → AnItem b ⊎ (TheEnd b ⊎ (consume b ≡ none))
    go (item ∷ rest) over h k = inl (item, record b { buffer = rest }, ground (arith, h))
    go [] true h k = inr (inl (b, ground (arith, h, k)))
    go [] false h k = inr (inr (ground (arith, h, k)))

-- produce puts the item in the buffer, or waits.
produce-cases :
    (item : ℕ) (b : BoundedBuffer)
    → ((c : BoundedBuffer) × (produce item b ≡ some c)) ⊎ (produce item b ≡ none)
unfolding produce
produce-cases item b = elim (Bool-cases (ltb (length b.buffer) b.capacity)) [
  | inl free ↦ inl (record b { buffer = b.buffer ++ item ∷ [] }, ground (arith, free))
  | inr full ↦ inr (ground (arith, full))
]

module _ (total : ℕ) (d : Program) where
  abbrev CanMove : Type 0
  CanMove = (e : Program) × Move total d e

  -- A consumer that is awake can move.
  consumer_moves : Found is_awake_consumer d.consumers → CanMove
  consumer_moves x = go x.element x.split x.holds
    where
      consuming_moves : d.consumers ≡ x.front ++ consuming ∷ x.back → CanMove
      consuming_moves h = elim (consume-cases d.buffer) [
        | inl (item, b, m) ↦
            let n = wakes_producer d.producers in (_, get d x.front x.back item b n.0 h m n.1)
        | inr (inl (b, m)) ↦ (_, leave d x.front x.back 0 b h m)
        | inr (inr m) ↦ (_, wait_not_empty d x.front x.back h m)
      ]

      go :
          (y : Consumer)
          → d.consumers ≡ x.front ++ y ∷ x.back
          → is_awake_consumer y ≡ true
          → CanMove
      go consuming h k = consuming_moves h
      go asleep h k = absurd (ground arith)
      go leaving h k = absurd (ground arith)

  -- A producer that is awake can move.
  producer_moves : Found is_awake_producer d.producers → CanMove
  producer_moves x = go x.element x.split x.holds
    where
      holding_moves : (item : ℕ) → d.producers ≡ x.front ++ holding item ∷ x.back → CanMove
      holding_moves item h = elim (produce-cases item d.buffer) [
        | inl (b, m) ↦
            let n = wakes_consumer d.consumers in (_, put d x.front x.back item b n.0 h m n.1)
        | inr m ↦ (_, wait_not_full d x.front x.back item h m)
      ]

      go :
          (y : Producer)
          → d.producers ≡ x.front ++ y ∷ x.back
          → is_awake_producer y ≡ true
          → CanMove
      go fetching h k = (_, fetch d x.front x.back h)
      go (holding item) h k = holding_moves item h
      go (asleep_with item) h k = absurd (ground arith)
      go stopped h k = absurd (ground arith)

awake_or_asleep :
    (xs : List Consumer)
    → count_where in_consume xs
      ≡ count_where is_awake_consumer xs + count_where is_sleeping_consumer xs
unfolding count_where
awake_or_asleep [] = refl
awake_or_asleep (consuming ∷ xs) = omega (arith, awake_or_asleep xs)
awake_or_asleep (asleep ∷ xs) = omega (arith, awake_or_asleep xs)
awake_or_asleep (leaving ∷ xs) = omega (arith, awake_or_asleep xs)

running_or_asleep :
    (xs : List Producer)
    → count_where in_loop xs
      ≡ count_where is_awake_producer xs + count_where is_sleeping_producer xs
unfolding count_where
running_or_asleep [] = refl
running_or_asleep (fetching ∷ xs) = omega (arith, running_or_asleep xs)
running_or_asleep (holding item ∷ xs) = omega (arith, running_or_asleep xs)
running_or_asleep (asleep_with item ∷ xs) = omega (arith, running_or_asleep xs)
running_or_asleep (stopped ∷ xs) = omega (arith, running_or_asleep xs)

holding_awake : (x : Producer) → is_holding x ≡ true → is_awake_producer x ≡ true
holding_awake (holding item) h = refl
holding_awake fetching h = refl
holding_awake (asleep_with item) h = h
holding_awake stopped h = h

-- Who moves: a consumer that is awake, else a producer that is awake, else main.
watched_moves :
    (total size : ℕ) (d : Program)
    → IsWatched size d
    → 1 ≤ size
    → 1 ≤ count_where in_consume d.consumers
    → CanMove total d
watched_moves total size d w room waiting =
    let c = awake_or_asleep d.consumers in
    let p = running_or_asleep d.producers in
    let m = count_where_mono is_holding is_awake_producer d.producers holding_awake in
    elim (Bool-cases (ltb 0 (count_where is_awake_consumer d.consumers))) [
      | inl awake ↦ consumer_moves total d (found is_awake_consumer d.consumers (ground arith))
      | inr nobody ↦ elim (Bool-cases (ltb 0 (count_where is_awake_producer d.producers))) [
        | inl awake ↦ producer_moves total d (found is_awake_producer d.producers (ground arith))
        | inr idle ↦
            let empty : length d.buffer.buffer ≤ 0 = ground (arith, c, w.items_seen) in
            let open_still : d.buffer.done ≡ false = elim (Bool-cases d.buffer.done) [
              | inl over ↦ absurd (ground (arith, c, over, w.end_seen))
              | inr unmarked ↦ unmarked
            ] in
            (_, finish d open_still (ground (arith, p, m, empty, w.room_seen)))
      ]
    ]

-- With room for an item in the buffer, the program cannot deadlock: whatever its threads have done,
-- whomever each notify_one has woken, and whichever waits have ended without a notification, as long
-- as a consumer has not left its loop, some thread that is not asleep can move.
pub no_deadlock :
    (total size p c : ℕ) (d : Program)
    → 1 ≤ size
    → Leads total (launched size p c) d
    → 1 ≤ count_where in_consume d.consumers
    → (e : Program) × Move total d e
no_deadlock total size p c d room l waiting =
    watched_moves total size d (Leads-IsWatched total size l (launched-IsWatched size p c)) room
      waiting
