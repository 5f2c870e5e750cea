-- ===== src/ProducerConsumer/Waiting/Awake.antt =====
-- The notifications of the producer-consumer program leave nobody asleep unwatched: where a consumer
-- sleeps, a consumer is awake for each item, and where a producer sleeps, each free place of the
-- buffer has a producer that is awake with an item for it.
use academia_cr.Prelude.{
  ℕ, zero, suc, ◌+◌, ◌≤◌, ◌≡◌, refl, Bool, true, false, List, [], ◌∷◌, arith, length, length-append,
  count_where,
}
use academia_cr.Prelude.Threads.{count_where-moves}
use academia_cr.ProducerConsumer.{produce, consume, repeat}
use academia_cr.ProducerConsumer.Waiting.{
  Producer, fetching, holding, asleep_with, Consumer, consuming, asleep, leaving, Program, given,
  is_sleeping_producer, is_sleeping_consumer, WokenProducer, woken_producer, no_producer,
  WokenConsumer, woken_consumer, no_consumer, wake_all, launched, Move, fetch, put, wait_not_full,
  get, wait_not_empty, leave, finish, Leads, here, next, spurious_producer, spurious_consumer,
}

abbrev pub is_holding : Producer → Bool
is_holding (holding item) = true
is_holding _ = false

abbrev pub is_awake_producer : Producer → Bool
is_awake_producer (holding item) = true
is_awake_producer fetching = true
is_awake_producer _ = false

abbrev pub is_awake_consumer : Consumer → Bool
is_awake_consumer consuming = true
is_awake_consumer _ = false

-- Where anybody sleeps, enough others are awake to see to the buffer.
pub record IsWatched (size : ℕ) (d : Program) : Type 0 where
  pub full_size : d.buffer.capacity ≡ size
  pub items_seen :
      1 ≤ count_where is_sleeping_consumer d.consumers
      → length d.buffer.buffer ≤ count_where is_awake_consumer d.consumers
  pub room_seen :
      1 ≤ count_where is_sleeping_producer d.producers
      → size ≤ length d.buffer.buffer + count_where is_holding d.producers
  pub end_seen : d.buffer.done ≡ true → count_where is_sleeping_consumer d.consumers ≡ 0

-- One thread asleep fewer, and one awake more, or nobody was asleep.
WokenConsumer-counts :
    {xs ys : List Consumer}
    → WokenConsumer xs ys
    → (count_where is_sleeping_consumer ys ≤ count_where is_sleeping_consumer xs)
      × (1 ≤ count_where is_sleeping_consumer ys
          → count_where is_awake_consumer ys ≡ suc (count_where is_awake_consumer xs))
WokenConsumer-counts (woken_consumer front back h) = (
  omega (arith, count_where-moves is_sleeping_consumer front back _ asleep consuming h),
  λ _. omega (arith, count_where-moves is_awake_consumer front back _ asleep consuming h),
)
WokenConsumer-counts (no_consumer h) = (omega arith, λ k. absurd (omega (arith, h, k)))

WokenProducer-counts :
    {xs ys : List Producer}
    → WokenProducer xs ys
    → (1 ≤ count_where is_sleeping_producer ys
        → (1 ≤ count_where is_sleeping_producer xs)
          × (count_where is_holding ys ≡ suc (count_where is_holding xs)))
WokenProducer-counts (woken_producer front back item h) k = (
  omega (
    arith,
    k,
    count_where-moves is_sleeping_producer front back _ (asleep_with item) (holding item) h,
  ),
  omega (arith, count_where-moves is_holding front back _ (asleep_with item) (holding item) h),
)
WokenProducer-counts (no_producer h) k = absurd (omega (arith, h, k))

wake_all-sleeping : (xs : List Consumer) → count_where is_sleeping_consumer (wake_all xs) ≡ 0
unfolding count_where
wake_all-sleeping [] = refl
wake_all-sleeping (asleep ∷ xs) = omega (arith, wake_all-sleeping xs)
wake_all-sleeping (consuming ∷ xs) = omega (arith, wake_all-sleeping xs)
wake_all-sleeping (leaving ∷ xs) = omega (arith, wake_all-sleeping xs)

module _ (total size : ℕ) where
  Move-IsWatched : {d e : Program} → Move total d e → IsWatched size d → IsWatched size e
  unfolding produce consume
  Move-IsWatched (fetch d front back h) w =
      let n = given total d.next_item in
      let s = count_where-moves is_sleeping_producer front back d.producers fetching n h in
      let k = count_where-moves is_holding front back d.producers fetching n h in
      record {
        full_size = w.full_size;
        items_seen = w.items_seen;
        room_seen = λ x. ground (arith, x, s, k, w.room_seen);
        end_seen = w.end_seen;
      }
  Move-IsWatched (put d front back item b consumers h m n) w =
      let s =
        count_where-moves is_sleeping_producer front back d.producers (holding item) fetching h in
      let k = count_where-moves is_holding front back d.producers (holding item) fetching h in
      let c = WokenConsumer-counts n in
      let l = length-append d.buffer.buffer (item ∷ []) in
      record {
        full_size = ground (arith, m, w.full_size);
        items_seen = λ x. ground (arith, x, m, c.0, c.1 x, l, w.items_seen);
        room_seen = λ x. ground (arith, x, m, s, k, l, w.room_seen);
        end_seen = λ x. ground (arith, x, m, c.0, w.end_seen);
      }
  Move-IsWatched (wait_not_full d front back item h m) w =
      let k =
        count_where-moves is_holding front back d.producers (holding item) (asleep_with item) h in
      record {
        full_size = w.full_size;
        items_seen = w.items_seen;
        room_seen = λ x. ground (arith, m, w.full_size);
        end_seen = w.end_seen;
      }
  Move-IsWatched (get d front back item b producers h m n) w =
      let c = WokenProducer-counts n in
      record {
        full_size = ground (arith, m, w.full_size);
        items_seen = λ x. ground (arith, x, m, w.items_seen);
        room_seen = λ x. ground (arith, x, m, (c x).0, (c x).1, w.room_seen);
        end_seen = λ x. ground (arith, x, m, w.end_seen);
      }
  Move-IsWatched (wait_not_empty d front back h m) w = record {
    full_size = w.full_size;
    items_seen = λ x. ground (arith, m);
    room_seen = w.room_seen;
    end_seen = λ x. absurd (ground (arith, m, x));
  }
  Move-IsWatched (leave d front back n b h m) w =
      let s = count_where-moves is_sleeping_consumer front back d.consumers consuming leaving h in
      record {
        full_size = ground (arith, m, w.full_size);
        items_seen = λ x. ground (arith, m);
        room_seen = λ x. ground (arith, x, m, w.room_seen);
        end_seen = λ x. ground (arith, x, m, s, w.end_seen);
      }
  Move-IsWatched (finish d o h) w = record {
    full_size = w.full_size;
    items_seen = λ x. absurd (omega (arith, x, wake_all-sleeping d.consumers));
    room_seen = w.room_seen;
    end_seen = λ x. wake_all-sleeping d.consumers;
  }

  pub Leads-IsWatched : {s d : Program} → Leads total s d → IsWatched size s → IsWatched size d
  Leads-IsWatched here w = w
  Leads-IsWatched (next l m) w = Move-IsWatched m (Leads-IsWatched l w)
  Leads-IsWatched (spurious_producer front back item l h) w =
      let v = Leads-IsWatched l w in
      let s =
        count_where-moves is_sleeping_producer front back _ (asleep_with item) (holding item) h in
      let k = count_where-moves is_holding front back _ (asleep_with item) (holding item) h in
      record {
        full_size = v.full_size;
        items_seen = v.items_seen;
        room_seen = λ x. ground (arith, x, s, k, v.room_seen);
        end_seen = v.end_seen;
      }
  Leads-IsWatched (spurious_consumer front back l h) w =
      let v = Leads-IsWatched l w in
      let s = count_where-moves is_sleeping_consumer front back _ asleep consuming h in
      let k = count_where-moves is_awake_consumer front back _ asleep consuming h in
      record {
        full_size = v.full_size;
        items_seen = λ x. ground (arith, x, s, k, v.items_seen);
        room_seen = v.room_seen;
        end_seen = λ x. ground (arith, x, s, v.end_seen);
      }

count_where-repeat :
    {A : Type 0} (p : A → Bool) (n : ℕ) (x : A) → p x ≡ false → count_where p (repeat n x) ≡ 0
unfolding repeat count_where
count_where-repeat p zero x h = refl
count_where-repeat p (suc n) x h = ground (arith, h, count_where-repeat p n x h)

pub launched-IsWatched : (size p c : ℕ) → IsWatched size (launched size p c)
unfolding launched
launched-IsWatched size p c =
    let s = count_where-repeat is_sleeping_producer p fetching refl in
    let t = count_where-repeat is_sleeping_consumer c consuming refl in
    record {
      full_size = refl;
      items_seen = λ x. absurd (omega (arith, x, t));
      room_seen = λ x. absurd (omega (arith, x, s));
      end_seen = λ x. t;
    }
