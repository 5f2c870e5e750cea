-- ===== src/ProducerConsumer/Delivery.antt =====
-- The producer-consumer program delivers every item once, and its buffer never overflows.
use academia_cr.Prelude.{
  ℕ, zero, suc, ◌+◌, ◌≤◌, ◌≡◌, refl, ap, Bool, true, false, ◌&&◌, List, [], ◌∷◌, ◌++◌, arith, ltb,
  ◌==◌, if◌then◌else◌, length, length-append, count_where,
}
use academia_cr.Prelude.Counting.{count_where-append, count_where_mono}
use academia_cr.Prelude.Threads.{count_where-moves}
use academia_cr.ProducerConsumer.{
  produce, consume, Producer, fetching, holding, stopped, Consumer, consuming, leaving, Demo,
  fetched, is_running, is_consuming, repeat, started, Step, Reach, fetch, put, get, leave, finish,
  here, next,
}

abbrev holds : ℕ → Producer → Bool
holds i fetching = false
holds i (holding item) = item == i
holds i stopped = false

abbrev pub is_holding : Producer → Bool
is_holding (holding item) = true
is_holding _ = false

abbrev is_stopped : Producer → Bool
is_stopped stopped = true
is_stopped _ = false

abbrev has_left : Consumer → Bool
has_left leaving = true
has_left consuming = false

abbrev times : ℕ → List ℕ → ℕ
times i xs = count_where (λ x. x == i) xs

-- Where every item is, and who has gone home.
pub record IsSound (total : ℕ) (d : Demo) : Type 0 where
  pub bounded : length d.buffer.buffer ≤ d.buffer.capacity
  pub items :
      (i : ℕ)
      → times i d.consumed + (times i d.buffer.buffer + count_where (holds i) d.producers)
        ≡ (if ltb i d.next_item && ltb i total then 1 else 0)
  pub number :
      length d.consumed + (length d.buffer.buffer + count_where is_holding d.producers)
      ≡ (if ltb d.next_item total then d.next_item else total)
  pub exhausted : 1 ≤ count_where is_stopped d.producers → total ≤ d.next_item
  pub ended : d.buffer.done ≡ true → count_where is_running d.producers ≡ 0
  pub empty :
      1 ≤ count_where has_left d.consumers → (d.buffer.done ≡ true) × (length d.buffer.buffer ≡ 0)

module _ (total : ℕ) where
  Step-IsSound : {d e : Demo} → Step total d e → IsSound total d → IsSound total e
  unfolding produce consume count_where
  Step-IsSound (fetch d front back h) v = record {
    bounded = v.bounded;
    items = λ i. ground (
      arith,
      v.items i,
      count_where-moves (holds i) front back d.producers fetching (fetched total d.next_item) h,
    );
    number = ground (
      arith,
      count_where-moves is_holding front back d.producers fetching (fetched total d.next_item) h,
      v.number,
    );
    exhausted = ground (
      arith,
      count_where-moves is_stopped front back d.producers fetching (fetched total d.next_item) h,
      v.exhausted,
    );
    ended = λ k. absurd (
        ground (
          arith,
          count_where-moves is_running front back d.producers fetching (fetched total d.next_item)
              h,
          v.ended k,
        ));
    empty = v.empty;
  }
  Step-IsSound (put d front back item b h k) v = record {
    bounded = ground (arith, k, length-append d.buffer.buffer (item ∷ []));
    items = λ i. ground (
      arith,
      k,
      v.items i,
      count_where-append (λ x. x == i) d.buffer.buffer (item ∷ []),
      count_where-moves (holds i) front back d.producers (holding item) (fetching) h,
    );
    number = ground (
      arith,
      k,
      v.number,
      length-append d.buffer.buffer (item ∷ []),
      count_where-moves is_holding front back d.producers (holding item) (fetching) h,
    );
    exhausted = ground (
      arith,
      v.exhausted,
      count_where-moves is_stopped front back d.producers (holding item) (fetching) h,
    );
    ended = λ e. absurd (
        ground (
          arith,
          k,
          v.ended,
          count_where-moves is_running front back d.producers (holding item) (fetching) h,
        ));
    empty = λ e. absurd (
        ground (
          arith,
          v.ended (v.empty e).0,
          count_where-moves is_running front back d.producers (holding item) (fetching) h,
        ));
  }
  Step-IsSound (get d front back item b h k) v = record {
    bounded = ground (arith, k, v.bounded);
    items =
        λ i. ground (arith, k, v.items i, count_where-append (λ x. x == i) d.consumed (item ∷ []));
    number = ground (arith, k, v.number, length-append d.consumed (item ∷ []));
    exhausted = v.exhausted;
    ended = λ e. ground (arith, k, v.ended);
    empty = λ e. absurd (ground (arith, k, v.empty e));
  }
  Step-IsSound (leave d front back n b h k) v = record {
    bounded = ground (arith, k, v.bounded);
    items = λ i. ground (arith, k, v.items i);
    number = ground (arith, k, v.number);
    exhausted = v.exhausted;
    ended = λ e. ground (arith, k, v.ended);
    empty = λ e. ground (arith, k);
  }
  Step-IsSound (finish d o h) v = record {
    bounded = v.bounded;
    items = v.items;
    number = v.number;
    exhausted = v.exhausted;
    ended = λ k. h;
    empty = λ k. (refl, (v.empty k).1);
  }

none_repeat {ℓ} :
    {A : Type ℓ} (p : A → Bool) (x : A) (n : ℕ) → p x ≡ false → count_where p (repeat n x) ≡ 0
unfolding repeat count_where
none_repeat p x zero h = refl
none_repeat p x (suc n) h = ground (arith, none_repeat p x n h)

started-IsSound : (total size p c : ℕ) → IsSound total (started size p c)
unfolding started count_where
started-IsSound total size p c = record {
  bounded = omega arith;
  items = λ i. ground (arith, none_repeat (holds i) fetching p refl);
  number = ground (arith, none_repeat is_holding fetching p refl);
  exhausted = λ h. absurd (ground (arith, none_repeat is_stopped fetching p refl));
  ended = λ h. absurd (ground arith);
  empty = λ h. absurd (ground (arith, none_repeat has_left consuming c refl));
}

-- In every state that the threads can bring about from the start of main, in whatever order they
-- run, every item that was handed out is at exactly one place (with a producer, in the buffer or
-- consumed) and the buffer holds no more than its capacity.
pub reached-IsSound :
    (total size p c : ℕ) (d : Demo) → Reach total (started size p c) d → IsSound total d
reached-IsSound total size p c d here = started-IsSound total size p c
reached-IsSound total size p c e (next r s) =
    Step-IsSound total s (reached-IsSound total size p c _ r)

length-repeat {ℓ} : {A : Type ℓ} (x : A) (n : ℕ) → length (repeat n x) ≡ n
unfolding repeat
length-repeat x zero = refl
length-repeat x (suc n) = ap suc (length-repeat x n)

length-moves {ℓ} :
    {A : Type ℓ} (front back xs : List A) (x y : A)
    → xs ≡ front ++ x ∷ back
    → length (front ++ y ∷ back) ≡ length xs
length-moves front back xs x y h =
    omega (arith, ap length h, length-append front (x ∷ back), length-append front (y ∷ back))

-- The threads only ever move between the states of their loops.
Step-threads :
    (total : ℕ) {d e : Demo}
    → Step total d e
    → (length e.producers ≡ length d.producers) × (length e.consumers ≡ length d.consumers)
Step-threads total (fetch d front back h) =
    (length-moves front back d.producers fetching (fetched total d.next_item) h, refl)
Step-threads total (put d front back item b h k) =
    (length-moves front back d.producers (holding item) fetching h, refl)
Step-threads total (get d front back item b h k) = (refl, refl)
Step-threads total (leave d front back n b h k) =
    (refl, length-moves front back d.consumers consuming leaving h)
Step-threads total (finish d o h) = (refl, refl)

pub Reach-threads :
    (total size p c : ℕ) (d : Demo)
    → Reach total (started size p c) d
    → (length d.producers ≡ p) × (length d.consumers ≡ c)
unfolding started
Reach-threads total size p c d here = (length-repeat fetching p, length-repeat consuming c)
Reach-threads total size p c e (next r s) =
    ground (arith, Step-threads total s, Reach-threads total size p c _ r)

pub producers_split :
    (xs : List Producer) → length xs ≡ count_where is_running xs + count_where is_stopped xs
unfolding count_where
producers_split [] = refl
producers_split (fetching ∷ xs) = omega (arith, producers_split xs)
producers_split (holding n ∷ xs) = omega (arith, producers_split xs)
producers_split (stopped ∷ xs) = omega (arith, producers_split xs)

pub consumers_split :
    (xs : List Consumer) → length xs ≡ count_where is_consuming xs + count_where has_left xs
unfolding count_where
consumers_split [] = refl
consumers_split (consuming ∷ xs) = omega (arith, consumers_split xs)
consumers_split (leaving ∷ xs) = omega (arith, consumers_split xs)

times-length : (i : ℕ) (xs : List ℕ) → times i xs ≤ length xs
unfolding count_where
times-length i [] = omega arith
times-length i (x ∷ xs) = ground (arith, times-length i xs)

-- Nobody holds an item once no producer runs.
none_held :
    (d : Demo)
    → count_where is_running d.producers ≡ 0
    → (count_where is_holding d.producers ≡ 0) × ((i : ℕ) → count_where (holds i) d.producers ≡ 0)
none_held d h = (
  omega (arith, count_where_mono is_holding is_running d.producers (λ x k. held x k)),
  λ i. omega (arith, count_where_mono (holds i) is_running d.producers (λ x k. held_item i x k)),
)
  where
    held : (x : Producer) → is_holding x ≡ true → is_running x ≡ true
    held (holding item) k = refl
    held fetching k = refl
    held stopped k = absurd (ground arith)

    held_item : (i : ℕ) (x : Producer) → holds i x ≡ true → is_running x ≡ true
    held_item i (holding item) k = refl
    held_item i fetching k = refl
    held_item i stopped k = absurd (ground arith)

-- When every consumer has left its loop, in a program of at least one producer and one consumer, the
-- items from 0 to total_items - 1 have each been consumed exactly once, and nothing else has:
-- consumed_count is total_items.
pub all_consumed :
    (total size p c : ℕ) (d : Demo)
    → 1 ≤ p
    → 1 ≤ c
    → Reach total (started size p c) d
    → count_where is_consuming d.consumers ≡ 0
    → (length d.consumed ≡ total)
      × ((i : ℕ) → count_where (λ x. x == i) d.consumed ≡ (if ltb i total then 1 else 0))
all_consumed total size p c d hp hc r out =
    let v = reached-IsSound total size p c d r in
    let threads = Reach-threads total size p c d r in
    let closed = v.empty (omega (arith, consumers_split d.consumers)) in
    let none_running = v.ended closed.0 in
    let past = v.exhausted (omega (arith, producers_split d.producers)) in
    let free = none_held d none_running in
    (
      ground (arith, v.number, closed.1, free.0, past),
      λ i. ground (arith, v.items i, closed.1, free.1 i, past, times-length i d.buffer.buffer),
    )
