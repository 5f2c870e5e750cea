-- ===== src/ProducerConsumer/Waiting.antt =====
-- systems/producer_consumer/ProducerConsumer.cpp with its condition variables: who sleeps in a wait,
-- and whom notify_one and notify_all wake. A thread whose wait fails falls asleep, and one that
-- sleeps makes no step until it is woken; what it then does is try again. A move is what a thread does
-- while it holds the buffer's mutex, from a lock or a wake-up to the next wait or unlock, or one
-- access to next_item.
pub mod Awake
pub mod Deadlock
pub mod Refinement
use academia_cr.Prelude.{
  ℕ, zero, suc, ◌≡◌, Bool, true, false, some, none, List, [], ◌∷◌, ◌++◌, leb, if◌then◌else◌,
  count_where, map, ℤ, pos, negsuc,
}
use academia_cr.ProducerConsumer.{BoundedBuffer, produce, consume, mark_done, repeat}

-- Where a producer stands: before fetch_add, in produce, asleep in it, or after its loop.
pub data Producer : Type 0 where
  fetching : Producer
  holding asleep_with : ℕ → Producer
  stopped : Producer

-- Where a consumer stands: in consume, asleep in it, or after its loop.
pub data Consumer : Type 0 where
  consuming asleep leaving : Consumer

-- The state of main; `consumed` holds the items behind consumed_count, in order.
pub record Program : Type 0 where
  pub buffer : BoundedBuffer
  pub next_item : ℕ
  pub producers : List Producer
  pub consumers : List Consumer
  pub consumed : List ℕ

-- A producer after fetch_add gave it `item`.
abbrev pub given : ℕ → ℕ → Producer
given total_items item = if leb total_items item then stopped else holding item

abbrev pub in_loop : Producer → Bool
in_loop stopped = false
in_loop _ = true

abbrev pub is_sleeping_producer : Producer → Bool
is_sleeping_producer (asleep_with item) = true
is_sleeping_producer _ = false

abbrev pub is_sleeping_consumer : Consumer → Bool
is_sleeping_consumer asleep = true
is_sleeping_consumer _ = false

abbrev pub in_consume : Consumer → Bool
in_consume leaving = false
in_consume _ = true

-- not_full_.notify_one: one of the producers asleep is woken, any of them, if there is one
pub data WokenProducer (xs : List Producer) : List Producer → Type 0 where
  woken_producer :
      (front back : List Producer) (item : ℕ)
      → xs ≡ front ++ asleep_with item ∷ back
      → WokenProducer xs (front ++ holding item ∷ back)
  no_producer : count_where is_sleeping_producer xs ≡ 0 → WokenProducer xs xs

-- not_empty_.notify_one
pub data WokenConsumer (xs : List Consumer) : List Consumer → Type 0 where
  woken_consumer :
      (front back : List Consumer)
      → xs ≡ front ++ asleep ∷ back
      → WokenConsumer xs (front ++ consuming ∷ back)
  no_consumer : count_where is_sleeping_consumer xs ≡ 0 → WokenConsumer xs xs

abbrev pub wake : Consumer → Consumer
wake asleep = consuming
wake consuming = consuming
wake leaving = leaving

-- not_empty_.notify_all
abbrev pub wake_all : List Consumer → List Consumer
wake_all consumers = map wake consumers

-- The state in which main starts its threads.
unfoldable pub launched : ℕ → ℕ → ℕ → Program
unfolding repeat
launched buffer_size num_producers num_consumers = record {
  buffer = record { buffer = []; capacity = buffer_size; done = false };
  next_item = 0;
  producers = repeat num_producers fetching;
  consumers = repeat num_consumers consuming;
  consumed = [];
}

module _ (total_items : ℕ) where
  -- One move of a thread that is awake.
  pub data Move : Program → Program → Type 0 where
    fetch :
        (d : Program) (front back : List Producer)
        → d.producers ≡ front ++ fetching ∷ back
        → Move d (record d {
          next_item = suc d.next_item;
          producers = front ++ given total_items d.next_item ∷ back;
        })
    put :
        (d : Program) (front back : List Producer) (item : ℕ) (b : BoundedBuffer)
        (consumers : List Consumer)
        → d.producers ≡ front ++ holding item ∷ back
        → produce item d.buffer ≡ some b
        → WokenConsumer d.consumers consumers
        → Move d
            (record d { buffer = b; producers = front ++ fetching ∷ back; consumers = consumers })
    wait_not_full :
        (d : Program) (front back : List Producer) (item : ℕ)
        → d.producers ≡ front ++ holding item ∷ back
        → produce item d.buffer ≡ none
        → Move d (record d { producers = front ++ asleep_with item ∷ back })
    get :
        (d : Program) (front back : List Consumer) (item : ℕ) (b : BoundedBuffer)
        (producers : List Producer)
        → d.consumers ≡ front ++ consuming ∷ back
        → consume d.buffer ≡ some (pos item, b)
        → WokenProducer d.producers producers
        → Move d
            (record d { buffer = b; producers = producers; consumed = d.consumed ++ item ∷ [] })
    wait_not_empty :
        (d : Program) (front back : List Consumer)
        → d.consumers ≡ front ++ consuming ∷ back
        → consume d.buffer ≡ none
        → Move d (record d { consumers = front ++ asleep ∷ back })
    leave :
        (d : Program) (front back : List Consumer) (n : ℕ) (b : BoundedBuffer)
        → d.consumers ≡ front ++ consuming ∷ back
        → consume d.buffer ≡ some (negsuc n, b)
        → Move d (record d { buffer = b; consumers = front ++ leaving ∷ back })
    finish :
        (d : Program)
        → d.buffer.done ≡ false
        → count_where in_loop d.producers ≡ 0
        → Move d (record d { buffer = mark_done d.buffer; consumers = wake_all d.consumers })

  -- The states that the threads can bring about from `s`, where a sleeping thread may also wake
  -- without a notification.
  pub data Leads (s : Program) : Program → Type 0 where
    here : Leads s s
    next : {d e : Program} → Leads s d → Move d e → Leads s e
    spurious_producer :
        {d : Program} (front back : List Producer) (item : ℕ)
        → Leads s d
        → d.producers ≡ front ++ asleep_with item ∷ back
        → Leads s (record d { producers = front ++ holding item ∷ back })
    spurious_consumer :
        {d : Program} (front back : List Consumer)
        → Leads s d
        → d.consumers ≡ front ++ asleep ∷ back
        → Leads s (record d { consumers = front ++ consuming ∷ back })
