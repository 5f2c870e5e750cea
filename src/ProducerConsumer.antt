-- ===== src/ProducerConsumer.antt =====
-- systems/producer_consumer/ProducerConsumer.cpp: the bounded buffer, and the program around it as a
-- step relation. A step is what a thread does while it holds the buffer's mutex, or one access to
-- next_item; a wait whose predicate is false is no step, and one whose predicate holds may end. Who
-- sleeps and whom a notification wakes is in ProducerConsumer.Waiting. Items are the numbers that
-- main hands out, so -1 is none of them. Output is left out.
pub mod Delivery
pub mod Progress
pub mod Waiting
use academia_cr.Prelude.{
  ℕ, zero, suc, ◌+◌, ◌≡◌, Bool, true, false, Option, none, some, List, [], ◌∷◌, ◌++◌, leb, ltb,
  if◌then◌else◌, length, count_where, ℤ, pos, negsuc,
}

-- class BoundedBuffer
pub record BoundedBuffer : Type 0 where
  pub buffer : List ℕ
  pub capacity : ℕ
  pub done : Bool

-- BoundedBuffer::produce; `none` while the wait on not_full goes on
unfoldable pub produce : ℕ → BoundedBuffer → Option BoundedBuffer
produce item b =
    if ltb (length b.buffer) b.capacity
    then some (record b { buffer = b.buffer ++ item ∷ [] })
    else none

-- BoundedBuffer::consume; `none` while the wait on not_empty goes on
unfoldable pub consume : BoundedBuffer → Option (ℤ × BoundedBuffer)
consume b = elim b.buffer [
  | [] ↦ if b.done then some (negsuc 0, b) else none
  | item ∷ rest ↦ some (pos item, record b { buffer = rest })
]

-- BoundedBuffer::mark_done
abbrev pub mark_done : BoundedBuffer → BoundedBuffer
mark_done b = record b { done = true }

-- Where a producer thread stands: before fetch_add, before produce, or after its loop.
pub data Producer : Type 0 where
  fetching : Producer
  holding : ℕ → Producer
  stopped : Producer

-- Where a consumer thread stands: before consume, or after its loop.
pub data Consumer : Type 0 where
  consuming leaving : Consumer

-- The state of main; `consumed` holds the items behind consumed_count, in order.
pub record Demo : Type 0 where
  pub buffer : BoundedBuffer
  pub next_item : ℕ
  pub producers : List Producer
  pub consumers : List Consumer
  pub consumed : List ℕ

-- A producer after fetch_add gave it `item`.
abbrev pub fetched : ℕ → ℕ → Producer
fetched total_items item = if leb total_items item then stopped else holding item

abbrev pub is_running : Producer → Bool
is_running stopped = false
is_running _ = true

abbrev pub is_consuming : Consumer → Bool
is_consuming consuming = true
is_consuming leaving = false

unfoldable pub repeat {ℓ} : {A : Type ℓ} → ℕ → A → List A
repeat zero x = []
repeat (suc n) x = x ∷ repeat n x

-- The state in which main starts its threads.
unfoldable pub started : ℕ → ℕ → ℕ → Demo
unfolding repeat
started buffer_size num_producers num_consumers = record {
  buffer = record { buffer = []; capacity = buffer_size; done = false };
  next_item = 0;
  producers = repeat num_producers fetching;
  consumers = repeat num_consumers consuming;
  consumed = [];
}

module _ (total_items : ℕ) where
  -- One step of one thread. main marks the end once, after it has joined
  -- every producer.
  pub data Step : Demo → Demo → Type 0 where
    fetch :
        (d : Demo) (front back : List Producer)
        → d.producers ≡ front ++ fetching ∷ back
        → Step d (record d {
          next_item = suc d.next_item;
          producers = front ++ fetched total_items d.next_item ∷ back;
        })
    put :
        (d : Demo) (front back : List Producer) (item : ℕ) (b : BoundedBuffer)
        → d.producers ≡ front ++ holding item ∷ back
        → produce item d.buffer ≡ some b
        → Step d (record d { buffer = b; producers = front ++ fetching ∷ back })
    get :
        (d : Demo) (front back : List Consumer) (item : ℕ) (b : BoundedBuffer)
        → d.consumers ≡ front ++ consuming ∷ back
        → consume d.buffer ≡ some (pos item, b)
        → Step d (record d { buffer = b; consumed = d.consumed ++ item ∷ [] })
    leave :
        (d : Demo) (front back : List Consumer) (n : ℕ) (b : BoundedBuffer)
        → d.consumers ≡ front ++ consuming ∷ back
        → consume d.buffer ≡ some (negsuc n, b)
        → Step d (record d { buffer = b; consumers = front ++ leaving ∷ back })
    finish :
        (d : Demo)
        → d.buffer.done ≡ false
        → count_where is_running d.producers ≡ 0
        → Step d (record d { buffer = mark_done d.buffer })

  -- The states that the threads can bring about from `s`.
  pub data Reach (s : Demo) : Demo → Type 0 where
    here : Reach s s
    next : {d e : Demo} → Reach s d → Step d e → Reach s e
