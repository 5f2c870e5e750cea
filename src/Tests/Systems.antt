-- ===== src/Tests/Systems.antt =====
-- The theorems on threads and on messages at concrete runs.
use academia_cr.Prelude.{
  map, ℕ, ◌<◌, ◌≡◌, refl, true, false, [], ◌∷◌, ◌++◌, arith, ltb, ◌==◌, if◌then◌else◌, length,
  count_where,
}
use academia_cr.ProducerConsumer
use academia_cr.ProducerConsumer.{
  repeat, Demo, BoundedBuffer, produce, consume, fetching, holding, stopped, consuming, leaving,
  started, is_consuming, fetch, put, get, leave, finish,
}
use academia_cr.ProducerConsumer.Delivery.{all_consumed}
use academia_cr.ProducerConsumer.Progress.{Step-remaining_work, remaining_work}
use academia_cr.ProducerConsumer.Waiting
use academia_cr.ProducerConsumer.Waiting.{Program, launched, Leads}
use academia_cr.ProducerConsumer.Waiting.Deadlock.{no_deadlock}
use academia_cr.ThreadPool
use academia_cr.ThreadPool.{
  ThreadPool, Worker, waiting, running, returned, thread_pool, enqueue, worker_pass, is_alive,
}
use academia_cr.ThreadPool.Execution.{pool-IsSound, joined_all_completed}
use academia_cr.Framing.{send_message, receive_message}
use academia_cr.Text
use academia_cr.Framing.Echo.{
  text_bytes, same_bytes, ends_session, handle_client, Plain, closes, sends, running_turns, echoes,
  answer_to, on_wire, welcome,
}
use academia_cr.Framing.Roundtrip.{receive-send}

-- One item, one producer and one consumer, before the start and at the end.
abbrev begin : Demo
begin = record {
  buffer = record { buffer = []; capacity = 1; done = false };
  next_item = 0;
  producers = fetching ∷ [];
  consumers = consuming ∷ [];
  consumed = [];
}

abbrev finished : Demo
finished = record {
  buffer = record { buffer = []; capacity = 1; done = true };
  next_item = 2;
  producers = stopped ∷ [];
  consumers = leaving ∷ [];
  consumed = 0 ∷ [];
}

-- The producer stops before the item is consumed.
whole_run : ProducerConsumer.Reach 1 (started 1 1 1) finished
unfolding started produce consume count_where
whole_run =
    ProducerConsumer.next
      (ProducerConsumer.next
        (ProducerConsumer.next
          (ProducerConsumer.next
            (ProducerConsumer.next
              (ProducerConsumer.next ProducerConsumer.here (fetch begin [] [] refl))
              (put _ [] [] 0 _ refl refl))
            (fetch _ [] [] refl))
          (finish _ refl refl))
        (get _ [] [] 0 _ refl refl))
      (leave _ [] [] 0 _ refl refl)

all_consumed_example :
    (length finished.consumed ≡ 1)
    × ((i : ℕ) → count_where (λ x. x == i) finished.consumed ≡ (if ltb i 1 then 1 else 0))
unfolding count_where
all_consumed_example = all_consumed 1 1 1 1 finished (omega arith) (omega arith) whole_run refl

-- The only consumer has found the buffer empty, and sleeps.
abbrev drowsy : Program
drowsy = record {
  buffer = record { buffer = []; capacity = 1; done = false };
  next_item = 0;
  producers = Waiting.fetching ∷ [];
  consumers = Waiting.asleep ∷ [];
  consumed = [];
}

run_to_drowsy : Leads 1 (launched 1 1 1) drowsy
unfolding launched repeat consume
run_to_drowsy = Waiting.next Waiting.here (Waiting.wait_not_empty (launched 1 1 1) [] [] refl refl)

no_deadlock_example : (e : Program) × Waiting.Move 1 drowsy e
unfolding count_where
no_deadlock_example = no_deadlock 1 1 1 1 drowsy (omega arith) run_to_drowsy (omega arith)

Step-remaining_work_example :
    remaining_work 1 (record begin { next_item = 1; producers = holding 0 ∷ [] })
    < remaining_work 1 begin
Step-remaining_work_example = Step-remaining_work 1 (fetch begin [] [] refl)

-- A pool of one worker that runs task 7 after a stop was asked for, and returns.
abbrev ended : ThreadPool
ended = record {
  tasks = [];
  stop = true;
  workers = returned ∷ [];
  accepted = 7 ∷ [];
  taken = 7 ∷ [];
  completed = 7 ∷ [];
}

pool_run : ThreadPool.Reach (thread_pool 1) ended
unfolding thread_pool enqueue worker_pass
pool_run =
    ThreadPool.next
      (ThreadPool.next
        (ThreadPool.next
          (ThreadPool.next (ThreadPool.next ThreadPool.here (ThreadPool.submit (thread_pool 1) 7))
            (ThreadPool.shut_down _))
          (ThreadPool.take _ [] [] 7 _ refl refl))
        (ThreadPool.complete _ [] [] 7 refl))
      (ThreadPool.quit _ [] [] refl refl)

pool-IsSound_example : ThreadPool.Execution.IsSound ended
pool-IsSound_example = pool-IsSound 1 ended pool_run

joined_all_completed_example :
    (ended.taken ≡ ended.accepted)
    × ((i : ℕ)
        → count_where (λ x. x == i) ended.completed ≡ count_where (λ x. x == i) ended.accepted)
unfolding count_where
joined_all_completed_example = joined_all_completed 1 ended pool_run refl

-- "quit" in two pieces, with the start of another message behind it.
receive-send_example :
    ((receive_message (9 ∷ 9 ∷ 9 ∷ 9 ∷ []) (record {
      incoming = (0 ∷ 0 ∷ 0 ∷ 4 ∷ 113 ∷ 117 ∷ 105 ∷ 116 ∷ []) ++ 0 ∷ 0 ∷ [];
      cuts = 7 ∷ 1 ∷ [];
    })).0
      ≡ 113 ∷ 117 ∷ 105 ∷ 116 ∷ [])
    × ((receive_message (9 ∷ 9 ∷ 9 ∷ 9 ∷ []) (record {
      incoming = (0 ∷ 0 ∷ 0 ∷ 4 ∷ 113 ∷ 117 ∷ 105 ∷ 116 ∷ []) ++ 0 ∷ 0 ∷ [];
      cuts = 7 ∷ 1 ∷ [];
    })).1.incoming
        ≡ 0 ∷ 0 ∷ [])
unfolding send_message
receive-send_example =
    receive-send (9 ∷ 9 ∷ 9 ∷ 9 ∷ []) (113 ∷ 117 ∷ 105 ∷ 116 ∷ [])
      (0 ∷ 0 ∷ 0 ∷ 4 ∷ 113 ∷ 117 ∷ 105 ∷ 116 ∷ []) (0 ∷ 0 ∷ []) (7 ∷ 1 ∷ []) (omega arith) refl refl

-- "hi", of two bytes
greeting-Plain : Plain (104 ∷ 105 ∷ []) (0 ∷ 0 ∷ 0 ∷ 2 ∷ 104 ∷ 105 ∷ [])
unfolding ends_session text_bytes same_bytes send_message Text.to_string
greeting-Plain = record { small = omega arith; answered = omega arith; goes_on = refl; sent = refl }

echoes_example :
    handle_client
      (running_turns ([] ∷ [] ∷ []))
      (record { incoming = (0 ∷ 0 ∷ 0 ∷ 2 ∷ 104 ∷ 105 ∷ []) ++ []; cuts = [] })
    ≡ on_wire (text_bytes welcome) ∷ map (λ msg. on_wire (answer_to msg)) ((104 ∷ 105 ∷ []) ∷ [])
echoes_example =
    echoes ([] ∷ [] ∷ []) ((104 ∷ 105 ∷ []) ∷ []) ((0 ∷ 0 ∷ 0 ∷ 2 ∷ 104 ∷ 105 ∷ []) ++ []) refl
      (sends (104 ∷ 105 ∷ []) (0 ∷ 0 ∷ 0 ∷ 2 ∷ 104 ∷ 105 ∷ []) [] [] greeting-Plain closes)
