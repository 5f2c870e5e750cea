-- ===== src/ProducerConsumer/Waiting/Refinement.antt =====
-- What the producer-consumer program does with its notifications, seen without who sleeps: a run of
-- the step relation in which a wait is no step.
use academia_cr.Prelude.{map}
use academia_cr.ProducerConsumer
use academia_cr.ProducerConsumer.{Demo, Step, produce, consume}
use academia_cr.ProducerConsumer.Waiting.{
  Producer, fetching, holding, asleep_with, stopped, Consumer, consuming, asleep, leaving, Program,
}

-- A producer asleep still has its item.
abbrev pub producer_of : Producer → ProducerConsumer.Producer
producer_of fetching = ProducerConsumer.fetching
producer_of (holding item) = ProducerConsumer.holding item
producer_of (asleep_with item) = ProducerConsumer.holding item
producer_of stopped = ProducerConsumer.stopped

abbrev pub consumer_of : Consumer → ProducerConsumer.Consumer
consumer_of consuming = ProducerConsumer.consuming
consumer_of asleep = ProducerConsumer.consuming
consumer_of leaving = ProducerConsumer.leaving

-- A state without who sleeps.
abbrev pub without_sleep : Program → Demo
without_sleep d = record {
  buffer = d.buffer;
  next_item = d.next_item;
  producers = map producer_of d.producers;
  consumers = map consumer_of d.consumers;
  consumed = d.consumed;
}
