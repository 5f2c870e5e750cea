-- ===== src/ProducerConsumer/Progress.antt =====
-- Every step of the producer-consumer program brings its end nearer.
use academia_cr.Prelude.{
  ℕ, ◌+◌, ◌*◌, ◌-◌, ◌<◌, [], ◌∷◌, arith, if◌then◌else◌, length, length-append, count_where,
}
use academia_cr.Prelude.Threads.{count_where-moves}
use academia_cr.ProducerConsumer.{
  produce, consume, fetching, holding, consuming, leaving, Demo, fetched, is_running, is_consuming,
  Step, fetch, put, get, leave, finish,
}
use academia_cr.ProducerConsumer.Delivery.{is_holding}

-- What is still to be done: the steps of each item, the ends of the threads, and mark_done.
unfoldable pub remaining_work : ℕ → Demo → ℕ
remaining_work total d =
    4 * (total - d.next_item)
    + (3 * count_where is_holding d.producers
        + (2 * length d.buffer.buffer
            + (count_where is_running d.producers
                + (count_where is_consuming d.consumers + (if d.buffer.done then 0 else 1)))))

-- Every step of the producer-consumer program leaves less to be done, so that no run of it goes on
-- for ever.
pub Step-remaining_work :
    (total : ℕ) {d e : Demo} → Step total d e → remaining_work total e < remaining_work total d
unfolding remaining_work produce consume
Step-remaining_work total (fetch d front back h) = ground (
  arith,
  count_where-moves is_holding front back d.producers fetching (fetched total d.next_item) h,
  count_where-moves is_running front back d.producers fetching (fetched total d.next_item) h,
)
Step-remaining_work total (put d front back item b h k) = ground (
  arith,
  count_where-moves is_holding front back d.producers (holding item) fetching h,
  count_where-moves is_running front back d.producers (holding item) fetching h,
  length-append d.buffer.buffer (item ∷ []),
)
Step-remaining_work total (get d front back item b h k) = ground (arith, k)
Step-remaining_work total (leave d front back n b h k) =
    ground (arith, k, count_where-moves is_consuming front back d.consumers consuming leaving h)
Step-remaining_work total (finish d o h) = ground (arith, o)
