-- ===== src/ThreadPool.antt =====
-- backend/include/concurrency/ThreadPool.hpp: the pool as a step relation. A step is what a thread does
-- while it holds queue_mutex_, or the end of a task. Tasks are numbered by the caller; a future is
-- ready when its task has ended, so futures are the list `completed`.
pub mod Execution
use academia_cr.Prelude.{
  ℕ, zero, suc, ◌≡◌, Bool, true, false, Option, none, some, List, [], ◌∷◌, ◌++◌, if◌then◌else◌,
  ◌&&◌, not, String,
}
use academia_cr.Database.{Result, ok, throw}

-- Where a worker stands: before the lock of worker_loop, in task(), or after its return.
pub data Worker : Type 0 where
  waiting : Worker
  running : ℕ → Worker
  returned : Worker

-- class ThreadPool; `accepted`, `taken` and `completed` record the tasks that enqueue accepted, that
-- workers took from the queue and that have ended, in order.
pub record ThreadPool : Type 0 where
  pub tasks : List ℕ
  pub stop : Bool
  pub workers : List Worker
  pub accepted : List ℕ
  pub taken : List ℕ
  pub completed : List ℕ

repeat : ℕ → List Worker
repeat zero = []
repeat (suc n) = waiting ∷ repeat n

-- the fallback of the constructor
abbrev pub num_workers : ℕ → ℕ
num_workers zero = 4
num_workers (suc n) = suc n

-- ThreadPool::ThreadPool
unfoldable pub thread_pool : ℕ → ThreadPool
unfolding repeat
thread_pool num_threads = record {
  tasks = [];
  stop = false;
  workers = repeat (num_workers num_threads);
  accepted = [];
  taken = [];
  completed = [];
}

-- ThreadPool::enqueue
unfoldable pub enqueue : ℕ → ThreadPool → Result (Unit {0}) × ThreadPool
enqueue task p =
    if p.stop
    then (throw "enqueue on stopped ThreadPool", p)
    else (ok tt, record p { tasks = p.tasks ++ task ∷ []; accepted = p.accepted ++ task ∷ [] })

-- What a pass through worker_loop's critical section leads to: the worker waits on, returns, or has
-- taken a task.
pub data Pass : Type 0 where
  waits returns : Pass
  takes : ℕ → ThreadPool → Pass

-- the critical section of ThreadPool::worker_loop
unfoldable pub worker_pass : ThreadPool → Pass
worker_pass p = elim p.tasks [
  | [] ↦ if p.stop then returns else waits
  | task ∷ rest ↦ takes task (record p { tasks = rest; taken = p.taken ++ task ∷ [] })
]

-- the critical section of ThreadPool::~ThreadPool
abbrev pub request_stop : ThreadPool → ThreadPool
request_stop p = record p { stop = true }

-- One step of a caller of enqueue, of a worker, or of the destructor.
pub data Step : ThreadPool → ThreadPool → Type 0 where
  submit : (p : ThreadPool) (task : ℕ) → Step p (enqueue task p).1
  take :
      (p : ThreadPool) (front back : List Worker) (task : ℕ) (q : ThreadPool)
      → p.workers ≡ front ++ waiting ∷ back
      → worker_pass p ≡ takes task q
      → Step p (record q { workers = front ++ running task ∷ back })
  complete :
      (p : ThreadPool) (front back : List Worker) (task : ℕ)
      → p.workers ≡ front ++ running task ∷ back
      → Step p
          (record p { workers = front ++ waiting ∷ back; completed = p.completed ++ task ∷ [] })
  quit :
      (p : ThreadPool) (front back : List Worker)
      → p.workers ≡ front ++ waiting ∷ back
      → worker_pass p ≡ returns
      → Step p (record p { workers = front ++ returned ∷ back })
  shut_down : (p : ThreadPool) → Step p (request_stop p)

-- The states that can come about from `s`.
pub data Reach (s : ThreadPool) : ThreadPool → Type 0 where
  here : Reach s s
  next : {p q : ThreadPool} → Reach s p → Step p q → Reach s q

abbrev pub is_alive : Worker → Bool
is_alive returned = false
is_alive _ = true
