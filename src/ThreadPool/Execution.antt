-- ===== src/ThreadPool/Execution.antt =====
-- The thread pool takes its tasks in the order in which they were enqueued, loses none and runs none
-- twice.
use academia_cr.Prelude.{
  ℕ, zero, suc, ◌+◌, ◌≤◌, ◌≡◌, ◌∙◌, refl, sym, ap, subst, Bool, true, false, List, [], ◌∷◌, ◌++◌,
  arith, ◌==◌, length, length-append, count_where, Bool-cases, inl, inr,
}
use academia_cr.Prelude.Counting.{count_where-append}
use academia_cr.Prelude.Threads.{count_where-moves}
use academia_cr.ThreadPool.{
  Worker, waiting, running, returned, ThreadPool, repeat, num_workers, thread_pool, enqueue,
  returns, takes, worker_pass, Step, submit, take, complete, quit, shut_down, Reach, here, next,
  is_alive,
}

abbrev pub runs : ℕ → Worker → Bool
runs i (running task) = task == i
runs i _ = false

abbrev pub has_returned : Worker → Bool
has_returned returned = true
has_returned _ = false

abbrev times : ℕ → List ℕ → ℕ
times i xs = count_where (λ x. x == i) xs

append_assoc : (xs ys zs : List ℕ) → (xs ++ ys) ++ zs ≡ xs ++ (ys ++ zs)
append_assoc [] ys zs = refl
append_assoc (x ∷ xs) ys zs = ap (λ (l : List ℕ). x ∷ l) (append_assoc xs ys zs)

-- What the pool keeps: the queue is what is left of the accepted tasks, a task that was taken runs or
-- has ended, and a worker has returned only after a stop and with no task left.
pub record IsSound (p : ThreadPool) : Type 0 where
  pub order : p.accepted ≡ p.taken ++ p.tasks
  pub runs_once :
      (i : ℕ)
      → count_where (λ x. x == i) p.taken
        ≡ count_where (λ x. x == i) p.completed + count_where (runs i) p.workers
  pub quitting : 1 ≤ count_where has_returned p.workers → (p.stop ≡ true) × (length p.tasks ≡ 0)

no_items : (xs : List ℕ) → xs ++ [] ≡ xs
no_items [] = refl
no_items (x ∷ xs) = ap (λ (l : List ℕ). x ∷ l) (no_items xs)

-- What a worker that takes a task finds and leaves.
take_cases :
    (p q : ThreadPool) (task : ℕ)
    → worker_pass p ≡ takes task q
    → (rest : List ℕ) × (p.tasks ≡ task ∷ rest)
      × (q ≡ record p { tasks = rest; taken = p.taken ++ task ∷ [] })
unfolding worker_pass
take_cases p q task h = go p.tasks refl
  where
    go :
        (xs : List ℕ)
        → p.tasks ≡ xs
        → (rest : List ℕ) × (p.tasks ≡ task ∷ rest)
          × (q ≡ record p { tasks = rest; taken = p.taken ++ task ∷ [] })
    go [] k = absurd (ground (arith, h, k))
    go (x ∷ rest) k = (rest, ground (arith, h, k), ground (arith, h, k))

return_cases : (p : ThreadPool) → worker_pass p ≡ returns → (p.stop ≡ true) × (length p.tasks ≡ 0)
unfolding worker_pass
return_cases p h = ground (arith, h)

submit-IsSound : (p : ThreadPool) (task : ℕ) → IsSound p → IsSound (enqueue task p).1
unfolding enqueue
submit-IsSound p task v = elim (Bool-cases p.stop) [
  | inl halted ↦ subst IsSound (ground arith) v
  | inr going ↦
      let after : IsSound
          (record p { tasks = p.tasks ++ task ∷ []; accepted = p.accepted ++ task ∷ [] }) =
        record {
          order =
              ap (λ (l : List ℕ). l ++ task ∷ []) v.order
              ∙ append_assoc p.taken p.tasks (task ∷ []);
          runs_once = v.runs_once;
          quitting = λ h. absurd (ground (arith, v.quitting h));
        } in
      subst IsSound (ground arith) after
]

Step-IsSound : {p q : ThreadPool} → Step p q → IsSound p → IsSound q
unfolding count_where
Step-IsSound (submit p task) v = submit-IsSound p task v
Step-IsSound (take p front back task q h k) v =
    let found = take_cases p q task k in
    record {
      order =
          subst (λ (r : ThreadPool). r.accepted ≡ r.taken ++ r.tasks) (sym found.2)
            (v.order
              ∙ (ap (λ (l : List ℕ). p.taken ++ l) found.1
                  ∙ sym (append_assoc p.taken (task ∷ []) found.0)));
      runs_once = λ i. ground (
        arith,
        found.2,
        v.runs_once i,
        count_where-append (λ x. x == i) p.taken (task ∷ []),
        count_where-moves (runs i) front back p.workers waiting (running task) h,
      );
      quitting = λ e. absurd (
          ground (
            arith,
            found.1,
            v.quitting,
            count_where-moves has_returned front back p.workers waiting (running task) h,
          ));
    }
Step-IsSound (complete p front back task h) v = record {
  order = v.order;
  runs_once = λ i. ground (
    arith,
    v.runs_once i,
    count_where-append (λ x. x == i) p.completed (task ∷ []),
    count_where-moves (runs i) front back p.workers (running task) waiting h,
  );
  quitting = λ e. ground (
    arith,
    v.quitting,
    count_where-moves has_returned front back p.workers (running task) waiting h,
  );
}
Step-IsSound (quit p front back h k) v = record {
  order = v.order;
  runs_once = λ i.
      ground
        (arith, v.runs_once i, count_where-moves (runs i) front back p.workers waiting returned h);
  quitting = λ e. return_cases p k;
}
Step-IsSound (shut_down p) v = record {
  order = v.order;
  runs_once = v.runs_once;
  quitting = λ e. (refl, (v.quitting e).1);
}

none_waiting : (p : Worker → Bool) (n : ℕ) → p waiting ≡ false → count_where p (repeat n) ≡ 0
unfolding repeat count_where
none_waiting p zero h = refl
none_waiting p (suc n) h = ground (arith, none_waiting p n h)

thread_pool-IsSound : (n : ℕ) → IsSound (thread_pool n)
unfolding thread_pool count_where
thread_pool-IsSound n = record {
  order = refl;
  runs_once = λ i. ground (arith, none_waiting (runs i) (num_workers n) refl);
  quitting = λ h. absurd (ground (arith, none_waiting has_returned (num_workers n) refl));
}

-- In every state of a pool, the tasks that workers took are the first that enqueue accepted, in the
-- order in which it accepted them, and the queue is the rest; a task that was taken runs or has
-- ended, each as often as it was taken; and a worker returns only after a stop, with the queue
-- empty.
pub pool-IsSound : (n : ℕ) (p : ThreadPool) → Reach (thread_pool n) p → IsSound p
pool-IsSound n p here = thread_pool-IsSound n
pool-IsSound n q (next r s) = Step-IsSound s (pool-IsSound n _ r)

length-moves :
    (front back xs : List Worker) (x y : Worker)
    → xs ≡ front ++ x ∷ back
    → length (front ++ y ∷ back) ≡ length xs
length-moves front back xs x y h =
    omega (arith, ap length h, length-append front (x ∷ back), length-append front (y ∷ back))

Step-workers : {p q : ThreadPool} → Step p q → length q.workers ≡ length p.workers
unfolding enqueue
Step-workers (submit p task) = ground arith
Step-workers (take p front back task q h k) =
    length-moves front back p.workers waiting (running task) h
Step-workers (complete p front back task h) =
    length-moves front back p.workers (running task) waiting h
Step-workers (quit p front back h k) = length-moves front back p.workers waiting returned h
Step-workers (shut_down p) = refl

repeat-positive : (n : ℕ) → 1 ≤ length (repeat (num_workers n))
unfolding repeat
repeat-positive zero = omega arith
repeat-positive (suc n) = omega arith

Reach-workers : (n : ℕ) (p : ThreadPool) → Reach (thread_pool n) p → 1 ≤ length p.workers
unfolding thread_pool
Reach-workers n p here = repeat-positive n
Reach-workers n q (next r s) = omega (arith, Step-workers s, Reach-workers n _ r)

workers_split :
    (xs : List Worker) → length xs ≡ count_where is_alive xs + count_where has_returned xs
unfolding count_where
workers_split [] = refl
workers_split (waiting ∷ xs) = omega (arith, workers_split xs)
workers_split (running n ∷ xs) = omega (arith, workers_split xs)
workers_split (returned ∷ xs) = omega (arith, workers_split xs)

none_runs : (i : ℕ) (xs : List Worker) → count_where is_alive xs ≡ 0 → count_where (runs i) xs ≡ 0
unfolding count_where
none_runs i [] h = refl
none_runs i (waiting ∷ xs) h = absurd (omega (arith, h))
none_runs i (running n ∷ xs) h = absurd (omega (arith, h))
none_runs i (returned ∷ xs) h = omega (arith, none_runs i xs (omega (arith, h)))

-- Once the destructor has joined every worker, every task that enqueue accepted has been taken, in
-- the order of acceptance, and has ended exactly as often as it was accepted, and none is left.
pub joined_all_completed :
    (n : ℕ) (p : ThreadPool)
    → Reach (thread_pool n) p
    → count_where is_alive p.workers ≡ 0
    → (p.taken ≡ p.accepted)
      × ((i : ℕ) → count_where (λ x. x == i) p.completed ≡ count_where (λ x. x == i) p.accepted)
joined_all_completed n p r joined =
    let v = pool-IsSound n p r in
    let closed = v.quitting (omega (arith, workers_split p.workers, Reach-workers n p r)) in
    let same = taken_all p.tasks refl closed.1 v.order in
    (same, λ i. ground (arith, v.runs_once i, none_runs i p.workers joined, ap (times i) same))
  where
    taken_all :
        (xs : List ℕ)
        → p.tasks ≡ xs
        → length p.tasks ≡ 0
        → p.accepted ≡ p.taken ++ p.tasks
        → p.taken ≡ p.accepted
    taken_all [] h k o = sym (o ∙ (ap (λ (l : List ℕ). p.taken ++ l) h ∙ no_items p.taken))
    taken_all (x ∷ xs) h k o = absurd (ground (arith, h, k))
