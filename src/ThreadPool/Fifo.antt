-- ===== src/ThreadPool/Fifo.antt =====
-- src/thread/threadpool.c: the queue of a pool is first in, first out, whatever its threads do.
use adrift.Base.{
  ℕ, ◌≤◌, ◌≡◌, refl, sym, ap, ◌∙◌, inl, [], ◌∷◌, ◌++◌, append_assoc, arith, ok, Run, ok-injective,
  subst, replicate, >>=-parts,
}
use adrift.ThreadPool.{
  Task, ThreadPool, thread_pool_create, create_first, Adding, added, thread_pool_add, Taking,
  take_task, wake_up, start_working, end_working, thread_exit, add_threads, dismiss_threads,
}
use adrift.ThreadPool.Steps.{
  System, Step, Reach, adds, enters, wakes, starts, ends, exits, closes_down, naps, counts, samples,
  grows, dismisses, shuts, start, later, pool_of, tasks_of,
}
use adrift.ThreadPool.Ring.{Ringed, queued}
use adrift.ThreadPool.Sections.{
  Appends, Removes, add-works, take-works, wake-works, Kept, add_threads-Kept, dismiss_threads-Kept,
  thread_exit-Kept, start_working-Kept, end_working-Kept,
}

record Inv (s : System) : Type 0 where
  ring : Ringed s.pool
  order : s.offered ≡ s.taken ++ queued s.pool

added-Inv :
    (s : System) (task : Task) (p : ThreadPool)
    → thread_pool_add task s.pool ≡ ok (added p)
    → Inv s
    → Ringed p × (s.offered ++ task ∷ [] ≡ s.taken ++ queued p)
added-Inv s task p ran inv =
    let (r, ran', good) = add-works task s.pool inv.ring in
    let (ring, order) = subst (Appends s.pool task) (ok-injective (sym ran' ∙ ran)) good in
    (ring, rw (inv.order, order) (append_assoc s.taken (queued s.pool) (task ∷ [])))

removed-Inv :
    (s : System) (r : Taking)
    → Removes s.pool r
    → Inv s
    → Ringed (pool_of r) × (s.offered ≡ (s.taken ++ tasks_of r) ++ queued (pool_of r))
removed-Inv s r (ring, order) inv =
    (ring, rw (inv.order, order) (sym (append_assoc s.taken (tasks_of r) (queued (pool_of r)))))

Kept-Inv :
    (s : System) (p : ThreadPool)
    → Kept s.pool p
    → Inv s
    → Ringed p × (s.offered ≡ s.taken ++ queued p)
Kept-Inv s p k inv =
    let (ring, same) = k inv.ring in (ring, inv.order ∙ ap (λ q. s.taken ++ q) same)

-- What a section that has run did, from what it does.
ran-Removes :
    (p : ThreadPool) (run : Run Taking) (r : Taking)
    → ((r' : Taking) × (run ≡ ok r') × Removes p r')
    → run ≡ ok r
    → Removes p r
ran-Removes p run r (r', ran', good) ran = subst (Removes p) (ok-injective (sym ran' ∙ ran)) good

both : {s : System} → Ringed s.pool × (s.offered ≡ s.taken ++ queued s.pool) → Inv s
both (r, o) = record { ring = r; order = o }

Step-Inv : {s t : System} → Step s t → Inv s → Inv t
Step-Inv {s} (adds task pool ran) inv = both (added-Inv s task pool ran inv)
Step-Inv {s} (enters xs ys tid r split ran) inv =
    both (
      removed-Inv s r (ran-Removes s.pool (take_task s.pool) r (take-works s.pool inv.ring) ran)
        inv)
Step-Inv {s} (wakes xs ys tid r split ran) inv =
    both
      (removed-Inv s r (ran-Removes s.pool (wake_up s.pool) r (wake-works s.pool inv.ring) ran) inv)
Step-Inv {s} (starts xs ys tid task split) inv =
    both (Kept-Inv s (start_working s.pool) (start_working-Kept s.pool) inv)
Step-Inv {s} (ends xs ys tid task split) inv =
    both (Kept-Inv s (end_working s.pool) (end_working-Kept s.pool) inv)
Step-Inv {s} (exits xs ys tid split) inv =
    both (Kept-Inv s (thread_exit tid s.pool) (thread_exit-Kept tid s.pool) inv)
Step-Inv {s} (closes_down xs ys tid split) inv =
    both (Kept-Inv s (thread_exit tid s.pool) (thread_exit-Kept tid s.pool) inv)
Step-Inv (naps e up) inv = both (inv.ring, inv.order)
Step-Inv (counts e) inv = both (inv.ring, inv.order)
Step-Inv (samples q l e) inv = both (inv.ring, inv.order)
Step-Inv {s} (grows fresh q l b e) inv =
    both (Kept-Inv s (add_threads fresh q l s.pool).0 (add_threads-Kept fresh q l s.pool) inv)
Step-Inv {s} (dismisses l b e) inv =
    both (Kept-Inv s (dismiss_threads b l s.pool) (dismiss_threads-Kept b l s.pool) inv)
Step-Inv shuts inv = both (inv.ring, inv.order)

created-Inv :
    (fresh : ℕ → ℕ) (tasks : ℕ → Task) (min max cap : ℕ) (p : ThreadPool)
    → thread_pool_create fresh tasks min max cap ≡ ok p
    → Ringed p × ([] ≡ queued p)
unfolding thread_pool_create
created-Inv fresh tasks min max cap p ran =
    let (ids, made, e) = >>=-parts (create_first fresh 0 min (replicate max 0)) p ran in
    subst (λ p. Ringed p × ([] ≡ queued p)) (ok-injective e)
      (record { few = omega arith; front_low = λ h. h; rear_low = λ h. h; behind = inl refl }, refl)

Reach-Inv : {s : System} → Reach s → Inv s
Reach-Inv (start fresh tasks min max cap pool low ran) =
    both (created-Inv fresh tasks min max cap pool ran)
Reach-Inv (later r step) = Step-Inv step (Reach-Inv r)

-- In every state that adders, workers, the manager and a shutdown can reach, the tasks added so far
-- are those that workers have taken, in the same order, and then those that the queue holds, which
-- are no more than its capacity; and each section of `threadPoolAdd` and of a worker, after a wait
-- or not, ends without an access outside the ring.
pub tasks_in_order :
    {s : System} (task : Task)
    → Reach s
    → (s.offered ≡ s.taken ++ queued s.pool)
      × (s.pool.queue_size ≤ s.pool.queue_capacity)
      × ((r : Adding) × (thread_pool_add task s.pool ≡ ok r))
      × ((r : Taking) × (take_task s.pool ≡ ok r))
      × ((r : Taking) × (wake_up s.pool ≡ ok r))
tasks_in_order {s} task reached =
    let inv = Reach-Inv reached in
    let (a, ran_a, _) = add-works task s.pool inv.ring in
    let (b, ran_b, _) = take-works s.pool inv.ring in
    let (c, ran_c, _) = wake-works s.pool inv.ring in
    (inv.order, inv.ring.few, (a, ran_a), (b, ran_b), (c, ran_c))
