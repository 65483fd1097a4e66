-- ===== src/ThreadPool/Sections.antt =====
-- src/thread/threadpool.c: what each section does to the queue of the pool.
use adrift.Base.{
  ℕ, suc, ◌+◌, ◌-◌, ◌*◌, ◌%◌, ◌<◌, ◌≡◌, ◌≢◌, refl, inl, inr, [], ◌∷◌, ◌++◌, Bool, true, false, ◌&&◌,
  arith, update, ◌==◌, Bool-cases, ltb, lt→ltb, ok, if◌then◌else◌,
}
use adrift.ThreadPool.{
  Task, ThreadPool, Adding, full, refused, added, add_task, thread_pool_add, Taking, waits, leaves,
  closes, takes, pop_task, take_task, wake_up, start_working, end_working, thread_exit, add_threads,
  dismiss_threads,
}
use adrift.ThreadPool.Steps.{pool_of, tasks_of}
use adrift.ThreadPool.Ring.{
  Ringed, queued, window-snoc, next-lt, Behind-next_front, Behind-next_rear, Behind-pred,
  window-head,
}

-- A section of `threadPoolAdd` puts its task behind the others.
abbrev pub Appends : ThreadPool → Task → Adding → Type 0
Appends p task full = Unit
Appends p task refused = Unit
Appends p task (added p') = Ringed p' × (queued p' ≡ queued p ++ task ∷ [])

-- A worker's section takes a task from the front, or none.
abbrev pub Removes : ThreadPool → Taking → Type 0
Removes p r = Ringed (pool_of r) × (queued p ≡ tasks_of r ++ queued (pool_of r))

pub add_task-works :
    (task : Task) (p : ThreadPool)
    → Ringed p
    → p.queue_size < p.queue_capacity
    → (r : Adding) × (add_task task p ≡ ok r) × Appends p task r
unfolding add_task
add_task-works task p i room =
    let rear = i.rear_low (omega arith) in
    let front = i.front_low (omega arith) in
    (
      added (record p {
        task_q = update p.task_q p.queue_rear task;
        queue_rear = (p.queue_rear + 1) % p.queue_capacity;
        queue_size = suc p.queue_size;
      }),
      rw (lt→ltb p.queue_rear p.queue_capacity rear) refl,
      (
        record {
          few = omega arith;
          front_low = λ h. front;
          rear_low = λ h. next-lt rear;
          behind = Behind-next_rear front rear i.behind room;
        },
        window-snoc p.task_q p.queue_capacity task p.queue_size p.queue_front p.queue_rear front
            rear room i.behind,
      ),
    )

pub add-works :
    (task : Task) (p : ThreadPool)
    → Ringed p
    → (r : Adding) × (thread_pool_add task p ≡ ok r) × Appends p task r
unfolding thread_pool_add
add-works task p i = elim (Bool-cases (p.queue_size == p.queue_capacity)) [
  | inl e ↦ elim (Bool-cases p.shutdown) [
    | inl down ↦ (refused, rw (e, down) refl, tt)
    | inr up ↦ (full, rw (e, up) refl, tt)
  ]
  | inr e ↦ elim (Bool-cases p.shutdown) [
    | inl down ↦ (refused, rw (e, down) refl, tt)
    | inr up ↦
        let room : p.queue_size < p.queue_capacity = not_full e in
        let (r, ran, good) = add_task-works task p i room in (r, simp (e, up) ran, good)
  ]
]
  where
    not_full : p.queue_size == p.queue_capacity ≡ false → p.queue_size < p.queue_capacity
    not_full e = let few = i.few in ground arith

pub pop_task-works :
    (p : ThreadPool)
    → Ringed p
    → p.queue_size ≢ 0
    → (r : Taking) × (pop_task p ≡ ok r) × Removes p r
unfolding pop_task
pop_task-works p i some =
    let few = i.few in
    let rear = i.rear_low (omega arith) in
    let front = i.front_low (omega arith) in
    (
      takes (p.task_q p.queue_front) (record p {
        queue_front = (p.queue_front + 1) % p.queue_capacity;
        queue_size = p.queue_size - 1;
      }),
      rw (lt→ltb p.queue_front p.queue_capacity front) refl,
      (
        record {
          few = omega arith;
          front_low = λ h. next-lt front;
          rear_low = λ h. rear;
          behind = Behind-next_front front rear (Behind-pred _ _ _ _ some i.behind) (omega arith);
        },
        window-head p.task_q p.queue_capacity p.queue_front p.queue_size some,
      ),
    )

pub take-works : (p : ThreadPool) → Ringed p → (r : Taking) × (take_task p ≡ ok r) × Removes p r
unfolding take_task
take-works p i = elim (Bool-cases (p.queue_size == 0)) [
  | inl e ↦ elim (Bool-cases p.shutdown) [
    | inl down ↦ (closes p, rw (e, down) refl, (i, refl))
    | inr up ↦ (waits p, rw (e, up) refl, (i, refl))
  ]
  | inr e ↦ elim (Bool-cases p.shutdown) [
    | inl down ↦ (closes p, rw (e, down) refl, (i, refl))
    | inr up ↦ let (r, ran, good) = pop_task-works p i (ground arith) in (r, simp (e, up) ran, good)
  ]
]

pub wake-works : (p : ThreadPool) → Ringed p → (r : Taking) × (wake_up p ≡ ok r) × Removes p r
unfolding wake_up
wake-works p i =
    let asked : ThreadPool = record p { exit_num = p.exit_num - 1 } in
    elim (Bool-cases (ltb 0 p.exit_num)) [
      | inl e ↦ elim (Bool-cases (ltb p.min_num p.live_num)) [
        | inl m ↦ (leaves (record asked { live_num = p.live_num - 1 }), rw (e, m) refl, (i, refl))
        | inr m ↦ let (r, ran, good) = take-works asked i in (r, simp (e, m) ran, good)
      ]
      | inr e ↦ let (r, ran, good) = take-works p i in (r, simp e ran, good)
    ]

-- The queue of another pool is the same.
abbrev pub Kept : ThreadPool → ThreadPool → Type 0
Kept p p' = Ringed p → Ringed p' × (queued p ≡ queued p')

pub if-Kept : (b : Bool) (p p' : ThreadPool) → Kept p p' → Kept p (if b then p' else p)
if-Kept true p p' k i = k i
if-Kept false p p' k i = (i, refl)

pub if-Kept_pair :
    (b : Bool) (p p' : ThreadPool) (n m : ℕ)
    → Kept p p'
    → Kept p (if◌then◌else◌ {A = ThreadPool × ℕ} b (p', n) (p, m)).0
if-Kept_pair true p p' n m k i = k i
if-Kept_pair false p p' n m k i = (i, refl)

pub add_threads-Kept :
    (fresh : ℕ → ℕ) (q l : ℕ) (p : ThreadPool) → Kept p (add_threads fresh q l p).0
unfolding add_threads
add_threads-Kept fresh q l p = if-Kept_pair (ltb l q && ltb l p.max_num) p _ _ 0 (λ i. (i, refl))

pub dismiss_threads-Kept : (b l : ℕ) (p : ThreadPool) → Kept p (dismiss_threads b l p)
unfolding dismiss_threads
dismiss_threads-Kept b l p = if-Kept (ltb (b * 2) l && ltb p.min_num l) p _ (λ i. (i, refl))

pub thread_exit-Kept : (tid : ℕ) (p : ThreadPool) → Kept p (thread_exit tid p)
unfolding thread_exit
thread_exit-Kept tid p i = (i, refl)

pub start_working-Kept : (p : ThreadPool) → Kept p (start_working p)
unfolding start_working
start_working-Kept p i = (i, refl)

pub end_working-Kept : (p : ThreadPool) → Kept p (end_working p)
unfolding end_working
end_working-Kept p i = (i, refl)
