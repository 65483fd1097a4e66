-- ===== src/ThreadPool/Effects.antt =====
-- src/thread/threadpool.c: what each section does to the counters of the pool.
use adrift.Base.{
  ℕ, ◌+◌, ◌-◌, ◌*◌, ◌≤◌, ◌<◌, ◌≡◌, refl, List, [], ◌∷◌, Bool, true, false, ◌&&◌, not, arith, ◌==◌,
  ltb, ltb→lt, ok, if◌then◌else◌, Always, Always-weaken, if-Always,
}
use adrift.ThreadPool.{
  Task, ThreadPool, number, Adding, full, refused, added, add_task, thread_pool_add, Taking, leaves,
  pop_task, take_task, wake_up, start_working, end_working, thread_exit, create_more, add_threads,
  dismiss_threads,
}
use adrift.ThreadPool.Steps.{pool_of, phase_of}
use adrift.ThreadPool.Census.{is_busy, is_live}

-- The counters are the same.
pub record Same (p p' : ThreadPool) : Type 0 where
  pub busy : p'.busy_num ≡ p.busy_num
  pub live : p'.live_num ≡ p.live_num
  pub min : p'.min_num ≡ p.min_num
  pub max : p'.max_num ≡ p.max_num

pub Same-refl : (p : ThreadPool) → Same p p
Same-refl p = record { busy = refl; live = refl; min = refl; max = refl }

-- A worker's section counts its own thread out, or leaves the counters.
pub record Counted (p : ThreadPool) (r : Taking) : Type 0 where
  pub busy : (pool_of r).busy_num ≡ p.busy_num
  pub idle : is_busy (phase_of r) ≡ 0
  pub live : (pool_of r).live_num + 1 ≡ p.live_num + is_live (phase_of r)
  pub min : (pool_of r).min_num ≡ p.min_num
  pub max : (pool_of r).max_num ≡ p.max_num
  pub low : p.min_num ≤ p.live_num → p.min_num ≤ (pool_of r).live_num

abbrev pub Uncounted : ThreadPool → Adding → Type 0
Uncounted p full = Unit
Uncounted p refused = Unit
Uncounted p (added p') = Same p p'

pub thread_pool_add-Uncounted :
    (task : Task) (p : ThreadPool) → Always (Uncounted p) (thread_pool_add task p)
unfolding thread_pool_add add_task
thread_pool_add-Uncounted task p =
    if-Always (Uncounted p) (p.queue_size == p.queue_capacity && not p.shutdown) _ _ tt (
      if-Always (Uncounted p) p.shutdown _ _ tt (
        if-Always (Uncounted p) (ltb p.queue_rear p.queue_capacity) _ _
          (record { busy = refl; live = refl; min = refl; max = refl }) tt))

pub take_task-Counted : (p : ThreadPool) → Always (Counted p) (take_task p)
unfolding take_task pop_task
take_task-Counted p =
    if-Always (Counted p) (p.queue_size == 0 && not p.shutdown) _ _
      (record { busy = refl; idle = refl; live = refl; min = refl; max = refl; low = λ h. h })
      (if-Always (Counted p) p.shutdown _ _
        (record { busy = refl; idle = refl; live = refl; min = refl; max = refl; low = λ h. h })
        (if-Always (Counted p) (ltb p.queue_front p.queue_capacity) _ _
          (record { busy = refl; idle = refl; live = refl; min = refl; max = refl; low = λ h. h })
          tt))

pub wake_up-Counted : (p : ThreadPool) → Always (Counted p) (wake_up p)
unfolding wake_up
wake_up-Counted p =
    let asked : ThreadPool = record p { exit_num = p.exit_num - 1 } in
    if-Always (Counted p) (not (ltb 0 p.exit_num)) _ _ (take_task-Counted p)
      (go (ltb p.min_num p.live_num) refl)
  where
    go :
        (b : Bool)
        → ltb p.min_num p.live_num ≡ b
        → Always (Counted p) (
            if b
            then ok (leaves (record p { exit_num = p.exit_num - 1; live_num = p.live_num - 1 }))
            else take_task (record p { exit_num = p.exit_num - 1 }))
    go true e =
        let more : p.min_num < p.live_num = ltb→lt p.min_num p.live_num e in
        record {
          busy = refl;
          idle = refl;
          live = omega arith;
          min = refl;
          max = refl;
          low = λ h. omega arith;
        }
    go false e =
        Always-weaken (Counted (record p { exit_num = p.exit_num - 1 })) (Counted p) _
          (λ r h. record {
            busy = h.busy;
            idle = h.idle;
            live = h.live;
            min = h.min;
            max = h.max;
            low = h.low;
          })
          (take_task-Counted (record p { exit_num = p.exit_num - 1 }))

-- The loop creates threads up to the maximum.
pub create_more-le :
    (fresh : ℕ → ℕ) (max counter live : ℕ) (ids : List ℕ)
    → live ≤ max
    → (counter ≤ (create_more fresh max counter live ids).1)
      × (live + (create_more fresh max counter live ids).1 ≤ max + counter)
unfolding create_more
create_more-le fresh max counter live [] low = (omega arith, omega arith)
create_more-le fresh max counter live (id ∷ ids) low =
    go (ltb counter number && ltb live max && (id == 0)) refl
      (λ c l. create_more-le fresh max c l ids)
  where
    go :
        (b : Bool)
        → ltb counter number && ltb live max && (id == 0) ≡ b
        → ((c l : ℕ)
            → l ≤ max
            → (c ≤ (create_more fresh max c l ids).1)
              × (l + (create_more fresh max c l ids).1 ≤ max + c))
        → (counter
            ≤ (create_more fresh max
                (counter + (if b then 1 else 0))
                (live + (if b then 1 else 0))
                ids).1)
          × (live
                + (create_more fresh max
                    (counter + (if b then 1 else 0))
                    (live + (if b then 1 else 0))
                    ids).1
              ≤ max + counter)
    go true e rest =
        let room : live < max = ground arith in
        let (up, le) = rest (counter + 1) (live + 1) (omega arith) in (omega arith, omega arith)
    go false e rest =
        let (up, le) = rest (counter + 0) (live + 0) (omega arith) in (omega arith, omega arith)

-- The manager's threads are counted.
pub record Grown (p p' : ThreadPool) (n : ℕ) : Type 0 where
  pub busy : p'.busy_num ≡ p.busy_num
  pub live : p'.live_num ≡ n + p.live_num
  pub min : p'.min_num ≡ p.min_num
  pub max : p'.max_num ≡ p.max_num
  pub high : p'.live_num ≤ p'.max_num

pub if-Grown :
    (b : Bool) (p p' : ThreadPool) (n : ℕ)
    → Grown p p' n
    → p.live_num ≤ p.max_num
    → Grown p
        (if◌then◌else◌ {A = ThreadPool × ℕ} b (p', n) (p, 0)).0
        (if◌then◌else◌ {A = ThreadPool × ℕ} b (p', n) (p, 0)).1
if-Grown true p p' n g high = g
if-Grown false p p' n g high = record {
  busy = refl;
  live = omega arith;
  min = refl;
  max = refl;
  high = high;
}

pub add_threads-Grown :
    (fresh : ℕ → ℕ) (q l : ℕ) (p : ThreadPool)
    → p.live_num ≤ p.max_num
    → Grown p (add_threads fresh q l p).0 (add_threads fresh q l p).1
unfolding add_threads
add_threads-Grown fresh q l p high =
    let made = create_more-le fresh p.max_num 0 p.live_num p.thread_ids high in
    if-Grown (ltb l q && ltb l p.max_num) p _ _
      (record {
        busy = refl;
        live = omega arith;
        min = refl;
        max = refl;
        high = omega (arith, made.1);
      })
      high

pub if-Same : (b : Bool) (p p' : ThreadPool) → Same p p' → Same p (if b then p' else p)
if-Same true p p' h = h
if-Same false p p' h = Same-refl p

pub dismiss_threads-Same : (b l : ℕ) (p : ThreadPool) → Same p (dismiss_threads b l p)
unfolding dismiss_threads
dismiss_threads-Same b l p =
    if-Same (ltb (b * 2) l && ltb p.min_num l) p _
      (record { busy = refl; live = refl; min = refl; max = refl })

pub thread_exit-Same : (tid : ℕ) (p : ThreadPool) → Same p (thread_exit tid p)
unfolding thread_exit
thread_exit-Same tid p = record { busy = refl; live = refl; min = refl; max = refl }

-- All of them but `busyNum` are the same.
pub record Kept (p p' : ThreadPool) : Type 0 where
  pub live : p'.live_num ≡ p.live_num
  pub min : p'.min_num ≡ p.min_num
  pub max : p'.max_num ≡ p.max_num

pub Same-Kept : {p p' : ThreadPool} → Same p p' → Kept p p'
Same-Kept k = record { live = k.live; min = k.min; max = k.max }

pub start_working-busy :
    (p : ThreadPool) (n : ℕ) → p.busy_num ≡ 0 + n → (start_working p).busy_num ≡ 1 + n
unfolding start_working
start_working-busy p n e = omega arith

pub end_working-busy :
    (p : ThreadPool) (n : ℕ) → p.busy_num ≡ 1 + n → (end_working p).busy_num ≡ 0 + n
unfolding end_working
end_working-busy p n e = omega arith

pub start_working-Kept : (p : ThreadPool) → Kept p (start_working p)
unfolding start_working
start_working-Kept p = record { live = refl; min = refl; max = refl }

pub end_working-Kept : (p : ThreadPool) → Kept p (end_working p)
unfolding end_working
end_working-Kept p = record { live = refl; min = refl; max = refl }
