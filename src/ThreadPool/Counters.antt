-- ===== src/ThreadPool/Counters.antt =====
-- src/thread/threadpool.c: what `busyNum` and `liveNum` count.
use adrift.Base.{
  ℕ, ◌+◌, ◌≤◌, ◌≡◌, refl, sym, ap, ◌∙◌, List, [], ◌∷◌, ◌++◌, append-nil, arith, ok, ok-injective,
  subst, replicate, >>=-parts, Always-ok,
}
use adrift.ThreadPool.{
  Task, ThreadPool, thread_pool_create, create_first, added, thread_pool_add, Taking, take_task,
  wake_up, start_working, end_working, thread_exit, add_threads, dismiss_threads,
  thread_pool_busy_num, thread_pool_live_num,
}
use adrift.ThreadPool.Steps.{
  Phase, looping, waiting, holding, working, leaving, closing, closed, Worker, System, Step, Reach,
  adds, enters, wakes, starts, ends, exits, closes_down, naps, counts, samples, grows, dismisses,
  shuts, start, later, phase_of, new_workers, after,
}
use adrift.ThreadPool.Census.{
  is_busy, is_live, is_live-le, count, count-middle, busy-new_workers, live-new_workers,
}
use adrift.ThreadPool.Effects.{
  Same, Counted, Uncounted, thread_pool_add-Uncounted, take_task-Counted, wake_up-Counted, Grown,
  add_threads-Grown, dismiss_threads-Same, thread_exit-Same, Kept, Same-Kept, start_working-busy,
  end_working-busy, start_working-Kept, end_working-Kept,
}

record Counts (p : ThreadPool) (ws : List Worker) : Type 0 where
  busy : p.busy_num ≡ count is_busy ws
  live : p.live_num ≡ count is_live ws
  low : p.min_num ≤ p.live_num
  high : p.live_num ≤ p.max_num

abbrev Inv : System → Type 0
Inv s = Counts s.pool s.workers

-- One worker goes from one place to another.
split-count :
    (f : Phase → ℕ) (s : System) (xs ys : List Worker) (w : Worker)
    → s.workers ≡ xs ++ w ∷ ys
    → count f s.workers ≡ f w.phase + count f (xs ++ ys)
split-count f s xs ys w split = ap (count f) split ∙ count-middle f xs ys w

-- A worker's section, from a place that is counted and not busy.
ran-Inv :
    (s : System) (xs ys : List Worker) (w : Worker) (r : Taking)
    → s.workers ≡ xs ++ w ∷ ys
    → is_busy w.phase ≡ 0
    → is_live w.phase ≡ 1
    → Counted s.pool r
    → Inv s
    → Inv (after s xs w.tid r ys)
ran-Inv s xs ys w r split quiet alive c inv =
    let now : Worker = record { tid = w.tid; phase = phase_of r } in
    record {
      busy = omega (
        arith,
        inv.busy,
        c.busy,
        c.idle,
        split-count is_busy s xs ys w split,
        count-middle is_busy xs ys now,
      );
      live = omega (
        arith,
        inv.live,
        c.live,
        split-count is_live s xs ys w split,
        count-middle is_live xs ys now,
      );
      low = omega (arith, c.min, c.low inv.low);
      high = omega (arith, inv.high, c.live, c.max, is_live-le (phase_of r));
    }

Same-Inv : (s : System) (p : ThreadPool) → Same s.pool p → Inv s → Inv (record s { pool = p })
Same-Inv s p k inv = record {
  busy = k.busy ∙ inv.busy;
  live = k.live ∙ inv.live;
  low = omega (arith, k.min, k.live, inv.low);
  high = omega (arith, k.max, k.live, inv.high);
}

-- A worker that moves and changes `busyNum` alike.
moved-Inv :
    (s : System) (xs ys : List Worker) (w w' : Worker) (p : ThreadPool)
    → s.workers ≡ xs ++ w ∷ ys
    → is_live w.phase ≡ is_live w'.phase
    → Kept s.pool p
    → (s.pool.busy_num ≡ is_busy w.phase + count is_busy (xs ++ ys)
        → p.busy_num ≡ is_busy w'.phase + count is_busy (xs ++ ys))
    → Inv s
    → Inv (record s { pool = p; workers = xs ++ w' ∷ ys })
moved-Inv s xs ys w w' p split alive k busy inv = record {
  busy =
      busy (inv.busy ∙ split-count is_busy s xs ys w split) ∙ sym (count-middle is_busy xs ys w');
  live = omega (
    arith,
    inv.live,
    k.live,
    alive,
    split-count is_live s xs ys w split,
    count-middle is_live xs ys w',
  );
  low = omega (arith, inv.low, k.live, k.min);
  high = omega (arith, inv.high, k.live, k.max);
}

left-Inv :
    (s : System) (xs ys : List Worker) (w : Worker)
    → s.workers ≡ xs ++ w ∷ ys
    → is_busy w.phase ≡ 0
    → is_live w.phase ≡ 0
    → Inv s
    → Inv (record s { workers = xs ++ ys })
left-Inv s xs ys w split quiet dead inv = record {
  busy = omega (arith, inv.busy, split-count is_busy s xs ys w split);
  live = omega (arith, inv.live, split-count is_live s xs ys w split);
  low = inv.low;
  high = inv.high;
}

Grown-Inv :
    (s : System) (fresh : ℕ → ℕ) (p : ThreadPool) (n : ℕ)
    → Grown s.pool p n
    → Inv s
    → Inv (record s { pool = p; workers = new_workers fresh 0 n ++ s.workers })
Grown-Inv s fresh p n g inv = record {
  busy = omega (arith, g.busy, inv.busy, busy-new_workers fresh 0 n s.workers);
  live = omega (arith, g.live, inv.live, live-new_workers fresh 0 n s.workers);
  low = omega (arith, g.live, g.min, inv.low);
  high = g.high;
}

Step-Inv : {s t : System} → Step s t → Inv s → Inv t
Step-Inv {s} (adds task pool ran) inv =
    Same-Inv s pool
      (Always-ok (Uncounted s.pool) (thread_pool_add task s.pool) (added pool) ran
        (thread_pool_add-Uncounted task s.pool))
      inv
Step-Inv {s} (enters xs ys tid r split ran) inv =
    ran-Inv s xs ys (record { tid = tid; phase = looping }) r split refl refl
      (Always-ok (Counted s.pool) (take_task s.pool) r ran (take_task-Counted s.pool)) inv
Step-Inv {s} (wakes xs ys tid r split ran) inv =
    ran-Inv s xs ys (record { tid = tid; phase = waiting }) r split refl refl
      (Always-ok (Counted s.pool) (wake_up s.pool) r ran (wake_up-Counted s.pool)) inv
Step-Inv {s} (starts xs ys tid task split) inv =
    moved-Inv s xs ys (record { tid = tid; phase = holding task })
      (record { tid = tid; phase = working task }) (start_working s.pool) split refl
      (start_working-Kept s.pool) (λ b. start_working-busy s.pool _ b) inv
Step-Inv {s} (ends xs ys tid task split) inv =
    moved-Inv s xs ys (record { tid = tid; phase = working task })
      (record { tid = tid; phase = looping }) (end_working s.pool) split refl
      (end_working-Kept s.pool) (λ b. end_working-busy s.pool _ b) inv
Step-Inv {s} (exits xs ys tid split) inv =
    left-Inv (record s { pool = thread_exit tid s.pool }) xs ys
      (record { tid = tid; phase = leaving }) split refl refl
      (Same-Inv s (thread_exit tid s.pool) (thread_exit-Same tid s.pool) inv)
Step-Inv {s} (closes_down xs ys tid split) inv =
    moved-Inv s xs ys (record { tid = tid; phase = closing }) (record { tid = tid; phase = closed })
      (thread_exit tid s.pool) split refl (Same-Kept (thread_exit-Same tid s.pool))
      (λ b. (thread_exit-Same tid s.pool).busy ∙ b) inv
Step-Inv (naps e up) inv = inv
Step-Inv (counts e) inv = inv
Step-Inv (samples q l e) inv = inv
Step-Inv {s} (grows fresh q l b e) inv =
    Grown-Inv s fresh (add_threads fresh q l s.pool).0 (add_threads fresh q l s.pool).1
      (add_threads-Grown fresh q l s.pool inv.high) inv
Step-Inv {s} (dismisses l b e) inv =
    Same-Inv s (dismiss_threads b l s.pool) (dismiss_threads-Same b l s.pool) inv
Step-Inv shuts inv = record { busy = inv.busy; live = inv.live; low = inv.low; high = inv.high }

created-Inv :
    (fresh : ℕ → ℕ) (tasks : ℕ → Task) (min max cap : ℕ) (p : ThreadPool)
    → min ≤ max
    → thread_pool_create fresh tasks min max cap ≡ ok p
    → Counts p (new_workers fresh 0 min ++ [])
unfolding thread_pool_create
created-Inv fresh tasks min max cap p low ran =
    let (ids, made, e) = >>=-parts (create_first fresh 0 min (replicate max 0)) p ran in
    subst (λ p. Counts p (new_workers fresh 0 min ++ [])) (ok-injective e)
      (record {
        busy = omega (arith, busy-new_workers fresh 0 min []);
        live = omega (arith, live-new_workers fresh 0 min []);
        low = omega arith;
        high = low;
      })

Reach-Inv : {s : System} → Reach s → Inv s
Reach-Inv (start fresh tasks min max cap pool low ran) =
    subst (Counts pool) (append-nil (new_workers fresh 0 min))
      (created-Inv fresh tasks min max cap pool low ran)
Reach-Inv (later r step) = Step-Inv step (Reach-Inv r)

-- In every state that adders, workers, the manager and a shutdown can reach from a pool created with
-- no more workers than its maximum, the two getters return the number of workers that are at a task and
-- the number of those that have not been dismissed, which is between the minimum and the
-- maximum of the pool.
pub counters_count :
    {s : System}
    → Reach s
    → (thread_pool_busy_num s.pool ≡ count is_busy s.workers)
      × (thread_pool_live_num s.pool ≡ count is_live s.workers)
      × (s.pool.min_num ≤ s.pool.live_num)
      × (s.pool.live_num ≤ s.pool.max_num)
counters_count reached = let inv = Reach-Inv reached in (inv.busy, inv.live, inv.low, inv.high)
