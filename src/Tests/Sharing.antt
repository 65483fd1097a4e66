-- ===== src/Tests/Sharing.antt =====
-- src/protocol/cache.c: a schedule of two threads that use the cache, and the theorem at it.
use adrift.Base.{ℕ, zero, suc, ◌<◌, some, [], ◌∷◌, ◌++◌, All, ◌≡◌, true, refl, ok, arith}
use adrift.Cache.{Cache, cache_type_ipv4}
use adrift.Cache.Laws.{valid_key-text}
use adrift.Cache.Insert.{Apart, Found, head_item, cache_insert-Found_absent}
use adrift.Cache.Serial.{Answered, cache_serial}
use adrift.Cache.Threads.{
  System, place, Reach, start, later, locks, insert_calls, insert_begins, insert_ends, find_calls,
  find_begins, find_ends, replay,
}
use adrift.RwLock.{
  RwLock, call_write, call_read, lock_write, write_enters, write_locked, call_write_unlock,
  lock_write_unlock, write_unlocks_alone, lock_read, read_enters, read_locked,
}
use adrift.RwLock as RwLock
use adrift.Ds.List.Segment.{item_of}
use adrift.Tests.Caching.{small_cache, small_cache-IsCache, small_cache_absent}
use adrift.Tests.Containers.{key, key-IsKey, lone_node}

-- Thread 0 has put node 3 under the name.
abbrev stored :
    (c' : Cache) × Found small_cache cache_type_ipv4 key [] 3 1
      ((4, head_item) ∷ (3, item_of lone_node) ∷ [])
      c'
    × Apart small_cache 3 c'
stored =
    cache_insert-Found_absent small_cache cache_type_ipv4 small_cache-IsCache key [] key-IsKey
      (omega arith) 3 lone_node refl refl small_cache_absent (omega arith)

-- A step of the lock that leaves both threads where their calls have it.
lock_step :
    {s : System} {l : RwLock}
    → Reach 2 small_cache s
    → RwLock.Step 2 s.lock l
    → place (s.work 0) (l.pc 0) ≡ true
    → place (s.work 1) (l.pc 1) ≡ true
    → Reach 2 small_cache (record s { lock = l })
lock_step {s} {l} r st h k = later r (locks l st both)
  where
    both : (i : ℕ) → i < 2 → place (s.work i) (l.pc i) ≡ true
    both zero low = h
    both (suc zero) low = k
    both (suc (suc i)) low = absurd (omega arith)

low : 0 < 2
low = omega arith

low' : 1 < 2
low' = omega arith

-- Thread 0 inserts a node.
abbrev inserted : (s : System) × Reach 2 small_cache s
unfolding place
inserted = (
  _,
  let valid = valid_key-text key [] key-IsKey in
      let called = later start (insert_calls 0 0 (key ++ 0 ∷ []) 3 low refl valid) in
      let wants = lock_step called (call_write 0 low refl) refl refl in
      let checks = lock_step wants (lock_write 0 low refl refl) refl refl in
      let enters = lock_step checks (write_enters 0 low refl refl refl) refl refl in
      let holds = lock_step enters (write_locked 0 low refl) refl refl in
      let begins = later holds (insert_begins 0 0 (key ++ 0 ∷ []) 3 low refl refl) in
      later begins
        (insert_ends 0 0 (key ++ 0 ∷ []) 3 small_cache (stored.0) low refl (stored.1.ran)),
)

-- Then thread 1 looks its name up.
abbrev shared : (s : System) × Reach 2 small_cache s
unfolding place
shared = (
  _,
  let valid = valid_key-text key [] key-IsKey in
      let wants = lock_step (inserted.1) (call_write_unlock 0 low refl) refl refl in
      let checks = lock_step wants (lock_write_unlock 0 low refl refl) refl refl in
      let left =
        lock_step checks (write_unlocks_alone 0 low refl refl (λ j. ground arith)) refl refl in
      let called = later left (find_calls 1 0 (key ++ 0 ∷ []) low' refl valid) in
      let wants = lock_step called (call_read 1 low' refl) refl refl in
      let checks = lock_step wants (lock_read 1 low' refl refl) refl refl in
      let enters = lock_step checks (read_enters 1 low' refl refl) refl refl in
      let holds = lock_step enters (read_locked 1 low' refl) refl refl in
      let begins = later holds (find_begins 1 0 (key ++ 0 ∷ []) low' refl refl) in
      later begins (find_ends 1 0 (key ++ 0 ∷ []) (stored.0) (some 1) low' refl (stored.1.found)),
)

cache_serial_example :
    (replay small_cache (shared.0.insertions) ≡ ok (stored.0))
    × All (Answered small_cache (shared.0.insertions)) (shared.0.lookups)
unfolding inserted shared
cache_serial_example = cache_serial (shared.1)
