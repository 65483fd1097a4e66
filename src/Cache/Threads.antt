-- ===== src/Cache/Threads.antt =====
-- src/protocol/cache.c: `cache_insert` and `cache_find` of any number of threads, under the lock.
-- What the code under the lock reads, it reads when it begins; what it writes is there when it ends.
-- A name that is not valid never comes to the lock. The lock itself is `RwLock`. The nodes that are
-- inserted stand in the first cache's store; what a caller does with a list that it has been given,
-- which the lock does not guard, is not a step.
use adrift.Base.{ℕ, ◌<◌, ◌≡◌, Bool, true, false, Option, List, [], ◌∷◌, Run, ok, ◌>>=◌, update}
use adrift.Cache.{Cache, valid_key, cache_insert, cache_find}
use adrift.RwLock.{
  Pc, idle, want_read, check_read, wait_read, woken_read, leave_read, reading, want_read_unlock,
  in_read_unlock, want_write, check_write, wait_write, woken_write, leave_write, writing,
  want_write_unlock, in_write_unlock, RwLock, rwlock_ctor,
}

-- How far a thread is in a call: before its code under the lock, in it, or behind it.
pub data Work : Type 0 where
  nothing : Work
  find_called : ℕ → List ℕ → Work
  finding : ℕ → List ℕ → Cache → Work
  find_done : Work
  insert_called : ℕ → List ℕ → ℕ → Work
  inserting : ℕ → List ℕ → ℕ → Cache → Work
  insert_done : Work

-- Where in the lock's functions a thread can be.
unfoldable pub place : Work → Pc → Bool
place nothing idle = true
place (find_called _ _) idle = true
place (find_called _ _) want_read = true
place (find_called _ _) check_read = true
place (find_called _ _) wait_read = true
place (find_called _ _) woken_read = true
place (find_called _ _) leave_read = true
place (find_called _ _) reading = true
place (finding _ _ _) reading = true
place find_done reading = true
place find_done want_read_unlock = true
place find_done in_read_unlock = true
place find_done idle = true
place (insert_called _ _ _) idle = true
place (insert_called _ _ _) want_write = true
place (insert_called _ _ _) check_write = true
place (insert_called _ _ _) wait_write = true
place (insert_called _ _ _) woken_write = true
place (insert_called _ _ _) leave_write = true
place (insert_called _ _ _) writing = true
place (inserting _ _ _ _) writing = true
place insert_done writing = true
place insert_done want_write_unlock = true
place insert_done in_write_unlock = true
place insert_done idle = true
place _ _ = false

-- A call of `cache_insert` whose code under the lock has ended.
pub record Insertion : Type 0 where
  pub cache_type : ℕ
  pub key : List ℕ
  pub node : ℕ

-- A call of `cache_find` whose code under the lock has ended, and the insertions that had ended
-- before it, the newest first.
pub record Lookup : Type 0 where
  pub cache_type : ℕ
  pub key : List ℕ
  pub result : Option ℕ
  pub before : List Insertion

-- The lists have the newest first.
pub record System : Type 0 where
  pub lock : RwLock
  pub cache : Cache
  pub work : ℕ → Work
  pub insertions : List Insertion
  pub lookups : List Lookup

abbrev pub initial : Cache → System
initial c = record {
  lock = rwlock_ctor;
  cache = c;
  work = λ _. nothing;
  insertions = [];
  lookups = [];
}

pub data Step (n : ℕ) (s : System) : System → Type 0 where
  -- a step of the lock, by a thread that is where its call has the lock's function
  locks :
      (l : RwLock)
      → adrift.RwLock.Step n s.lock l
      → ((i : ℕ) → i < n → place (s.work i) (l.pc i) ≡ true)
      → Step n s (record s { lock = l })
  find_calls :
      (i cache_type : ℕ) (key : List ℕ)
      → i < n
      → s.work i ≡ nothing
      → valid_key key ≡ ok true
      → Step n s (record s { work = update s.work i (find_called cache_type key) })
  find_begins :
      (i cache_type : ℕ) (key : List ℕ)
      → i < n
      → s.work i ≡ find_called cache_type key
      → s.lock.pc i ≡ reading
      → Step n s (record s { work = update s.work i (finding cache_type key s.cache) })
  find_ends :
      (i cache_type : ℕ) (key : List ℕ) (seen : Cache) (result : Option ℕ)
      → i < n
      → s.work i ≡ finding cache_type key seen
      → cache_find cache_type key seen ≡ ok result
      → Step n s (record s {
        work = update s.work i find_done;
        lookups =
            record { cache_type = cache_type; key = key; result = result; before = s.insertions }
            ∷ s.lookups;
      })
  find_returns :
      (i : ℕ)
      → i < n
      → s.work i ≡ find_done
      → s.lock.pc i ≡ idle
      → Step n s (record s { work = update s.work i nothing })
  insert_calls :
      (i cache_type : ℕ) (key : List ℕ) (node : ℕ)
      → i < n
      → s.work i ≡ nothing
      → valid_key key ≡ ok true
      → Step n s (record s { work = update s.work i (insert_called cache_type key node) })
  insert_begins :
      (i cache_type : ℕ) (key : List ℕ) (node : ℕ)
      → i < n
      → s.work i ≡ insert_called cache_type key node
      → s.lock.pc i ≡ writing
      → Step n s (record s { work = update s.work i (inserting cache_type key node s.cache) })
  insert_ends :
      (i cache_type : ℕ) (key : List ℕ) (node : ℕ) (seen written : Cache)
      → i < n
      → s.work i ≡ inserting cache_type key node seen
      → cache_insert cache_type key node seen ≡ ok written
      → Step n s (record s {
        cache = written;
        work = update s.work i insert_done;
        insertions = record { cache_type = cache_type; key = key; node = node } ∷ s.insertions;
      })
  insert_returns :
      (i : ℕ)
      → i < n
      → s.work i ≡ insert_done
      → s.lock.pc i ≡ idle
      → Step n s (record s { work = update s.work i nothing })

pub data Reach (n : ℕ) (c : Cache) : System → Type 0 where
  start : Reach n c (initial c)
  later : {s t : System} → Reach n c s → Step n s t → Reach n c t

-- The insertions one after the other, the oldest first.
unfoldable pub replay : Cache → List Insertion → Run Cache
replay c [] = ok c
replay c (x ∷ older) = do seen ← replay c older; cache_insert (x.cache_type) (x.key) (x.node) seen
