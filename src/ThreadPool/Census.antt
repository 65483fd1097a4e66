-- ===== src/ThreadPool/Census.antt =====
-- src/thread/threadpool.c: the workers that are busy, and those that are live.
use adrift.Base.{ℕ, zero, suc, ◌+◌, ◌≤◌, ◌≡◌, refl, List, [], ◌∷◌, ◌++◌, arith}
use adrift.ThreadPool.Steps.{Phase, working, leaving, Worker, new_workers}

-- Between the two updates of `busyNum`.
abbrev pub is_busy : Phase → ℕ
is_busy (working t) = 1
is_busy _ = 0

-- Not dismissed. A thread that ends because of the shutdown stays in `liveNum`.
abbrev pub is_live : Phase → ℕ
is_live leaving = 0
is_live _ = 1

pub is_live-le : (p : Phase) → is_live p ≤ 1
is_live-le p = ground arith

abbrev pub count : (Phase → ℕ) → List Worker → ℕ
count f [] = 0
count f (w ∷ ws) = f w.phase + count f ws

pub count-middle :
    (f : Phase → ℕ) (xs ys : List Worker) (w : Worker)
    → count f (xs ++ w ∷ ys) ≡ f w.phase + count f (xs ++ ys)
count-middle f [] ys w = refl
count-middle f (x ∷ xs) ys w = omega (arith, count-middle f xs ys w)

pub busy-new_workers :
    (fresh : ℕ → ℕ) (n m : ℕ) (ws : List Worker)
    → count is_busy (new_workers fresh n m ++ ws) ≡ count is_busy ws
busy-new_workers fresh n zero ws = refl
busy-new_workers fresh n (suc m) ws = omega (arith, busy-new_workers fresh (suc n) m ws)

pub live-new_workers :
    (fresh : ℕ → ℕ) (n m : ℕ) (ws : List Worker)
    → count is_live (new_workers fresh n m ++ ws) ≡ m + count is_live ws
live-new_workers fresh n zero ws = omega arith
live-new_workers fresh n (suc m) ws = omega (arith, live-new_workers fresh (suc n) m ws)
