-- ===== src/Sched/Order.antt =====
-- Scheduler.c, the order of the min-heap.
use fexox_os.Base.{ℕ, zero, suc, ◌≤◌, ◌<◌, ◌≡◌, arith}
use fexox_os.Sched.{RunQueue, key, parent}

-- no task runs behind its parent
abbrev pub IsHeap : RunQueue → Type 0
IsHeap h = (c : ℕ) → 0 < c → c < h.size → key h (parent c) ≤ key h c

-- the parent of i does not run behind the children of i
abbrev pub IsBridged : RunQueue → ℕ → Type 0
IsBridged h i = (c : ℕ) → 0 < c → c < h.size → parent c ≡ i → 0 < i → key h (parent i) ≤ key h c

root_least_below :
    (k : ℕ) (h : RunQueue) (i : ℕ) → IsHeap h → i < k → i < h.size → key h 0 ≤ key h i
root_least_below zero h i v f p = absurd (omega arith)
root_least_below (suc k) h i v f p = ground (arith, v i, root_least_below k h (parent i) v)

-- The root of a heap has the least virtual runtime of the queue.
pub root_least : (h : RunQueue) (i : ℕ) → IsHeap h → i < h.size → key h 0 ≤ key h i
root_least h i v p = root_least_below (suc i) h i v (omega arith) p
