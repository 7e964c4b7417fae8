-- ===== src/Sched/Valid.antt =====
-- Scheduler.c, the states that the scheduler keeps, and how writes to tasks bear on the queue.
use fexox_os.Base.{ℕ, ◌-◌, ◌/◌, ◌≤◌, ◌<◌, ◌≡◌, ◌≢◌, ◌∙◌, none, arith, ◌==◌, update, tally-zero}
use fexox_os.Sched.{Ptr, null, runnable, Task, RunQueue}
use fexox_os.Sched.Swap.{occurrences, Indexed, absent_slot}
use fexox_os.Sched.Push.{IsQueue}
use fexox_os.Sched.Core.{Scheduler, task}

-- The queue is a heap of runnable tasks, without the current task, the idle task and NULL.
pub record IsScheduler (s : Scheduler) : Type 0 where
  pub queue : IsQueue s.rq
  pub current_out : occurrences s.rq s.current ≡ 0
  pub idle_out : occurrences s.rq s.idle ≡ 0
  pub null_out : occurrences s.rq null ≡ 0
  pub some_current : s.current ≢ null
  pub some_idle : s.idle ≢ null
  pub waiting : (p : Ptr) → 1 ≤ occurrences s.rq p → (task s p).state ≡ runnable

-- The queue does not depend on what the tasks hold but for vruntime and heap_idx of those in it.
pub IsQueue-tasks :
    (h : RunQueue) (tasks : Ptr → Task)
    → ((i : ℕ)
        → i < h.size
        → ((tasks (h.slots i)).vruntime ≡ (h.tasks (h.slots i)).vruntime)
          × ((tasks (h.slots i)).heap_idx ≡ (h.tasks (h.slots i)).heap_idx))
    → IsQueue h
    → IsQueue (record h { tasks = tasks })
IsQueue-tasks h tasks same v = record {
  heap = λ c p q. omega (arith, v.heap c p q, (same c q).0, (same ((c - 1) / 2) (omega arith)).0);
  indexed = λ i hi. (same i hi).1 ∙ v.indexed i hi;
  bounded = v.bounded;
}

-- A task that is not queued may change in any way.
pub IsQueue-update :
    (h : RunQueue) (p : Ptr) (t : Task)
    → occurrences h p ≡ 0
    → IsQueue h
    → IsQueue (record h { tasks = update h.tasks p t })
IsQueue-update h p t out v =
    IsQueue-tasks h (update h.tasks p t)
      (λ i hi. (ground (arith, absent_slot h p i out hi), ground (arith, absent_slot h p i out hi)))
      v

-- a task whose heap_idx is -1 is not queued
pub unlinked_out :
    (h : RunQueue) (p : Ptr) → Indexed h → (h.tasks p).heap_idx ≡ none → occurrences h p ≡ 0
unlinked_out h p v e = tally-zero (λ q. q == p) h.size h.slots λ i hi. ground (arith, v i hi)
