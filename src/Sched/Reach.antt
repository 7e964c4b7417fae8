-- ===== src/Sched/Reach.antt =====
-- Scheduler.c, the states that the scheduler can reach, by any sequence of its calls.
use fexox_os.Base.{ℕ, ◌≡◌, ◌≢◌, false, arith, ◌==◌}
use fexox_os.Base.Int.{ℤ}
use fexox_os.Sched.{Ptr, null, sleeping}
use fexox_os.Sched.Swap.{occurrences}
use fexox_os.Sched.Core.{Scheduler, task, sched_create_kthread}
use fexox_os.Sched.Calls.{sched_tick, sched_yield, sched_exit, sched_sleep_ns, sched_wake}
use fexox_os.Sched.Start.{sched_init, sched_init-IsScheduler}
use fexox_os.Sched.Keep.{
  IsSound, sched_tick-IsSound, sched_yield-IsSound, sched_exit-IsSound, sched_sleep_ns-IsSound,
}
use fexox_os.Sched.Wake.{sched_wake-IsSound, sched_create_kthread-IsSound}

-- One call, with what its caller answers for: the block of a new task is not one that the
-- scheduler holds, the idle task does not sleep, and who wakes a task is not asleep.
infix 40 ◌⟶◌ ◌⟶*◌
pub data ◌⟶◌ : Scheduler → Scheduler → Type 0 where
  create :
      {s : Scheduler} (fn t stack : Ptr) (prio : ℤ)
      → occurrences s.rq t ≡ 0
      → t ≢ s.current
      → t ≢ s.idle
      → s ⟶ (sched_create_kthread s fn t stack prio).1
  tick :
      {s : Scheduler} (frame_rsp now_tsc later_tsc : ℕ)
      → s ⟶ (sched_tick s frame_rsp now_tsc later_tsc).1
  yields : {s : Scheduler} → s ⟶ sched_yield s
  exits : {s : Scheduler} → s ⟶ sched_exit s
  sleeps : {s : Scheduler} (ns : ℕ) → s.current ≢ s.idle → s ⟶ sched_sleep_ns s ns
  wakes :
      {s : Scheduler} (fuel tid : ℕ)
      → (task s s.current).state ≢ sleeping
      → s ⟶ sched_wake fuel s tid

pub data ◌⟶*◌ : Scheduler → Scheduler → Type 0 where
  here : {s : Scheduler} → s ⟶* s
  after : {s t u : Scheduler} → s ⟶ t → t ⟶* u → s ⟶* u

⟶-IsSound : (s t : Scheduler) → s ⟶ t → IsSound s → IsSound t
⟶-IsSound s t (create fn p stack prio out nc ni) v =
    sched_create_kthread-IsSound s fn p stack prio out nc ni v
⟶-IsSound s t (tick r n l) v = sched_tick-IsSound s r n l v
⟶-IsSound s t yields v = sched_yield-IsSound s v
⟶-IsSound s t exits v = sched_exit-IsSound s v
⟶-IsSound s t (sleeps ns busy) v = sched_sleep_ns-IsSound s ns busy v
⟶-IsSound s t (wakes fuel tid up) v = sched_wake-IsSound fuel s tid up v

⟶*-IsSound : (s t : Scheduler) → s ⟶* t → IsSound s → IsSound t
⟶*-IsSound s t here v = v
⟶*-IsSound s u (after {t = t} step rest) v = ⟶*-IsSound t u rest (⟶-IsSound s t step v)

sched_init_awake :
    (s : Scheduler) (idle stack : Ptr)
    → idle ≢ null
    → stack ≢ null
    → (task (sched_init s idle stack).1 (sched_init s idle stack).1.idle).state ≢ sleeping
unfolding sched_init
sched_init_awake s idle stack some_idle some_stack =
    let p : (idle == null) ≡ false = ground arith in
    let q : (stack == null) ≡ false = ground arith in rw (p, q) (λ e. ground (arith, e))

-- Once sched_init has the memory it asks for, every state that any sequence of calls leads to is
-- valid: the queue is a heap of at most MAX_TASKS runnable tasks, each once and knowing its place,
-- without the current task, the idle task and NULL, and the idle task does not sleep. New tasks are
-- made in blocks that are not queued, current or idle, the idle task does not call sched_sleep_ns,
-- and no call of sched_wake is made while the current task is marked as sleeping.
pub reachable-IsSound :
    (s t : Scheduler) (idle stack : Ptr)
    → idle ≢ null
    → stack ≢ null
    → (sched_init s idle stack).1 ⟶* t
    → IsSound t
reachable-IsSound s t idle stack some_idle some_stack path =
    let started = (sched_init-IsScheduler s idle stack).0 some_idle some_stack in
    ⟶*-IsSound (sched_init s idle stack).1 t path (record {
      valid = started.1;
      awake = λ e. sched_init_awake s idle stack some_idle some_stack e;
    })
