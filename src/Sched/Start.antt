-- ===== src/Sched/Start.antt =====
-- Scheduler.c: sched_init, and the functions that only read or that nothing calls.
use fexox_os.Base.{
  ℕ, ◌-◌, ◌≡◌, ◌≢◌, refl, Bool, true, false, ◌||◌, none, some, arith, ltb, leb, ◌==◌, if◌then◌else◌,
  update, tally,
}
use fexox_os.Base.Int.{pos}
use fexox_os.Sched.{Ptr, null, Task, RunQueue, runnable, set_idx, heap_up, heap_down}
use fexox_os.Sched.Core.{Scheduler, task, kstack_rsp}
use fexox_os.Sched.Valid.{IsScheduler}
use fexox_os.Sched.Weight.{prio_to_w}

-- The scheduler after memset with next_tid set; the clock rate is another global.
abbrev pub cleared : Scheduler → Scheduler
cleared s = record {
  rq = record { tasks = s.rq.tasks; slots = λ i. null; size = 0 };
  current = null;
  idle = null;
  all_head = null;
  task_count = 0;
  next_tid = 1;
  min_vruntime = 0;
  ready = false;
  slice_start_tsc = 0;
  tsc_per_ns = s.tsc_per_ns;
}

-- The block for the idle task is not cleared, so that its other fields are what `old` holds.
abbrev pub idle_task : (old : Task) → (stack : ℕ) → Task
idle_task old stack = record old {
  tid = 0;
  state = runnable;
  weight = prio_to_w (pos 19);
  vruntime = 0;
  rsp = kstack_rsp stack;
}

-- `idle` and `stack` are what kmalloc returns; false stands for -1.
unfoldable pub sched_init : Scheduler → (idle stack : Ptr) → Bool × Scheduler
sched_init s idle stack =
    let s0 = cleared s in
    let rq = record (s0.rq) { tasks = update s.rq.tasks idle (idle_task (task s idle) stack) } in
    if idle == null then (false, s0) else if stack == null then (false, s0) else (
      true,
      record s0 {
        rq = rq;
        idle = idle;
        current = idle;
        all_head = idle;
        task_count = 1;
        ready = true;
      },
    )

-- Nothing calls it.
unfoldable pub rq_remove : RunQueue → Ptr → RunQueue
rq_remove h t = elim (h.tasks t).heap_idx [
  | none ↦ h
  | some i ↦
      let n = h.size - 1 in
      let without = record h { tasks = set_idx h.tasks t none; size = n } in
      let moved = record without {
        slots = update h.slots i (h.slots n);
        tasks = set_idx without.tasks (h.slots n) (some i);
      } in
      if leb h.size i then h else if ltb i n then heap_down (heap_up moved i) i else without
]

-- Nothing calls it either.
unfoldable pub pick_next : Scheduler → Ptr
pick_next s = if ltb 0 s.rq.size then s.rq.slots 0 else s.idle

unfoldable pub sched_current : Scheduler → Ptr
sched_current s = s.current

unfoldable pub sched_task_count : Scheduler → ℕ
sched_task_count s = s.task_count

-- If there is memory for the idle task and its stack, sched_init succeeds and gives a valid state,
-- ready, with the idle task as the current one and an empty queue; otherwise it fails and the
-- scheduler is not ready, so that ticks do nothing.
pub sched_init-IsScheduler :
    (s : Scheduler) (idle stack : Ptr)
    → (idle ≢ null
        → stack ≢ null
        → ((sched_init s idle stack).0 ≡ true)
          × IsScheduler (sched_init s idle stack).1
          × ((sched_init s idle stack).1.ready ≡ true)
          × ((sched_init s idle stack).1.current ≡ idle)
          × ((sched_init s idle stack).1.rq.size ≡ 0))
      × ((idle == null || stack == null) ≡ true
          → ((sched_init s idle stack).0 ≡ false) × ((sched_init s idle stack).1.ready ≡ false))
unfolding sched_init tally
sched_init-IsScheduler s idle stack = (
  (λ some_idle some_stack.
      let p : (idle == null) ≡ false = ground arith in
      let q : (stack == null) ≡ false = ground arith in
      rw (p, q)
        (
          refl,
          record {
            queue = record {
              heap = λ c a b. absurd (omega arith);
              indexed = λ i a. absurd (omega arith);
              bounded = omega arith;
            };
            current_out = refl;
            idle_out = refl;
            null_out = refl;
            some_current = some_idle;
            some_idle = some_idle;
            waiting = λ t a. absurd (omega arith);
          },
          refl,
          refl,
          refl,
        )),
  (λ missing. (ground arith, ground arith)),
)
