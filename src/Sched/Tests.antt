-- ===== src/Sched/Tests.antt =====
-- Runs of the scheduler on three tasks, and the theorems at concrete inputs.
use fexox_os.Base.{
  ℕ, ◌+◌, ◌*◌, ◌≤◌, ◌<◌, ◌≡◌, refl, true, [], ◌∷◌, none, some, arith, ltb, ◌==◌, if◌then◌else◌,
  tally, ◌≢◌,
}
use fexox_os.Base.Int.{pos, negsuc}
use fexox_os.Sched.{
  Task, running, runnable, RunQueue, max_tasks, heap_swap, heap_up, heap_down, smallest_of, rq_push,
  rq_pop, rq_min_vruntime,
}
use fexox_os.Sched.Push.{IsQueue, Pushed, rq_push-Pushed}
use fexox_os.Sched.Pop.{Popped, rq_pop-Popped}
use fexox_os.Sched.Weight.{prio_to_w}
use fexox_os.Sched.Core.{Scheduler, zeroed, context_switch, sched_create_kthread}
use fexox_os.Sched.Calls.{sched_tick, sched_exit, sched_sleep_ns}
use fexox_os.Sched.Keep.{IsSound}
use fexox_os.Sched.Reach.{create, tick, here, after, ◌⟶*◌, reachable-IsSound}
use fexox_os.Sched.Depart.{Departed, caller-Departed}
use fexox_os.Sched.Monotone.{Call, calls, calls-le}
use fexox_os.Sched.Valid.{IsScheduler}
use fexox_os.Sched.Start.{sched_init}
use fexox_os.Sched.Account.{elapsed}
use fexox_os.Sched.Switch.{Switched, context_switch-Switched}

-- task 1 runs, task 2 is the idle task, task 3 and 4 are queued
abbrev tasks : ℕ → Task
tasks p = record zeroed {
  tid = p;
  state = if ltb 2 p then runnable else running;
  vruntime = 10 * p;
  weight = 1024;
  rsp = 1000 * p;
  heap_idx = if p == 3 then some 0 else if p == 4 then some 1 else none;
}

abbrev queue : RunQueue
queue = record { tasks = tasks; slots = λ i. i + 3; size = 2 }

abbrev three : Scheduler
three = record {
  rq = queue;
  current = 1;
  idle = 2;
  all_head = 4;
  task_count = 4;
  next_tid = 5;
  min_vruntime = 7;
  ready = true;
  slice_start_tsc = 100;
  tsc_per_ns = 2;
}

normal_weight : prio_to_w (pos 0) ≡ 1024
unfolding prio_to_w
normal_weight = refl

clamped : prio_to_w (negsuc 99) ≡ 88761
unfolding prio_to_w
clamped = refl

popped_first : (rq_pop queue).0 ≡ 3
unfolding rq_pop heap_down smallest_of heap_swap
popped_first = refl

-- after 60 ticks, which are 30 ns, task 3 has run less than task 1
switched_to : (context_switch three 77 160).1.current ≡ 3
unfolding context_switch rq_push rq_pop heap_up heap_down smallest_of heap_swap rq_min_vruntime
switched_to = refl

switched_stack : (context_switch three 77 160).0 ≡ 3000
unfolding context_switch rq_push rq_pop heap_up heap_down smallest_of heap_swap rq_min_vruntime
switched_stack = refl

queue-IsQueue : IsQueue queue
queue-IsQueue = record {
  heap = λ c p q. ground arith;
  indexed = λ i h. ground arith;
  bounded = omega arith;
}

three-IsScheduler : IsScheduler three
unfolding tally
three-IsScheduler = record {
  queue = queue-IsQueue;
  current_out = refl;
  idle_out = refl;
  null_out = refl;
  some_current = omega arith;
  some_idle = omega arith;
  waiting = λ p h. ground arith;
}

rq_push-Pushed_example :
    (queue.size < max_tasks → Pushed queue 1 (rq_push queue 1))
    × (queue.size ≡ max_tasks → rq_push queue 1 ≡ queue)
unfolding tally
rq_push-Pushed_example = rq_push-Pushed queue 1 queue-IsQueue refl

rq_pop-Popped_example :
    (0 < queue.size → Popped queue (rq_pop queue).0 (rq_pop queue).1)
    × (queue.size ≡ 0 → rq_pop queue ≡ (0, queue))
rq_pop-Popped_example = rq_pop-Popped queue queue-IsQueue

calls-le_example : 7 ≤ (calls (Call.tick 77 16000000 16000010 ∷ Call.exit ∷ []) three).min_vruntime
calls-le_example = calls-le (Call.tick 77 16000000 16000010 ∷ Call.exit ∷ []) three

context_switch-Switched_example :
    Switched three
      (elapsed three 160)
      (context_switch three 77 160).0
      (context_switch three 77 160).1
context_switch-Switched_example =
    context_switch-Switched three 77 160 three-IsScheduler (omega arith)

-- the scheduler after its start, and after a task was made and a tick has switched to it
abbrev booted : Scheduler
booted = (sched_init three 5 4096).1

abbrev with_task : Scheduler
with_task = (sched_create_kthread booted 1 6 8192 (pos 0)).1

abbrev ticked : Scheduler
ticked = (sched_tick with_task 77 16000000 16000010).1

fresh_block :
    (tally (λ q. q == 6) booted.rq.size booted.rq.slots ≡ 0)
    × (6 ≢ booted.current)
    × (6 ≢ booted.idle)
unfolding sched_init tally
fresh_block = (refl, omega arith, omega arith)

booted_path : booted ⟶* ticked
booted_path =
    after (create 1 6 8192 (pos 0) fresh_block.0 fresh_block.1 fresh_block.2)
      (after (tick 77 16000000 16000010) here)

reachable-IsSound_example : IsSound ticked
reachable-IsSound_example =
    reachable-IsSound three ticked 5 4096 (omega arith) (omega arith) booted_path

three-IsSound : IsSound three
three-IsSound = record { valid = three-IsScheduler; awake = λ e. ground (arith, e) }

caller-Departed_example :
    Departed three (sched_tick (sched_exit three) 77 16000000 16000010).1
    × Departed three (sched_tick (sched_sleep_ns three 500) 77 16000000 16000010).1
caller-Departed_example =
    caller-Departed three 500 77 16000000 16000010 three-IsSound (omega arith) (omega arith) refl
      (omega arith) (ground arith)
