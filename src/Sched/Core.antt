-- ===== src/Sched/Core.antt =====
-- Scheduler.c, the scheduler's global state, new tasks and the switch between tasks.
-- The spinlock and the debug output have no counterpart. What comes from outside the file is an
-- argument: the time stamps that rdtsc returns, the blocks that kmalloc returns (0 for failure) and
-- the stack pointer of the interrupted task. ui_tick, which draws the cursor and the clock, touches
-- nothing of this state.
use fexox_os.Base.{
  ℕ, ◌*◌, ◌/◌, ◌%◌, Bool, true, false, ◌&&◌, ◌||◌, not, Option, none, some, ltb, ◌==◌,
  if◌then◌else◌, update, add64, sub64, not64, add32, u64_mod, bit_and,
}
use fexox_os.Base.Int.{ℤ}
use fexox_os.Sched.{
  Ptr, null, TaskState, running, runnable, sleeping, Task, RunQueue, rq_push, rq_pop,
  rq_min_vruntime,
}
use fexox_os.Sched.Weight.{prio_to_w}

-- `scheduler_t` with the global g_tsc_per_ns
pub record Scheduler : Type 0 where
  pub rq : RunQueue
  pub current : Ptr
  pub idle : Ptr
  pub all_head : Ptr
  pub task_count : ℕ
  pub next_tid : ℕ
  pub min_vruntime : ℕ
  pub ready : Bool
  pub slice_start_tsc : ℕ
  pub tsc_per_ns : ℕ

abbrev pub timeslice_ns : ℕ
timeslice_ns = 4000000

abbrev pub nice_0_weight : ℕ
nice_0_weight = 1024

abbrev pub kstack_size : ℕ
kstack_size = 16 * 1024

-- `*p = t`
abbrev pub store : Scheduler → Ptr → Task → Scheduler
store s p t = record s { rq = record (s.rq) { tasks = update s.rq.tasks p t } }

abbrev pub task : Scheduler → Ptr → Task
task s p = s.rq.tasks p

abbrev pub is_running : TaskState → Bool
is_running running = true
is_running _ = false

abbrev pub is_sleeping : TaskState → Bool
is_sleeping sleeping = true
is_sleeping _ = false

unfoldable pub tsc_to_ns : Scheduler → ℕ → ℕ
tsc_to_ns s tsc = tsc / s.tsc_per_ns

-- the candidate that update_min_vruntime compares with the old bound
unfoldable pub lower_bound : Scheduler → ℕ
lower_bound s =
    let mv =
      if not (s.current == null) && not (s.current == s.idle)
      then (task s s.current).vruntime
      else s.min_vruntime in
    let rq_min = rq_min_vruntime s.rq in
    if ltb 0 s.rq.size && (mv == 0 || ltb rq_min mv) then rq_min else mv

unfoldable pub update_min_vruntime : Scheduler → Scheduler
unfolding lower_bound
update_min_vruntime s =
    if ltb s.min_vruntime (lower_bound s) then record s { min_vruntime = lower_bound s } else s

-- setup_kstack for a block that kmalloc returned: the saved stack pointer of the new task. The
-- frame is a sched_frame_t of 21 words; its contents are not modelled.
abbrev pub frame_size : ℕ
frame_size = 21 * 8

unfoldable pub kstack_rsp : (stack : ℕ) → ℕ
kstack_rsp stack = sub64 (bit_and (add64 stack kstack_size) (not64 15)) frame_size

abbrev pub zeroed : Task
zeroed = record {
  tid = 0;
  state = running;
  vruntime = 0;
  weight = 0;
  rsp = 0;
  next_all = null;
  prev_all = null;
  heap_idx = none;
  total_runtime = 0;
  switches = 0;
}

-- the task that sched_create_kthread has filled in before it makes the stack
abbrev pub new_task : (tid : ℕ) → ℤ → (vruntime : ℕ) → Task
new_task tid prio vruntime = record zeroed {
  tid = tid;
  state = runnable;
  weight = prio_to_w prio;
  vruntime = vruntime;
}

-- `if (all_head) all_head->prev_all = t; all_head = t; task_count++`
unfoldable pub link_task : Scheduler → Ptr → Task → Scheduler
link_task s t fields =
    let s1 = store s t (record fields { next_all = s.all_head }) in
    let s2 =
      if s.all_head == null
      then s1
      else store s1 s.all_head (record (task s1 s.all_head) { prev_all = t }) in
    record s2 { all_head = t; task_count = add32 s.task_count 1 }

-- `none` stands for -1. `t` and `stack` are what kmalloc returns for the task and for its stack.
-- The task id counter and min_vruntime move on even if there is no memory for the stack.
unfoldable pub sched_create_kthread : Scheduler → (fn t stack : Ptr) → ℤ → Option ℕ × Scheduler
unfolding update_min_vruntime link_task kstack_rsp
sched_create_kthread s fn t stack prio =
    let tid = s.next_tid in
    let s1 = update_min_vruntime (record s { next_tid = add32 tid 1 }) in
    let fields = record (new_task tid prio s1.min_vruntime) { rsp = kstack_rsp stack } in
    let s2 = link_task s1 t fields in
    if fn == null || t == null
    then (none, s)
    else if stack == null
    then (none, s1)
    else (some tid, record s2 { rq = rq_push s2.rq t })

-- what the accounting of context_switch adds to the task that leaves
abbrev pub weighted : Scheduler → (delta_ns : ℕ) → ℕ
weighted s delta_ns = delta_ns * nice_0_weight % u64_mod / (task s s.current).weight

unfoldable pub charge : Scheduler → (delta_ns : ℕ) → Scheduler
charge s delta_ns =
    let prev = task s s.current in
    if not (s.current == null) && not (s.current == s.idle)
    then store s s.current (record prev {
      vruntime = add64 prev.vruntime (weighted s delta_ns);
      total_runtime = add64 prev.total_runtime delta_ns;
    })
    else s

-- the saving of the task that leaves, and its return to the queue if it still runs
unfoldable pub put_back : Scheduler → (frame_rsp : ℕ) → Scheduler
put_back s frame_rsp =
    let prev = record (task s s.current) { rsp = frame_rsp } in
    let saved = store s s.current prev in
    let waits = store s s.current (record prev { state = runnable }) in
    if s.current == null
    then s
    else if is_running prev.state
    then (if s.current == s.idle then waits else record waits { rq = rq_push waits.rq s.current })
    else saved

-- the choice of the next task, and its stack pointer
unfoldable pub pick_task : Scheduler → (now_tsc : ℕ) → ℕ × Scheduler
pick_task s now_tsc =
    let (top, rq) = rq_pop s.rq in
    let next = if top == null then s.idle else top in
    let t = rq.tasks next in
    (
      t.rsp,
      record s {
        rq = record rq {
          tasks =
              update rq.tasks next (record t { state = running; switches = add64 t.switches 1 });
        };
        current = next;
        slice_start_tsc = now_tsc;
      },
    )

unfoldable pub context_switch : Scheduler → (frame_rsp now_tsc : ℕ) → ℕ × Scheduler
unfolding charge update_min_vruntime put_back pick_task tsc_to_ns
context_switch s frame_rsp now_tsc =
    let delta_ns = tsc_to_ns s (sub64 now_tsc s.slice_start_tsc) in
    pick_task (put_back (update_min_vruntime (charge s delta_ns)) frame_rsp) now_tsc
