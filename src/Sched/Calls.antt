-- ===== src/Sched/Calls.antt =====
-- Scheduler.c, the calls on the scheduler: the tick, the ways to give up the processor, and waking.
use fexox_os.Base.{
  ℕ, zero, suc, ◌-◌, Bool, ◌&&◌, ◌||◌, not, ltb, leb, ◌==◌, if◌then◌else◌, sub64, sub32,
}
use fexox_os.Sched.{Ptr, null, runnable, sleeping, zombie, key, rq_push}
use fexox_os.Sched.Core.{
  Scheduler, timeslice_ns, store, task, is_sleeping, tsc_to_ns, update_min_vruntime, context_switch,
}

-- The three tests of sched_tick, at the time stamp `now_tsc`.
unfoldable pub need_switch : Scheduler → (now_tsc : ℕ) → Bool
unfolding tsc_to_ns
need_switch s now_tsc =
    let delta_ns = tsc_to_ns s (sub64 now_tsc s.slice_start_tsc) in
    let cur = (task s s.current).vruntime in
    let best = key s.rq 0 in
    let lag = if ltb best cur then cur - best else 0 in
    let queued = ltb 0 s.rq.size in
    leb timeslice_ns delta_ns
    || queued && not (s.current == s.idle) && ltb timeslice_ns lag
    || s.current == s.idle && queued

-- `now_tsc` is read for the tests, `later_tsc` by context_switch.
unfoldable pub sched_tick : Scheduler → (frame_rsp now_tsc later_tsc : ℕ) → ℕ × Scheduler
unfolding need_switch context_switch
sched_tick s frame_rsp now_tsc later_tsc =
    if s.ready
    then (if need_switch s now_tsc then context_switch s frame_rsp later_tsc else (frame_rsp, s))
    else (frame_rsp, s)

-- The part of sched_yield before the processor halts.
unfoldable pub sched_yield : Scheduler → Scheduler
sched_yield s = record s { slice_start_tsc = 0 }

unfoldable pub unlink_task : Scheduler → Ptr → Scheduler
unlink_task s t =
    let prev = (task s t).prev_all in
    let s1 =
      if prev == null
      then s
      else store s prev (record (task s prev) { next_all = (task s t).next_all }) in
    let next = (task s1 t).next_all in
    let s2 =
      if next == null
      then s1
      else store s1 next (record (task s1 next) { prev_all = (task s1 t).prev_all }) in
    record s2 { all_head = (if s2.all_head == t then (task s2 t).next_all else s2.all_head) }

-- The part of sched_exit before the processor halts for good.
unfoldable pub sched_exit : Scheduler → Scheduler
unfolding unlink_task
sched_exit s =
    let s1 = store s s.current (record (task s s.current) { state = zombie }) in
    let s2 = unlink_task s1 s.current in
    record s2 { task_count = sub32 s2.task_count 1; slice_start_tsc = 0 }

-- The part of sched_sleep_ns before it halts; the time is ignored.
unfoldable pub sched_sleep_ns : Scheduler → (ns : ℕ) → Scheduler
sched_sleep_ns s ns = record (store s s.current (record (task s s.current) { state = sleeping })) {
  slice_start_tsc = 0;
}

-- what sched_wake does to the task that it finds
unfoldable pub wake_task : Scheduler → Ptr → Scheduler
unfolding update_min_vruntime
wake_task s t =
    let s1 = update_min_vruntime (store s t (record (task s t) { state = runnable })) in
    let woken = task s1 t in
    let s2 =
      if ltb woken.vruntime s1.min_vruntime
      then store s1 t (record woken { vruntime = s1.min_vruntime })
      else s1 in
    record s2 { rq = rq_push s2.rq t }

-- The walk over all tasks, on fuel: a list of `n` tasks takes n + 1 rounds.
unfoldable pub wake_loop : (fuel : ℕ) → Scheduler → (tid t : ℕ) → Scheduler
wake_loop zero s tid t = s
wake_loop (suc k) s tid t =
    let rest = wake_loop k s tid (task s t).next_all in
    let here =
      if (task s t).tid == tid && is_sleeping (task s t).state then wake_task s t else rest in
    if t == null then s else here

unfoldable pub sched_wake : (fuel : ℕ) → Scheduler → (tid : ℕ) → Scheduler
unfolding wake_loop
sched_wake fuel s tid = wake_loop fuel s tid s.all_head

-- `null` if there is no such task.
unfoldable pub find_loop : (fuel : ℕ) → Scheduler → (tid t : ℕ) → Ptr
find_loop zero s tid t = null
find_loop (suc k) s tid t =
    let rest = find_loop k s tid (task s t).next_all in
    if t == null then null else if (task s t).tid == tid then t else rest

unfoldable pub sched_find : (fuel : ℕ) → Scheduler → (tid : ℕ) → Ptr
unfolding find_loop
sched_find fuel s tid = find_loop fuel s tid s.all_head
