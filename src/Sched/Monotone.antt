-- ===== src/Sched/Monotone.antt =====
-- Scheduler.c, min_vruntime: the bound that new and woken tasks start from never falls.
use fexox_os.Base.{ℕ, zero, suc, ◌≤◌, ◌≡◌, refl, List, [], ◌∷◌, arith, sub64, add32}
use fexox_os.Base.Int.{ℤ}
use fexox_os.Sched.{Ptr, Task, runnable, zombie}
use fexox_os.Sched.Core.{
  Scheduler, task, store, new_task, kstack_rsp, update_min_vruntime, link_task, charge, put_back,
  pick_task, tsc_to_ns, context_switch, sched_create_kthread,
}
use fexox_os.Sched.Calls.{
  sched_tick, sched_yield, unlink_task, sched_exit, sched_sleep_ns, wake_task, wake_loop,
  sched_wake,
}

-- One call into the scheduler, from a thread or from the timer. `fuel` bounds the walk of a wake.
pub data Call : Type 0 where
  create : (fn t stack : Ptr) → ℤ → Call
  tick : (frame_rsp now_tsc later_tsc : ℕ) → Call
  yield_now exit : Call
  sleep : (ns : ℕ) → Call
  wake : (fuel tid : ℕ) → Call

unfoldable pub call : Call → Scheduler → Scheduler
call (create fn t stack prio) s = (sched_create_kthread s fn t stack prio).1
call (tick frame_rsp now_tsc later_tsc) s = (sched_tick s frame_rsp now_tsc later_tsc).1
call yield_now s = sched_yield s
call exit s = sched_exit s
call (sleep ns) s = sched_sleep_ns s ns
call (wake fuel tid) s = sched_wake fuel s tid

unfoldable pub calls : List Call → Scheduler → Scheduler
unfolding call
calls [] s = s
calls (c ∷ cs) s = calls cs (call c s)

update_min_vruntime-le : (s : Scheduler) → s.min_vruntime ≤ (update_min_vruntime s).min_vruntime
unfolding update_min_vruntime
update_min_vruntime-le s = ground arith

charge_min : (s : Scheduler) (d : ℕ) → (charge s d).min_vruntime ≡ s.min_vruntime
unfolding charge
charge_min s d = ground arith

put_back_min : (s : Scheduler) (r : ℕ) → (put_back s r).min_vruntime ≡ s.min_vruntime
unfolding put_back
put_back_min s r = ground arith

pick_task_min : (s : Scheduler) (n : ℕ) → (pick_task s n).1.min_vruntime ≡ s.min_vruntime
unfolding pick_task
pick_task_min s n = refl

context_switch-le :
    (s : Scheduler) (frame_rsp now_tsc : ℕ)
    → s.min_vruntime ≤ (context_switch s frame_rsp now_tsc).1.min_vruntime
unfolding context_switch
context_switch-le s frame_rsp now_tsc =
    let charged = charge s (tsc_to_ns s (sub64 now_tsc s.slice_start_tsc)) in
    let raised = update_min_vruntime charged in
    let back = put_back raised frame_rsp in
    omega (
      arith,
      charge_min s (tsc_to_ns s (sub64 now_tsc s.slice_start_tsc)),
      update_min_vruntime-le charged,
      put_back_min raised frame_rsp,
      pick_task_min back now_tsc,
    )

wake_task-le : (s : Scheduler) (t : Ptr) → s.min_vruntime ≤ (wake_task s t).min_vruntime
unfolding wake_task
wake_task-le s t =
    ground (arith, update_min_vruntime-le (store s t (record (task s t) { state = runnable })))

wake_loop-le :
    (k : ℕ) (s : Scheduler) (tid t : ℕ) → s.min_vruntime ≤ (wake_loop k s tid t).min_vruntime
unfolding wake_loop
wake_loop-le zero s tid t = omega arith
wake_loop-le (suc k) s tid t =
    ground (arith, wake_task-le s t, wake_loop-le k s tid (task s t).next_all)

unlink_min : (s : Scheduler) (t : Ptr) → (unlink_task s t).min_vruntime ≡ s.min_vruntime
unfolding unlink_task
unlink_min s t = ground arith

link_min : (s : Scheduler) (t : Ptr) (f : Task) → (link_task s t f).min_vruntime ≡ s.min_vruntime
unfolding link_task
link_min s t f = ground arith

create-le :
    (s : Scheduler) (fn t stack : Ptr) (prio : ℤ)
    → s.min_vruntime ≤ (sched_create_kthread s fn t stack prio).1.min_vruntime
unfolding sched_create_kthread
create-le s fn t stack prio =
    let s1 = update_min_vruntime (record s { next_tid = add32 s.next_tid 1 }) in
    let fields = record (new_task s.next_tid prio s1.min_vruntime) { rsp = kstack_rsp stack } in
    ground (
      arith,
      update_min_vruntime-le (record s { next_tid = add32 s.next_tid 1 }),
      link_min s1 t fields,
    )

tick-le :
    (s : Scheduler) (frame_rsp now_tsc later_tsc : ℕ)
    → s.min_vruntime ≤ (sched_tick s frame_rsp now_tsc later_tsc).1.min_vruntime
unfolding sched_tick
tick-le s frame_rsp now_tsc later_tsc = ground (arith, context_switch-le s frame_rsp later_tsc)

call-le : (c : Call) (s : Scheduler) → s.min_vruntime ≤ (call c s).min_vruntime
unfolding call
call-le (create fn t stack prio) s = create-le s fn t stack prio
call-le (tick frame_rsp now_tsc later_tsc) s = tick-le s frame_rsp now_tsc later_tsc
call-le yield_now s = unfold sched_yield in omega arith
call-le exit s =
    let t = record (task s s.current) { state = zombie } in
    unfold sched_exit in omega (arith, unlink_min (store s s.current t) s.current)
call-le (sleep ns) s = unfold sched_sleep_ns in omega arith
call-le (wake fuel tid) s = unfold sched_wake in wake_loop-le fuel s tid s.all_head

-- Over any sequence of calls into the scheduler, timer ticks among them, and from any state,
-- min_vruntime never falls.
pub calls-le : (cs : List Call) (s : Scheduler) → s.min_vruntime ≤ (calls cs s).min_vruntime
unfolding calls
calls-le [] s = omega arith
calls-le (c ∷ cs) s = omega (arith, call-le c s, calls-le cs (call c s))
