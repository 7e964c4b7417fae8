-- ===== src/Sched/Depart.antt =====
-- Scheduler.c: a task that gives up the processor is off it at the next tick of the timer.
use fexox_os.Base.{
  ℕ, ◌+◌, ◌/◌, ◌≤◌, ◌<◌, ◌≡◌, ◌≢◌, refl, ◌∙◌, true, false, Bool, sym, subst, ◌&&◌, arith, ◌==◌, leb,
  one_if, if◌then◌else◌, u64_mod, sub64,
}
use fexox_os.Sched.{Ptr, running, max_tasks}
use fexox_os.Sched.Swap.{occurrences}
use fexox_os.Sched.Core.{Scheduler, task, charge, timeslice_ns, context_switch, tsc_to_ns}
use fexox_os.Sched.Calls.{need_switch, sched_tick, sched_exit, sched_sleep_ns}
use fexox_os.Sched.Keep.{IsSound, context_switch-IsSound}
use fexox_os.Sched.Leave.{stays}
use fexox_os.Sched.Halt.{Halted, exit-Halted, sleep-Halted}
use fexox_os.Sched.Valid.{IsScheduler}
use fexox_os.Sched.Switch.{Switched, context_switch-Switched}

both_true :
    {A : Type 0} (a b : Bool) (x y z : A)
    → a ≡ true
    → b ≡ true
    → (if a then (if b then x else y) else z) ≡ x
both_true true true x y z p q = refl
both_true true false x y z p q = absurd (ground (arith, q))
both_true false b x y z p q = absurd (ground (arith, p))

due_switch :
    (s : Scheduler) (now_tsc : ℕ)
    → s.slice_start_tsc ≡ 0
    → now_tsc < u64_mod
    → timeslice_ns ≤ now_tsc / s.tsc_per_ns
    → need_switch s now_tsc ≡ true
unfolding need_switch tsc_to_ns
due_switch s now_tsc slice small due =
    let start : sub64 now_tsc s.slice_start_tsc ≡ now_tsc = rw slice (omega arith) in
    let over : leb timeslice_ns (sub64 now_tsc s.slice_start_tsc / s.tsc_per_ns) ≡ true =
      rw start (ground arith) in
    ground (arith, over)

-- After a call that ended the slice, a tick of a running clock switches.
tick_switches :
    (s : Scheduler) (frame_rsp now_tsc later_tsc : ℕ)
    → s.ready ≡ true
    → s.slice_start_tsc ≡ 0
    → now_tsc < u64_mod
    → timeslice_ns ≤ now_tsc / s.tsc_per_ns
    → sched_tick s frame_rsp now_tsc later_tsc ≡ context_switch s frame_rsp later_tsc
unfolding sched_tick
tick_switches s frame_rsp now_tsc later_tsc ready slice small due =
    both_true s.ready (need_switch s now_tsc) (context_switch s frame_rsp later_tsc) (frame_rsp, s)
      (frame_rsp, s) ready (due_switch s now_tsc slice small due)

-- `u` is where the scheduler is after the current task of `s` has left for good, or until woken.
pub record Departed (s u : Scheduler) : Type 0 where
  pub sound : IsSound u
  pub off : u.current ≢ s.current
  pub unqueued : occurrences u.rq s.current ≡ 0
  pub runs : (task u u.current).state ≡ running
  pub others :
      (p : Ptr) → p ≢ s.idle → occurrences u.rq p + one_if (u.current == p) ≡ occurrences s.rq p
  pub least :
      (p : Ptr)
      → 1 ≤ occurrences s.rq p
      → (u.current ≢ s.idle) × ((task s u.current).vruntime ≤ (task s p).vruntime)

charge_others :
    (s : Scheduler) (d : ℕ) (p : Ptr)
    → p ≢ s.current
    → (task (charge s d) p).vruntime ≡ (task s p).vruntime
unfolding charge
charge_others s d p ne = ground arith

module _ (s t u : Scheduler) (d r : ℕ) (busy : s.current ≢ s.idle) (v : IsScheduler s)
    (h : Halted s t) (done : Switched t d r u) where
  left_others :
      (p : Ptr) → p ≢ s.idle → occurrences u.rq p + one_if (u.current == p) ≡ occurrences s.rq p
  left_others p ne =
      let now = done.holds p (λ e. ne (e ∙ h.idle)) in ground (arith, now, h.gone, h.holds p)

  left_off : u.current ≢ s.current
  left_off e = ground (arith, left_others s.current busy, v.current_out, e)

  left_least :
      (p : Ptr)
      → 1 ≤ occurrences s.rq p
      → (u.current ≢ s.idle) × ((task s u.current).vruntime ≤ (task s p).vruntime)
  left_least p q =
      let other : p ≢ s.idle = ground (arith, v.idle_out, q) in
      let away : p ≢ s.current = ground (arith, v.current_out, q) in
      let held : 1 ≤ occurrences t.rq p + one_if (t.current == p && stays t) =
        omega (arith, h.holds p, q) in
      let (working, least) = done.least p (λ e. other (e ∙ h.idle)) held in
      let chosen = charge_others t d u.current (λ e. left_off (e ∙ h.current)) in
      let passed = charge_others t d p (λ e. away (e ∙ h.current)) in
      (
        (λ e. working (e ∙ sym h.idle)),
        omega (arith, least, chosen, passed, h.vruntimes p, h.vruntimes u.current),
      )

  switch-Departed : IsSound u → Departed s u
  switch-Departed sound = record {
    sound = sound;
    off = left_off;
    unqueued = omega (arith, left_others s.current busy, v.current_out);
    runs = done.runs;
    others = left_others;
    least = left_least;
  }

Halted-Departed :
    (s t : Scheduler) (frame_rsp now_tsc later_tsc : ℕ)
    → IsSound s
    → Halted s t
    → s.current ≢ s.idle
    → s.rq.size < max_tasks
    → s.ready ≡ true
    → now_tsc < u64_mod
    → timeslice_ns ≤ now_tsc / s.tsc_per_ns
    → Departed s (sched_tick t frame_rsp now_tsc later_tsc).1
Halted-Departed s t frame_rsp now_tsc later_tsc v h busy room ready small due =
    let switches =
      tick_switches t frame_rsp now_tsc later_tsc (h.ready ∙ ready) h.slice small (rw h.rate due) in
    let done =
      context_switch-Switched t frame_rsp later_tsc h.sound.valid (omega (arith, h.size, room)) in
    let sound = context_switch-IsSound t frame_rsp later_tsc h.sound in
    subst (λ x. Departed s x.1) (sym switches) (switch-Departed s t _ _ _ busy v.valid h done sound)

-- From a valid state of a running scheduler with room in its queue, whose current task is not the
-- idle task: after sched_exit, and after sched_sleep_ns, the next timer tick whose time stamp is at
-- least one time slice of the clock has the task that called neither current nor queued. The
-- tasks that were queued, and no others, are then queued or current, but for the idle task; if
-- there was any, one of them runs, and none of them has a smaller vruntime.
pub caller-Departed :
    (s : Scheduler) (ns frame_rsp now_tsc later_tsc : ℕ)
    → IsSound s
    → s.current ≢ s.idle
    → s.rq.size < max_tasks
    → s.ready ≡ true
    → now_tsc < u64_mod
    → timeslice_ns ≤ now_tsc / s.tsc_per_ns
    → Departed s (sched_tick (sched_exit s) frame_rsp now_tsc later_tsc).1
      × Departed s (sched_tick (sched_sleep_ns s ns) frame_rsp now_tsc later_tsc).1
caller-Departed s ns r n l v busy room ready small due =
    let exited = exit-Halted s v in
    let slept = sleep-Halted s ns busy v in
    (
      Halted-Departed s (sched_exit s) r n l v exited busy room ready small due,
      Halted-Departed s (sched_sleep_ns s ns) r n l v slept busy room ready small due,
    )
