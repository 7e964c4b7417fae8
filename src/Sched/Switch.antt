-- ===== src/Sched/Switch.antt =====
-- Scheduler.c, context_switch: who runs next, and where the task that leaves goes.
use fexox_os.Base.{ℕ, ◌+◌, ◌≤◌, ◌<◌, ◌≡◌, ◌≢◌, refl, ◌∙◌, sym, ap, ◌&&◌, arith, ◌==◌, one_if}
use fexox_os.Sched.{Ptr, running, max_tasks}
use fexox_os.Sched.Swap.{occurrences}
use fexox_os.Sched.Core.{
  Scheduler, task, charge, update_min_vruntime, put_back, pick_task, context_switch,
}
use fexox_os.Sched.Valid.{IsScheduler}
use fexox_os.Sched.Account.{Accounted, charge-Accounted, raise-Accounted, elapsed}
use fexox_os.Sched.Leave.{put_back-Parked, stays}
use fexox_os.Sched.Pick.{pick_task-Picked}

same_tasks :
    (s t : Scheduler)
    → Accounted s t
    → (p : Ptr)
    → occurrences t.rq p + one_if (t.current == p && stays t)
      ≡ occurrences s.rq p + one_if (s.current == p && stays s)
same_tasks s t a p = rw (a.slots, a.size, a.current, a.idle, a.states s.current) refl

raise_rq : (s : Scheduler) → (update_min_vruntime s).rq ≡ s.rq
unfolding update_min_vruntime
raise_rq s = ground arith

-- `(r, u)` is what a switch away from the current task of `s` leads to, when that task has run
-- for `d` nanoseconds.
pub record Switched (s : Scheduler) (d r : ℕ) (u : Scheduler) : Type 0 where
  pub valid : IsScheduler u
  pub stack : r ≡ (task u u.current).rsp
  pub runs : (task u u.current).state ≡ running
  pub idle : u.idle ≡ s.idle
  pub holds :
      (p : Ptr)
      → p ≢ s.idle
      → occurrences u.rq p + one_if (u.current == p)
        ≡ occurrences s.rq p + one_if (s.current == p && stays s)
  pub least :
      (p : Ptr)
      → p ≢ s.idle
      → 1 ≤ occurrences s.rq p + one_if (s.current == p && stays s)
      → (u.current ≢ s.idle)
        × ((task (charge s d) u.current).vruntime ≤ (task (charge s d) p).vruntime)

-- From a valid state with room in the queue, context_switch gives a valid state, and returns the
-- saved stack pointer of the new current task, which is marked as running. But for the idle task,
-- the tasks queued or current afterwards are those that were queued, and the task that left if it
-- was running; tasks that sleep or have ended are dropped. If there was any of these, the idle task
-- is not chosen, and no one of them has, once the time has been charged to the task that left,
-- a smaller vruntime than the one chosen.
pub context_switch-Switched :
    (s : Scheduler) (frame_rsp now_tsc : ℕ)
    → IsScheduler s
    → s.rq.size < max_tasks
    → Switched s
        (elapsed s now_tsc)
        (context_switch s frame_rsp now_tsc).0
        (context_switch s frame_rsp now_tsc).1
unfolding context_switch
context_switch-Switched s frame_rsp now_tsc v room =
    let d = elapsed s now_tsc in
    let c = charge s d in
    let b = update_min_vruntime c in
    let charged = charge-Accounted s d v in
    let raised = raise-Accounted c charged.valid in
    let parked =
      put_back-Parked b frame_rsp raised.valid (λ _. omega (arith, charged.size, raised.size)) in
    let t = put_back b frame_rsp in
    let picked = pick_task-Picked b t now_tsc parked in
    let t' = (pick_task t now_tsc).1 in
    let stayed = λ (p : Ptr). parked.holds p ∙ same_tasks c b raised p ∙ same_tasks s c charged p in
    let ran = λ (p : Ptr). ap (λ q. (q.tasks p).vruntime) (raise_rq c) in
    record {
      valid = picked.valid;
      stack = picked.stack;
      runs = picked.runs;
      idle = picked.idle ∙ parked.idle ∙ raised.idle ∙ charged.idle;
      holds = λ p ne.
          picked.holds p (λ e. ne (e ∙ parked.idle ∙ raised.idle ∙ charged.idle)) ∙ stayed p;
      least = λ p ne q.
          let (busy, least) = picked.least p (omega (arith, stayed p)) in
          (
            λ e. busy (e ∙ sym (parked.idle ∙ raised.idle ∙ charged.idle)),
            omega (
              arith,
              least,
              parked.vruntimes p,
              parked.vruntimes t'.current,
              ran p,
              ran t'.current,
            ),
          );
    }
