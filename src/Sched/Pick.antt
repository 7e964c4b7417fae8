-- ===== src/Sched/Pick.antt =====
-- Scheduler.c, context_switch: the choice of the next task.
use fexox_os.Base.{ℕ, ◌+◌, ◌≤◌, ◌≡◌, ◌≢◌, refl, ap, false, arith, ◌==◌, one_if, tally}
use fexox_os.Sched.{Ptr, null, running, sleeping, rq_pop}
use fexox_os.Sched.Swap.{occurrences}
use fexox_os.Sched.Pop.{rq_pop-Popped}
use fexox_os.Sched.Core.{Scheduler, task, pick_task}
use fexox_os.Sched.Valid.{IsScheduler, IsQueue-update, unlinked_out}
use native.Mathlib.Decide.{ℕ_discrete}
use fexox_os.Sched.Leave.{Parked}

-- `(r, u)` is the stack pointer and the state after a task of `t`, which has no current task, was chosen.
pub record Picked (t : Scheduler) (r : ℕ) (u : Scheduler) : Type 0 where
  pub valid : IsScheduler u
  pub stack : r ≡ (task u u.current).rsp
  pub runs : (task u u.current).state ≡ running
  pub idle : u.idle ≡ t.idle
  pub awake : (task t t.idle).state ≢ sleeping → (task u u.idle).state ≢ sleeping
  pub holds :
      (p : Ptr) → p ≢ t.idle → occurrences u.rq p + one_if (u.current == p) ≡ occurrences t.rq p
  pub least :
      (p : Ptr)
      → 1 ≤ occurrences t.rq p
      → (u.current ≢ t.idle) × ((task t u.current).vruntime ≤ (task t p).vruntime)

pub pick_task-Picked :
    (s t : Scheduler) (now : ℕ) → Parked s t → Picked t (pick_task t now).0 (pick_task t now).1
unfolding pick_task tally
pick_task-Picked s t now v = elim (ℕ_discrete t.rq.size 0) [
  | yes empty ↦
      let nothing = (rq_pop-Popped t.rq v.queue).1 empty in
      let none_in : (p : Ptr) → occurrences t.rq p ≡ 0 =
        λ p. ap (λ k. tally (λ q. q == p) k t.rq.slots) empty in
      rw nothing (record {
        valid = record {
          queue = IsQueue-update t.rq t.idle _ v.idle_out v.queue;
          current_out = v.idle_out;
          idle_out = v.idle_out;
          null_out = v.null_out;
          some_current = v.some_idle;
          some_idle = v.some_idle;
          waiting = λ p q. absurd (omega (arith, none_in p));
        };
        stack = ground arith;
        runs = ground arith;
        idle = refl;
        awake = λ a. ground (arith, a);
        holds = λ p ne. ground (arith, none_in p);
        least = λ p q. absurd (omega (arith, none_in p));
      })
  | no many ↦
      let popped = (rq_pop-Popped t.rq v.queue).0 (omega arith) in
      let top = (rq_pop t.rq).0 in
      let rest = (rq_pop t.rq).1 in
      let was : 1 ≤ occurrences t.rq top = ground (arith, popped.holds top) in
      let alone : occurrences rest top ≡ 0 =
        unlinked_out rest top popped.queue.indexed popped.unlinked in
      let some_top : (top == null) ≡ false = ground (arith, v.null_out) in
      rw some_top (record {
        valid = record {
          queue = IsQueue-update rest top _ alone popped.queue;
          current_out = alone;
          idle_out = omega (arith, popped.holds t.idle, v.idle_out);
          null_out = omega (arith, popped.holds null, v.null_out);
          some_current = ground arith;
          some_idle = v.some_idle;
          waiting = λ p q. ground (arith, alone, popped.holds p, popped.tasks p, v.waiting p);
        };
        stack = ground arith;
        runs = ground arith;
        idle = refl;
        awake = λ a. ground (arith, a, popped.tasks t.idle);
        holds = λ p ne. popped.holds p;
        least = λ p q. (ground (arith, v.idle_out), popped.least p q);
      })
]
