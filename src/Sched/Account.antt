-- ===== src/Sched/Account.antt =====
-- Scheduler.c, context_switch: the accounting of the time that a task has run.
use fexox_os.Base.{ℕ, ◌≡◌, refl, ◌&&◌, not, inl, inr, arith, ltb, ◌==◌, sub64, Bool-cases}
use fexox_os.Sched.{Ptr, null}
use fexox_os.Sched.Core.{Scheduler, task, lower_bound, charge, update_min_vruntime, tsc_to_ns}
use fexox_os.Sched.Valid.{IsScheduler, IsQueue-update}

-- the nanoseconds that the task that leaves has run
abbrev pub elapsed : Scheduler → (now_tsc : ℕ) → ℕ
elapsed s now_tsc = tsc_to_ns s (sub64 now_tsc s.slice_start_tsc)

-- the accounting moves no task, and keeps the state of every task and the state's validity
pub record Accounted (s t : Scheduler) : Type 0 where
  pub valid : IsScheduler t
  pub slots : t.rq.slots ≡ s.rq.slots
  pub size : t.rq.size ≡ s.rq.size
  pub current : t.current ≡ s.current
  pub idle : t.idle ≡ s.idle
  pub states : (p : Ptr) → (task t p).state ≡ (task s p).state

pub charge-Accounted : (s : Scheduler) (d : ℕ) → IsScheduler s → Accounted s (charge s d)
unfolding charge
charge-Accounted s d v = elim (Bool-cases (not (s.current == null) && not (s.current == s.idle))) [
  | inr e ↦ rw e (record {
    valid = v;
    slots = refl;
    size = refl;
    current = refl;
    idle = refl;
    states = λ p. refl;
  })
  | inl e ↦ rw e (record {
    valid = record {
      queue = IsQueue-update s.rq s.current _ v.current_out v.queue;
      current_out = v.current_out;
      idle_out = v.idle_out;
      null_out = v.null_out;
      some_current = v.some_current;
      some_idle = v.some_idle;
      waiting = λ p q. ground (arith, v.waiting p q);
    };
    slots = refl;
    size = refl;
    current = refl;
    idle = refl;
    states = λ p. ground arith;
  })
]

pub raise-Accounted : (s : Scheduler) → IsScheduler s → Accounted s (update_min_vruntime s)
unfolding update_min_vruntime
raise-Accounted s v = elim (Bool-cases (ltb s.min_vruntime (lower_bound s))) [
  | inr e ↦ rw e (record {
    valid = v;
    slots = refl;
    size = refl;
    current = refl;
    idle = refl;
    states = λ p. refl;
  })
  | inl e ↦ rw e (record {
    valid = record {
      queue = v.queue;
      current_out = v.current_out;
      idle_out = v.idle_out;
      null_out = v.null_out;
      some_current = v.some_current;
      some_idle = v.some_idle;
      waiting = v.waiting;
    };
    slots = refl;
    size = refl;
    current = refl;
    idle = refl;
    states = λ p. refl;
  })
]
