-- ===== src/Sched/Halt.antt =====
-- Scheduler.c, sched_exit and sched_sleep_ns: what they do to the task that calls them.
use fexox_os.Base.{ℕ, ◌≡◌, ◌≢◌, refl, ◌∙◌, true, false, Bool, arith, ◌==◌, if◌then◌else◌}
use fexox_os.Sched.{Ptr, null, zombie}
use fexox_os.Sched.Swap.{occurrences}
use fexox_os.Sched.Core.{Scheduler, task, store}
use fexox_os.Sched.Calls.{unlink_task, sched_exit, sched_sleep_ns}
use fexox_os.Sched.Keep.{IsSound, sched_exit-IsSound, sched_sleep_ns-IsSound}
use fexox_os.Sched.Leave.{stays}

-- `t` is `s` with its current task halted, and its slice at an end.
pub record Halted (s t : Scheduler) : Type 0 where
  pub sound : IsSound t
  pub holds : (p : Ptr) → occurrences t.rq p ≡ occurrences s.rq p
  pub size : t.rq.size ≡ s.rq.size
  pub current : t.current ≡ s.current
  pub idle : t.idle ≡ s.idle
  pub ready : t.ready ≡ s.ready
  pub rate : t.tsc_per_ns ≡ s.tsc_per_ns
  pub slice : t.slice_start_tsc ≡ 0
  pub gone : stays t ≡ false
  pub vruntimes : (p : Ptr) → (task t p).vruntime ≡ (task s p).vruntime

-- what unlink_task leaves as it was
record Unlinked (s t : Scheduler) : Type 0 where
  holds : (p : Ptr) → occurrences t.rq p ≡ occurrences s.rq p
  size : t.rq.size ≡ s.rq.size
  current : t.current ≡ s.current
  idle : t.idle ≡ s.idle
  ready : t.ready ≡ s.ready
  rate : t.tsc_per_ns ≡ s.tsc_per_ns
  states : (p : Ptr) → (task t p).state ≡ (task s p).state
  vruntimes : (p : Ptr) → (task t p).vruntime ≡ (task s p).vruntime

Unlinked-refl : (s : Scheduler) → Unlinked s s
Unlinked-refl s = record {
  holds = λ p. refl;
  size = refl;
  current = refl;
  idle = refl;
  ready = refl;
  rate = refl;
  states = λ p. refl;
  vruntimes = λ p. refl;
}

Unlinked-trans : (r s t : Scheduler) → Unlinked r s → Unlinked s t → Unlinked r t
Unlinked-trans r s t a b = record {
  holds = λ p. b.holds p ∙ a.holds p;
  size = b.size ∙ a.size;
  current = b.current ∙ a.current;
  idle = b.idle ∙ a.idle;
  ready = b.ready ∙ a.ready;
  rate = b.rate ∙ a.rate;
  states = λ p. b.states p ∙ a.states p;
  vruntimes = λ p. b.vruntimes p ∙ a.vruntimes p;
}

choose-Unlinked :
    (b : Bool) (s : Scheduler) (p next prev : Ptr)
    → Unlinked s
        (if b then s else store s p (record (task s p) { next_all = next; prev_all = prev }))
choose-Unlinked true s p next prev = Unlinked-refl s
choose-Unlinked false s p next prev = record {
  holds = λ q. refl;
  size = refl;
  current = refl;
  idle = refl;
  ready = refl;
  rate = refl;
  states = λ q. ground arith;
  vruntimes = λ q. ground arith;
}

unlink_task-Unlinked : (s : Scheduler) (t : Ptr) → Unlinked s (unlink_task s t)
unfolding unlink_task
unlink_task-Unlinked s t =
    let prev = (task s t).prev_all in
    let s1 =
      if prev == null
      then s
      else store s prev (record (task s prev) { next_all = (task s t).next_all }) in
    let next = (task s1 t).next_all in
    let s2 =
      if next == null
      then s1
      else store s1 next (record (task s1 next) { prev_all = (task s1 t).prev_all }) in
    let a : Unlinked s s1 =
      choose-Unlinked (prev == null) s prev (task s t).next_all (task s prev).prev_all in
    let b : Unlinked s1 s2 =
      choose-Unlinked (next == null) s1 next (task s1 next).next_all (task s1 t).prev_all in
    let c = Unlinked-trans s s1 s2 a b in
    record {
      holds = c.holds;
      size = c.size;
      current = c.current;
      idle = c.idle;
      ready = c.ready;
      rate = c.rate;
      states = c.states;
      vruntimes = c.vruntimes;
    }

pub exit-Halted : (s : Scheduler) → IsSound s → Halted s (sched_exit s)
unfolding sched_exit
exit-Halted s v =
    let s1 = store s s.current (record (task s s.current) { state = zombie }) in
    let a = unlink_task-Unlinked s1 s.current in
    record {
      sound = sched_exit-IsSound s v;
      holds = a.holds;
      size = a.size;
      current = a.current;
      idle = a.idle;
      ready = a.ready;
      rate = a.rate;
      slice = refl;
      gone = ground (arith, a.states s.current, a.current);
      vruntimes = λ p. a.vruntimes p ∙ ground arith;
    }

pub sleep-Halted :
    (s : Scheduler) (ns : ℕ) → s.current ≢ s.idle → IsSound s → Halted s (sched_sleep_ns s ns)
unfolding sched_sleep_ns
sleep-Halted s ns busy v = record {
  sound = sched_sleep_ns-IsSound s ns busy v;
  holds = λ p. refl;
  size = refl;
  current = refl;
  idle = refl;
  ready = refl;
  rate = refl;
  slice = refl;
  gone = ground arith;
  vruntimes = λ p. ground arith;
}
