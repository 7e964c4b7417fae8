-- ===== src/Sched/Leave.antt =====
-- Scheduler.c, context_switch: the task that leaves.
use fexox_os.Base.{
  ℕ, ◌+◌, ◌≤◌, ◌<◌, ◌≡◌, ◌≢◌, refl, ◌∙◌, Bool, true, false, ◌&&◌, not, inl, inr, arith, ◌==◌,
  one_if, Bool-cases,
}
use fexox_os.Sched.{Ptr, null, runnable, sleeping, max_tasks}
use fexox_os.Sched.Swap.{occurrences}
use fexox_os.Sched.Push.{IsQueue, rq_push-Pushed}
use fexox_os.Sched.Core.{Scheduler, task, store, is_running, put_back}
use fexox_os.Sched.Valid.{IsScheduler, IsQueue-update}

-- does the task that leaves go back to the queue?
abbrev pub stays : Scheduler → Bool
stays s = is_running (task s s.current).state && not (s.current == s.idle)

left :
    (s : Scheduler) (p : Ptr)
    → stays s ≡ false
    → occurrences s.rq p ≡ occurrences s.rq p + one_if (s.current == p && stays s)
left s p e = rw e (ground arith)

kept :
    (s : Scheduler) (p : Ptr)
    → stays s ≡ true
    → occurrences s.rq p + one_if (s.current == p)
      ≡ occurrences s.rq p + one_if (s.current == p && stays s)
kept s p e = rw e (ground arith)

-- The state between the two tasks: `s` with the task that leaves put back if it still runs.
pub record Parked (s t : Scheduler) : Type 0 where
  pub queue : IsQueue t.rq
  pub idle_out : occurrences t.rq t.idle ≡ 0
  pub null_out : occurrences t.rq null ≡ 0
  pub some_idle : t.idle ≢ null
  pub waiting : (p : Ptr) → 1 ≤ occurrences t.rq p → (task t p).state ≡ runnable
  pub holds :
      (p : Ptr) → occurrences t.rq p ≡ occurrences s.rq p + one_if (s.current == p && stays s)
  pub idle : t.idle ≡ s.idle
  pub vruntimes : (p : Ptr) → (task t p).vruntime ≡ (task s p).vruntime
  pub awake : (task s s.idle).state ≢ sleeping → (task t t.idle).state ≢ sleeping

pub put_back-Parked :
    (s : Scheduler) (r : ℕ)
    → IsScheduler s
    → (stays s ≡ true → s.rq.size < max_tasks)
    → Parked s (put_back s r)
unfolding put_back
put_back-Parked s r v room =
    let here : (s.current == null) ≡ false = ground (arith, v.some_current) in
    elim (Bool-cases (is_running (task s s.current).state)) [
      | inr gone ↦
          rw (here, gone)
            (record {
              queue = IsQueue-update s.rq s.current _ v.current_out v.queue;
              idle_out = v.idle_out;
              null_out = v.null_out;
              some_idle = v.some_idle;
              waiting = λ p q. ground (arith, v.waiting p q, v.current_out);
              holds = λ p. left s p (ground (arith, gone));
              idle = refl;
              vruntimes = λ p. ground arith;
              awake = λ a. ground (arith, a);
            })
      | inl runs ↦ elim (Bool-cases (s.current == s.idle)) [
        | inl idles ↦
            rw (here, runs, idles)
              (record {
                queue = IsQueue-update s.rq s.current _ v.current_out v.queue;
                idle_out = v.idle_out;
                null_out = v.null_out;
                some_idle = v.some_idle;
                waiting = λ p q. ground (arith, v.waiting p q);
                holds = λ p. left s p (ground (arith, idles));
                idle = refl;
                vruntimes = λ p. ground arith;
                awake = λ a. ground (arith, a);
              })
        | inr works ↦
            let prev = record (task s s.current) { rsp = r; state = runnable } in
            let waits = store s s.current prev in
            let pushed =
              (rq_push-Pushed waits.rq s.current
                  (IsQueue-update s.rq s.current prev v.current_out v.queue) v.current_out).0
                (room (ground (arith, runs, works))) in
            rw (here, runs, works)
              (record {
                queue = pushed.queue;
                idle_out = ground (arith, pushed.holds s.idle, v.idle_out);
                null_out = ground (arith, pushed.holds null, v.null_out);
                some_idle = v.some_idle;
                waiting = λ p q. ground (arith, pushed.holds p, pushed.tasks p, v.waiting p);
                holds = λ p. pushed.holds p ∙ kept s p (ground (arith, runs, works));
                idle = refl;
                vruntimes = λ p. ground (arith, pushed.tasks p);
                awake = λ a. ground (arith, a, pushed.tasks s.idle);
              })
      ]
    ]

-- On a full queue the task that leaves is lost, so that the queue is what it would be if the idle
-- task had left.
pub put_back_full :
    (s : Scheduler) (r : ℕ)
    → IsScheduler s
    → stays s ≡ true
    → s.rq.size ≡ max_tasks
    → Parked (record s { current = s.idle }) (put_back s r)
unfolding put_back
put_back_full s r v e full =
    let here : (s.current == null) ≡ false = ground (arith, v.some_current) in
    let runs : is_running (task s s.current).state ≡ true = ground (arith, e) in
    let works : (s.current == s.idle) ≡ false = ground (arith, e) in
    let prev = record (task s s.current) { rsp = r; state = runnable } in
    let waits = store s s.current prev in
    let queue = IsQueue-update s.rq s.current prev v.current_out v.queue in
    let same = (rq_push-Pushed waits.rq s.current queue v.current_out).1 full in
    rw (here, runs, works, same)
      (record {
        queue = queue;
        idle_out = v.idle_out;
        null_out = v.null_out;
        some_idle = v.some_idle;
        waiting = λ p q. ground (arith, v.waiting p q, v.current_out);
        holds = λ p. left (record s { current = s.idle }) p (ground arith);
        idle = refl;
        vruntimes = λ p. ground arith;
        awake = λ a. ground (arith, a);
      })
