-- ===== src/Sched/Keep.antt =====
-- Scheduler.c, the calls on the scheduler: each keeps the state valid, a full queue included.
use fexox_os.Base.{
  ℕ, ◌≤◌, ◌<◌, ◌≡◌, ◌≢◌, ◌⊎◌, refl, ◌∙◌, sym, ap, Bool, true, false, inl, inr, arith, ◌==◌, update,
  if◌then◌else◌, sub32, Bool-cases, tally-pos,
}
use fexox_os.Sched.{Ptr, null, TaskState, Task, runnable, sleeping, zombie, max_tasks, rq_push}
use fexox_os.Sched.Swap.{occurrences}
use fexox_os.Sched.Push.{rq_push-Pushed}
use fexox_os.Sched.Core.{
  Scheduler, task, store, charge, update_min_vruntime, put_back, context_switch,
}
use fexox_os.Sched.Calls.{
  need_switch, sched_tick, sched_yield, unlink_task, sched_exit, sched_sleep_ns,
}
use fexox_os.Sched.Valid.{IsScheduler, IsQueue-tasks}
use fexox_os.Sched.Account.{Accounted, charge-Accounted, raise-Accounted, elapsed}
use fexox_os.Sched.Leave.{Parked, put_back-Parked, put_back_full, stays}
use fexox_os.Sched.Pick.{pick_task-Picked}
use native.Mathlib.Decide.{dec_lt}

-- A valid state in which the idle task, which never sleeps, does not.
pub record IsSound (s : Scheduler) : Type 0 where
  pub valid : IsScheduler s
  pub awake : (task s s.idle).state ≢ sleeping

pub Accounted-IsSound : (s t : Scheduler) → Accounted s t → IsSound s → IsSound t
Accounted-IsSound s t a v = record {
  valid = a.valid;
  awake = λ e. v.awake (sym (a.states s.idle) ∙ ap (λ i. (task t i).state) (sym a.idle) ∙ e);
}

-- A write to a task that leaves alone what the queue needs of the tasks it holds, and does not put
-- the idle task to sleep.
pub store-IsSound :
    (s : Scheduler) (p : Ptr) (t : Task)
    → (1 ≤ occurrences s.rq p
        → (t.vruntime ≡ (task s p).vruntime)
          × (t.heap_idx ≡ (task s p).heap_idx)
          × (t.state ≡ runnable))
    → (p ≡ s.idle → t.state ≢ sleeping)
    → IsSound s
    → IsSound (store s p t)
store-IsSound s p t same idles v =
    let held = λ (i : ℕ) (hi : i < s.rq.size).
      tally-pos (λ q. q == s.rq.slots i) s.rq.size s.rq.slots i hi (ground arith) in
    record {
      valid = record {
        queue =
            IsQueue-tasks s.rq (update s.rq.tasks p t)
              (λ i hi. (ground (arith, held i hi, same), ground (arith, held i hi, same)))
              v.valid.queue;
        current_out = v.valid.current_out;
        idle_out = v.valid.idle_out;
        null_out = v.valid.null_out;
        some_current = v.valid.some_current;
        some_idle = v.valid.some_idle;
        waiting = λ q h. ground (arith, same, v.valid.waiting q h);
      };
      awake = ground (arith, idles, v.awake);
    }

-- What only this file's other fields hold does not matter.
pub rest-IsSound :
    (s : Scheduler) (all_head task_count next_tid min_vruntime slice tsc : ℕ) (ready : Bool)
    → IsSound s
    → IsSound (record s {
      all_head = all_head;
      task_count = task_count;
      next_tid = next_tid;
      min_vruntime = min_vruntime;
      slice_start_tsc = slice;
      tsc_per_ns = tsc;
      ready = ready;
    })
rest-IsSound s all_head task_count next_tid min_vruntime slice tsc ready v = record {
  valid = record {
    queue = v.valid.queue;
    current_out = v.valid.current_out;
    idle_out = v.valid.idle_out;
    null_out = v.valid.null_out;
    some_current = v.valid.some_current;
    some_idle = v.valid.some_idle;
    waiting = v.valid.waiting;
  };
  awake = v.awake;
}

-- A push of a runnable task, onto a queue with room or a full one.
pub push-IsSound :
    (s : Scheduler) (t : Ptr)
    → occurrences s.rq t ≡ 0
    → t ≢ s.current
    → t ≢ s.idle
    → t ≢ null
    → (task s t).state ≡ runnable
    → IsSound s
    → IsSound (record s { rq = rq_push s.rq t })
push-IsSound s t out nc ni nn runs v =
    let pushing = rq_push-Pushed s.rq t v.valid.queue out in
    elim (dec_lt s.rq.size max_tasks) [
      | yes room ↦
          let pushed = pushing.0 room in
          record {
            valid = record {
              queue = pushed.queue;
              current_out = ground (arith, pushed.holds s.current, v.valid.current_out);
              idle_out = ground (arith, pushed.holds s.idle, v.valid.idle_out);
              null_out = ground (arith, pushed.holds null, v.valid.null_out);
              some_current = v.valid.some_current;
              some_idle = v.valid.some_idle;
              waiting = λ p q. ground (arith, pushed.holds p, pushed.tasks p, v.valid.waiting p);
            };
            awake = ground (arith, pushed.tasks s.idle, v.awake);
          }
      | no full ↦ let same = pushing.1 (omega (arith, v.valid.queue.bounded)) in rw same v
    ]

put_back_either :
    (s : Scheduler) (r : ℕ)
    → IsSound s
    → Parked s (put_back s r) ⊎ Parked (record s { current = s.idle }) (put_back s r)
put_back_either s r v = elim (dec_lt s.rq.size max_tasks) [
  | yes room ↦ inl (put_back-Parked s r v.valid (λ _. room))
  | no full ↦ elim (Bool-cases (stays s)) [
    | inl e ↦ inr (put_back_full s r v.valid e (omega (arith, v.valid.queue.bounded)))
    | inr e ↦ inl (put_back-Parked s r v.valid (λ e'. absurd (ground (arith, e, e'))))
  ]
]

pub context_switch-IsSound :
    (s : Scheduler) (frame_rsp now_tsc : ℕ)
    → IsSound s
    → IsSound (context_switch s frame_rsp now_tsc).1
unfolding context_switch
context_switch-IsSound s frame_rsp now_tsc v =
    let c = charge s (elapsed s now_tsc) in
    let b = update_min_vruntime c in
    let charged = Accounted-IsSound s c (charge-Accounted s (elapsed s now_tsc) v.valid) v in
    let raised = Accounted-IsSound c b (raise-Accounted c charged.valid) charged in
    let t = put_back b frame_rsp in
    elim (put_back_either b frame_rsp raised) [
      | inl p ↦
          let picked = pick_task-Picked b t now_tsc p in
          record { valid = picked.valid; awake = picked.awake (p.awake raised.awake) }
      | inr p ↦
          let picked = pick_task-Picked (record b { current = b.idle }) t now_tsc p in
          record { valid = picked.valid; awake = picked.awake (p.awake raised.awake) }
    ]

branch-IsSound :
    (b : Bool) (x y : ℕ × Scheduler) → IsSound x.1 → IsSound y.1 → IsSound (if b then x else y).1
branch-IsSound true x y v w = v
branch-IsSound false x y v w = w

pub sched_tick-IsSound :
    (s : Scheduler) (frame_rsp now_tsc later_tsc : ℕ)
    → IsSound s
    → IsSound (sched_tick s frame_rsp now_tsc later_tsc).1
unfolding sched_tick
sched_tick-IsSound s frame_rsp now_tsc later_tsc v =
    branch-IsSound s.ready (if need_switch s now_tsc then _ else (frame_rsp, s)) (frame_rsp, s)
      (branch-IsSound (need_switch s now_tsc) (context_switch s frame_rsp later_tsc) (frame_rsp, s)
        (context_switch-IsSound s frame_rsp later_tsc v) v)
      v

-- Only the links of a task change.
relink-IsSound :
    (s : Scheduler) (p next prev : Ptr)
    → IsSound s
    → IsSound (store s p (record (task s p) { next_all = next; prev_all = prev }))
relink-IsSound s p next prev v =
    store-IsSound s p (record (task s p) { next_all = next; prev_all = prev })
      (λ q. (refl, refl, v.valid.waiting p q)) (λ e. ground (arith, v.awake, e)) v

pub choose-IsSound :
    (b : Bool) (x y : Scheduler) → IsSound x → IsSound y → IsSound (if b then x else y)
choose-IsSound true x y v w = v
choose-IsSound false x y v w = w

pub prev-IsSound :
    (s : Scheduler) (p q : Ptr)
    → IsSound s
    → IsSound (if p == null then s else store s p (record (task s p) { prev_all = q }))
prev-IsSound s p q v =
    choose-IsSound (p == null) s (store s p (record (task s p) { prev_all = q })) v
      (relink-IsSound s p (task s p).next_all q v)

next-IsSound :
    (s : Scheduler) (p q : Ptr)
    → IsSound s
    → IsSound (if p == null then s else store s p (record (task s p) { next_all = q }))
next-IsSound s p q v =
    choose-IsSound (p == null) s (store s p (record (task s p) { next_all = q })) v
      (relink-IsSound s p q (task s p).prev_all v)

unlink_task-IsSound : (s : Scheduler) (t : Ptr) → IsSound s → IsSound (unlink_task s t)
unfolding unlink_task
unlink_task-IsSound s t v =
    let prev = (task s t).prev_all in
    let v1 = next-IsSound s prev (task s t).next_all v in
    let s1 =
      if prev == null
      then s
      else store s prev (record (task s prev) { next_all = (task s t).next_all }) in
    let next = (task s1 t).next_all in
    let s2 =
      if next == null
      then s1
      else store s1 next (record (task s1 next) { prev_all = (task s1 t).prev_all }) in
    let v2 = prev-IsSound s1 next (task s1 t).prev_all v1 in
    rest-IsSound s2 _ s2.task_count s2.next_tid s2.min_vruntime s2.slice_start_tsc s2.tsc_per_ns
      s2.ready v2

-- The state of the current task may change: it is not queued.
halt-IsSound :
    (s : Scheduler) (state : TaskState)
    → (s.current ≡ s.idle → state ≢ sleeping)
    → IsSound s
    → IsSound (store s s.current (record (task s s.current) { state = state }))
halt-IsSound s state idles v =
    store-IsSound s s.current (record (task s s.current) { state = state })
      (λ q. absurd (omega (arith, v.valid.current_out))) idles v

pub sched_yield-IsSound : (s : Scheduler) → IsSound s → IsSound (sched_yield s)
unfolding sched_yield
sched_yield-IsSound s v =
    rest-IsSound s s.all_head s.task_count s.next_tid s.min_vruntime 0 s.tsc_per_ns s.ready v

pub sched_exit-IsSound : (s : Scheduler) → IsSound s → IsSound (sched_exit s)
unfolding sched_exit
sched_exit-IsSound s v =
    let s1 = store s s.current (record (task s s.current) { state = zombie }) in
    let s2 = unlink_task s1 s.current in
    rest-IsSound s2 s2.all_head (sub32 s2.task_count 1) s2.next_tid s2.min_vruntime 0 s2.tsc_per_ns
      s2.ready (unlink_task-IsSound s1 s.current (halt-IsSound s zombie (λ e. ground arith) v))

pub sched_sleep_ns-IsSound :
    (s : Scheduler) (ns : ℕ) → s.current ≢ s.idle → IsSound s → IsSound (sched_sleep_ns s ns)
unfolding sched_sleep_ns
sched_sleep_ns-IsSound s ns busy v =
    let s1 = store s s.current (record (task s s.current) { state = sleeping }) in
    rest-IsSound s1 s1.all_head s1.task_count s1.next_tid s1.min_vruntime 0 s1.tsc_per_ns s1.ready
      (halt-IsSound s sleeping (λ e. absurd (busy e)) v)
