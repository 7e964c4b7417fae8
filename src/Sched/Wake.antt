-- ===== src/Sched/Wake.antt =====
-- Scheduler.c, sched_wake and sched_create_kthread: both keep the state valid.
use fexox_os.Base.{
  ℕ, zero, suc, ◌≡◌, ◌≢◌, refl, ◌∙◌, sym, Bool, true, false, ◌&&◌, ◌||◌, inl, inr, arith, ltb, ◌==◌,
  if◌then◌else◌, add32, Bool-cases,
}
use fexox_os.Base.Int.{ℤ}
use fexox_os.Sched.{Ptr, null, Task, runnable, sleeping, rq_push}
use fexox_os.Sched.Swap.{occurrences}
use fexox_os.Sched.Core.{
  Scheduler, task, store, update_min_vruntime, link_task, sched_create_kthread, is_sleeping,
  new_task, kstack_rsp,
}
use fexox_os.Sched.Calls.{wake_task, wake_loop, sched_wake}
use fexox_os.Sched.Valid.{IsScheduler}
use fexox_os.Sched.Account.{raise-Accounted}
use fexox_os.Sched.Keep.{
  IsSound, Accounted-IsSound, store-IsSound, rest-IsSound, push-IsSound, prev-IsSound,
}

asleep_out :
    (s : Scheduler) (t : Ptr) → IsScheduler s → (task s t).state ≡ sleeping → occurrences s.rq t ≡ 0
asleep_out s t v e = ground (arith, v.waiting t)

-- the end of sched_wake, when the woken task is in the state of a queued one
wake_push :
    (b : Bool) (s : Scheduler) (t : Ptr)
    → t ≢ null
    → t ≢ s.current
    → t ≢ s.idle
    → occurrences s.rq t ≡ 0
    → (task s t).state ≡ runnable
    → IsSound s
    → (let s2 = if b then store s t (record (task s t) { vruntime = s.min_vruntime }) else s in
        IsSound (record s2 { rq = rq_push s2.rq t }))
wake_push false s t nn nc ni out runs v = push-IsSound s t out nc ni nn runs v
wake_push true s t nn nc ni out runs v =
    let fields = record (task s t) { vruntime = s.min_vruntime } in
    push-IsSound (store s t fields) t out nc ni nn (ground (arith, runs))
      (store-IsSound s t fields (λ q. absurd (omega (arith, out))) (λ e. absurd (ni e)) v)

wake_task-IsSound :
    (s : Scheduler) (t : Ptr)
    → t ≢ null
    → (task s s.current).state ≢ sleeping
    → (task s t).state ≡ sleeping
    → IsSound s
    → IsSound (wake_task s t)
unfolding wake_task
wake_task-IsSound s t some_t up e v =
    let out = asleep_out s t v.valid e in
    let s0 = store s t (record (task s t) { state = runnable }) in
    let v0 =
      store-IsSound s t (record (task s t) { state = runnable }) (λ q. absurd (omega (arith, out)))
        (λ q. ground arith) v in
    let s1 = update_min_vruntime s0 in
    let a = raise-Accounted s0 v0.valid in
    let v1 = Accounted-IsSound s0 s1 a v0 in
    let out1 : occurrences s1.rq t ≡ 0 = rw (a.slots, a.size) out in
    let state1 : (task s1 t).state ≡ runnable = a.states t ∙ ground arith in
    wake_push (ltb (task s1 t).vruntime s1.min_vruntime) s1 t some_t
      (λ c. up (rw (sym (c ∙ a.current)) e)) (λ c. v.awake (rw (sym (c ∙ a.idle)) e)) out1 state1 v1

wake_loop-IsSound :
    (fuel : ℕ) (s : Scheduler) (tid t : ℕ)
    → (task s s.current).state ≢ sleeping
    → IsSound s
    → IsSound (wake_loop fuel s tid t)
unfolding wake_loop
wake_loop-IsSound zero s tid t up v = v
wake_loop-IsSound (suc k) s tid t up v =
    let rest = wake_loop-IsSound k s tid (task s t).next_all up v in
    elim (Bool-cases (t == null)) [
      | inl e ↦ rw e v
      | inr e ↦ elim (Bool-cases ((task s t).tid == tid && is_sleeping (task s t).state)) [
        | inr f ↦ rw (e, f) rest
        | inl f ↦
            let asleep : (task s t).state ≡ sleeping = ground (arith, f) in
            rw (e, f) (wake_task-IsSound s t (ground arith) up asleep v)
      ]
    ]

link_task-IsSound :
    (s : Scheduler) (t : Ptr) (fields : Task)
    → occurrences s.rq t ≡ 0
    → t ≢ s.idle
    → IsSound s
    → IsSound (link_task s t fields)
unfolding link_task
link_task-IsSound s t fields out ni v =
    let s1 = store s t (record fields { next_all = s.all_head }) in
    let v1 =
      store-IsSound s t (record fields { next_all = s.all_head }) (λ q. absurd (omega (arith, out)))
        (λ e. absurd (ni e)) v in
    let v2 = prev-IsSound s1 s.all_head t v1 in
    let s2 =
      if s.all_head == null
      then s1
      else store s1 s.all_head (record (task s1 s.all_head) { prev_all = t }) in
    rest-IsSound s2 t (add32 s.task_count 1) s2.next_tid s2.min_vruntime s2.slice_start_tsc
      s2.tsc_per_ns s2.ready v2

link_task-Linked :
    (s : Scheduler) (t : Ptr) (fields : Task)
    → fields.state ≡ runnable
    → ((p : Ptr) → occurrences (link_task s t fields).rq p ≡ occurrences s.rq p)
      × ((link_task s t fields).current ≡ s.current)
      × ((link_task s t fields).idle ≡ s.idle)
      × ((task (link_task s t fields) t).state ≡ runnable)
unfolding link_task
link_task-Linked s t fields e = elim (Bool-cases (s.all_head == null)) [
  | inl f ↦ rw f ((λ p. refl), refl, refl, ground (arith, e))
  | inr f ↦ rw f ((λ p. refl), refl, refl, ground (arith, e))
]

pub sched_create_kthread-IsSound :
    (s : Scheduler) (fn t stack : Ptr) (prio : ℤ)
    → occurrences s.rq t ≡ 0
    → t ≢ s.current
    → t ≢ s.idle
    → IsSound s
    → IsSound (sched_create_kthread s fn t stack prio).1
unfolding sched_create_kthread
sched_create_kthread-IsSound s fn t stack prio out nc ni v =
    let v0 =
      rest-IsSound s s.all_head s.task_count (add32 s.next_tid 1) s.min_vruntime s.slice_start_tsc
        s.tsc_per_ns s.ready v in
    let s0 = record s { next_tid = add32 s.next_tid 1 } in
    let s1 = update_min_vruntime s0 in
    let a = raise-Accounted s0 v0.valid in
    let v1 = Accounted-IsSound s0 s1 a v0 in
    let out1 : occurrences s1.rq t ≡ 0 = rw (a.slots, a.size) out in
    let fields = record (new_task s.next_tid prio s1.min_vruntime) { rsp = kstack_rsp stack } in
    let linked = link_task-Linked s1 t fields refl in
    let s2 = link_task s1 t fields in
    let v2 = link_task-IsSound s1 t fields out1 (λ e. ni (e ∙ a.idle)) v1 in
    elim (Bool-cases (fn == null || t == null)) [
      | inl e ↦ rw e v
      | inr e ↦ elim (Bool-cases (stack == null)) [
        | inl f ↦ rw (e, f) v1
        | inr f ↦
            rw (e, f)
              (push-IsSound s2 t (linked.0 t ∙ out1) (λ c. nc (c ∙ linked.1 ∙ a.current))
                (λ c. ni (c ∙ linked.2 ∙ a.idle)) (ground (arith, e)) linked.3 v2)
      ]
    ]

pub sched_wake-IsSound :
    (fuel : ℕ) (s : Scheduler) (tid : ℕ)
    → (task s s.current).state ≢ sleeping
    → IsSound s
    → IsSound (sched_wake fuel s tid)
unfolding sched_wake
sched_wake-IsSound fuel s tid up v = wake_loop-IsSound fuel s tid s.all_head up v
