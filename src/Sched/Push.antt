-- ===== src/Sched/Push.antt =====
-- Scheduler.c, rq_push.
use fexox_os.Base.{
  suc, ◌+◌, ◌≤◌, ◌<◌, ◌≡◌, ◌∙◌, false, some, arith, leb, ◌==◌, update, one_if, tally,
  tally-update_out,
}
use fexox_os.Sched.{Ptr, RunQueue, max_tasks, set_idx, rq_push}
use fexox_os.Sched.Swap.{occurrences, Indexed, absent_slot}
use fexox_os.Sched.Order.{IsHeap}
use fexox_os.Sched.Up.{UpInv, heap_up_restores}

-- A queue as the scheduler keeps it.
pub record IsQueue (h : RunQueue) : Type 0 where
  pub heap : IsHeap h
  pub indexed : Indexed h
  pub bounded : h.size ≤ max_tasks

-- `g` is a queue of the tasks of `h` and of `t`, and no task has changed but for its heap_idx.
pub record Pushed (h : RunQueue) (t : Ptr) (g : RunQueue) : Type 0 where
  pub queue : IsQueue g
  pub holds : (p : Ptr) → occurrences g p ≡ occurrences h p + one_if (t == p)
  pub size : g.size ≡ h.size + 1
  pub tasks : (p : Ptr) → g.tasks p ≡ record (h.tasks p) { heap_idx = (g.tasks p).heap_idx }

module _ (h : RunQueue) (t : Ptr) (v : IsQueue h) (fresh : occurrences h t ≡ 0) where
  abbrev appended : RunQueue
  appended = record h {
    slots = update h.slots h.size t;
    tasks = set_idx h.tasks t (some h.size);
    size = suc h.size;
  }

  appended-UpInv : UpInv appended h.size
  appended-UpInv = record {
    inside = omega arith;
    edges = λ c p q r. ground (arith, v.heap c);
    bridged = λ c p q r s. absurd (omega arith);
  }

  appended-Indexed : Indexed appended
  appended-Indexed i hi = ground (arith, v.indexed i, absent_slot h t i fresh)

  appended_holds : (p : Ptr) → occurrences appended p ≡ occurrences h p + one_if (t == p)
  unfolding tally
  appended_holds p =
      let rest = tally-update_out (λ q. q == p) h.size h.slots h.size t (omega arith) in
      ground (arith, rest)

-- A push of a task that is not queued, on a queue with room, gives a queue of the same tasks and
-- the new one, with no other change to any task than its heap_idx; on a full queue a push does
-- nothing, so that the task is lost.
pub rq_push-Pushed :
    (h : RunQueue) (t : Ptr)
    → IsQueue h
    → occurrences h t ≡ 0
    → (h.size < max_tasks → Pushed h t (rq_push h t)) × (h.size ≡ max_tasks → rq_push h t ≡ h)
unfolding rq_push
rq_push-Pushed h t v fresh = (with_room, λ e. ground arith)
  where
    with_room : h.size < max_tasks → Pushed h t (rq_push h t)
    with_room room =
        let (order, r) =
          heap_up_restores (appended h t v fresh) h.size (appended-UpInv h t v fresh) in
        let go : leb max_tasks h.size ≡ false = ground arith in
        rw go (record {
          queue = record {
            heap = order;
            indexed = r.indexed (appended-Indexed h t v fresh);
            bounded = omega (arith, r.size);
          };
          holds = λ p. r.same p ∙ appended_holds h t v fresh p;
          size = omega (arith, r.size);
          tasks = λ p. ground (arith, r.tasks p);
        })
