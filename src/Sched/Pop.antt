-- ===== src/Sched/Pop.antt =====
-- Scheduler.c, rq_pop.
use fexox_os.Base.{
  ℕ, suc, ◌+◌, ◌-◌, ◌≤◌, ◌<◌, ◌≡◌, ◌≢◌, ◌∙◌, sym, ap, false, none, some, arith, ltb, ◌==◌, ==_iff,
  update, one_if, tally, tally-update, tally-zero, tally-witness, Bool-cases, inl, inr,
}
use fexox_os.Sched.{Ptr, null, RunQueue, key, set_idx, rq_pop}
use fexox_os.Sched.Swap.{occurrences, Indexed}
use fexox_os.Sched.Order.{IsHeap, root_least}
use fexox_os.Sched.Down.{DownInv, heap_down_restores}
use fexox_os.Sched.Push.{IsQueue}

-- `t` is a task of `h` that runs least, and `g` a queue of the others.
pub record Popped (h : RunQueue) (t : Ptr) (g : RunQueue) : Type 0 where
  pub queue : IsQueue g
  pub holds : (p : Ptr) → occurrences g p + one_if (t == p) ≡ occurrences h p
  pub least : (p : Ptr) → 1 ≤ occurrences h p → (h.tasks t).vruntime ≤ (h.tasks p).vruntime
  pub size : g.size + 1 ≡ h.size
  pub tasks : (p : Ptr) → g.tasks p ≡ record (h.tasks p) { heap_idx = (g.tasks p).heap_idx }
  pub unlinked : (g.tasks t).heap_idx ≡ none

least_of_queue :
    (h : RunQueue)
    → IsHeap h
    → (p : Ptr) → 1 ≤ occurrences h p
    → (h.tasks (h.slots 0)).vruntime ≤ (h.tasks p).vruntime
least_of_queue h v p e =
    let (i, hi, at) = tally-witness (λ q. q == p) h.size h.slots e in
    let here : h.slots i ≡ p = (==_iff _ _).0 at in rw (here, key) at (root_least h i v hi)

module _ (h : RunQueue) (n : ℕ) (v : IsQueue h) (size : h.size ≡ suc n) where
  abbrev without : RunQueue
  without = record h { tasks = set_idx h.tasks (h.slots 0) none; size = n }

  abbrev moved : RunQueue
  moved = record without {
    slots = update h.slots 0 (h.slots n);
    tasks = set_idx without.tasks (h.slots n) (some 0);
  }

  distinct : (i j : ℕ) → i ≤ n → j ≤ n → i ≢ j → h.slots i ≢ h.slots j
  distinct i j hi hj ne e =
      let at = v.indexed i (omega arith) in
      let at' = v.indexed j (omega arith) in ground (arith, ap (λ p. (h.tasks p).heap_idx) e)

  moved-DownInv : DownInv moved 0
  moved-DownInv = record {
    edges = λ c p q r. ground (arith, v.heap c);
    bridged = λ c p q r s. absurd (omega arith);
  }

  moved-Indexed : 0 < n → Indexed moved
  moved-Indexed pos i hi = ground (
    arith,
    v.indexed i,
    distinct i n (omega arith) (omega arith),
    distinct i 0 (omega arith) (omega arith),
  )

  all_slots : (p : Ptr) → occurrences h p ≡ tally (λ q. q == p) n h.slots + one_if (h.slots n == p)
  unfolding tally
  all_slots p = ap (λ k. tally (λ q. q == p) k h.slots) size

  last_holds : n ≡ 0 → (p : Ptr) → occurrences without p + one_if (h.slots 0 == p) ≡ occurrences h p
  last_holds z p = sym (all_slots p ∙ ap (λ k. occurrences without p + one_if (h.slots k == p)) z)

  moved_holds : 0 < n → (p : Ptr) → occurrences moved p + one_if (h.slots 0 == p) ≡ occurrences h p
  moved_holds pos p =
      let test = λ (q : ℕ). q == p in
      let swapped = tally-update test n h.slots 0 (h.slots n) pos in
      omega (arith, swapped, all_slots p)

  moved_lacks : 0 < n → occurrences moved (h.slots 0) ≡ 0
  moved_lacks pos =
      tally-zero (λ q. q == h.slots 0) n moved.slots
        λ i hi. ground (
          arith,
          distinct i 0 (omega arith) (omega arith),
          distinct n 0 (omega arith) (omega arith) (omega arith),
        )

-- A pop of a queue that is not empty returns a task of the queue that has run least, marks it as
-- not queued, and leaves a queue of the other tasks, changing nothing else in any task than its
-- heap_idx. On an empty queue it returns NULL and changes nothing.
pub rq_pop-Popped :
    (h : RunQueue)
    → IsQueue h
    → (0 < h.size → Popped h (rq_pop h).0 (rq_pop h).1) × (h.size ≡ 0 → rq_pop h ≡ (null, h))
unfolding rq_pop
rq_pop-Popped h v = (some_task, λ e. ground arith)
  where
    n : ℕ
    n = h.size - 1

    some_task : 0 < h.size → Popped h (rq_pop h).0 (rq_pop h).1
    some_task pos =
        let size : h.size ≡ suc n = omega arith in
        let busy : (h.size == 0) ≡ false = ground arith in
        let least = least_of_queue h v.heap in
        elim (Bool-cases (ltb 0 n)) [
          | inr last ↦
              rw (busy, last)
                (record {
                  queue = record {
                    heap = λ c p q. absurd (ground arith);
                    indexed = λ i p. absurd (ground arith);
                    bounded = omega (arith, v.bounded);
                  };
                  holds = λ p. last_holds h n v size (ground arith) p;
                  least = least;
                  size = omega arith;
                  tasks = λ p. ground arith;
                  unlinked = ground arith;
                })
          | inl more ↦
              let many : 0 < n = ground arith in
              let (order, r) = heap_down_restores (moved h n v size) 0 (moved-DownInv h n v size) in
              let apart = distinct h n v size n 0 (omega arith) (omega arith) (omega arith) in
              rw (busy, more)
                (record {
                  queue = record {
                    heap = order;
                    indexed = r.indexed (moved-Indexed h n v size many);
                    bounded = omega (arith, v.bounded, r.size);
                  };
                  holds = λ p. omega (arith, r.same p, moved_holds h n v size many p);
                  least = least;
                  size = omega (arith, r.size);
                  tasks = λ p. ground (arith, r.tasks p);
                  unlinked =
                      ground (arith, r.outside (h.slots 0) (moved_lacks h n v size many), apart);
                })
        ]
