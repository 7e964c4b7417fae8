-- ===== src/Sched/Swap.antt =====
-- Scheduler.c, heap_swap: what it keeps of the queue and of the tasks.
use fexox_os.Base.{
  ℕ, ◌<◌, ◌≡◌, ◌≢◌, refl, ◌∙◌, some, arith, ◌==◌, if◌then◌else◌, update, tally, tally-update,
  tally-pos, ==_iff,
}
use fexox_os.Sched.{Ptr, RunQueue, key, heap_swap}

-- how often the queue holds a task
abbrev pub occurrences : RunQueue → Ptr → ℕ
occurrences h p = tally (λ q. q == p) h.size h.slots

-- each queued task knows its place, so no task is queued twice
abbrev pub Indexed : RunQueue → Type 0
Indexed h = (i : ℕ) → i < h.size → (h.tasks (h.slots i)).heap_idx ≡ some i

-- `g` holds the tasks of `h` in another order: no task has changed but for its heap_idx, which is
-- right in `g` if it was in `h`.
pub record Rearranged (h g : RunQueue) : Type 0 where
  pub size : g.size ≡ h.size
  pub same : (p : Ptr) → occurrences g p ≡ occurrences h p
  pub tasks : (p : Ptr) → g.tasks p ≡ record (h.tasks p) { heap_idx = (g.tasks p).heap_idx }
  pub indexed : Indexed h → Indexed g
  pub outside : (p : Ptr) → occurrences h p ≡ 0 → g.tasks p ≡ h.tasks p

pub key-heap_swap :
    (h : RunQueue) (a b c : ℕ)
    → key (heap_swap h a b) c ≡ (if c == b then key h a else if c == a then key h b else key h c)
unfolding heap_swap
key-heap_swap h a b c = ground arith

swap_same :
    (h : RunQueue) (a b : ℕ)
    → a < h.size
    → b < h.size
    → (p : Ptr) → occurrences (heap_swap h a b) p ≡ occurrences h p
unfolding heap_swap
swap_same h a b ha hb p =
    let test = λ (q : ℕ). q == p in
    let first = tally-update test h.size h.slots a (h.slots b) ha in
    let second = tally-update test h.size (update h.slots a (h.slots b)) b (h.slots a) hb in
    ground (arith, first, second)

swap_tasks :
    (h : RunQueue) (a b : ℕ) (p : Ptr)
    → (heap_swap h a b).tasks p
      ≡ record (h.tasks p) { heap_idx = ((heap_swap h a b).tasks p).heap_idx }
unfolding heap_swap
swap_tasks h a b p = ground arith

heap_swap-Indexed :
    (h : RunQueue) (a b : ℕ)
    → a < h.size
    → b < h.size
    → a ≢ b
    → Indexed h
    → Indexed (heap_swap h a b)
unfolding heap_swap
heap_swap-Indexed h a b ha hb ne v i hi = ground (arith, v i hi, v a ha, v b hb)

-- a task that the queue does not hold stands in no slot of it
pub absent_slot :
    (h : RunQueue) (p : Ptr) (i : ℕ) → occurrences h p ≡ 0 → i < h.size → h.slots i ≢ p
absent_slot h p i none_here hi here =
    omega (arith, tally-pos (λ q. q == p) h.size h.slots i hi ((==_iff _ _).1 here))

swap_outside :
    (h : RunQueue) (a b : ℕ)
    → a < h.size
    → b < h.size
    → (p : Ptr) → occurrences h p ≡ 0
    → (heap_swap h a b).tasks p ≡ h.tasks p
unfolding heap_swap
swap_outside h a b ha hb p e = ground (arith, absent_slot h p a e ha, absent_slot h p b e hb)

heap_swap-size : (h : RunQueue) (a b : ℕ) → (heap_swap h a b).size ≡ h.size
unfolding heap_swap
heap_swap-size h a b = refl

pub heap_swap-Rearranged :
    (h : RunQueue) (a b : ℕ) → a < h.size → b < h.size → a ≢ b → Rearranged h (heap_swap h a b)
heap_swap-Rearranged h a b ha hb ne = record {
  size = heap_swap-size h a b;
  same = swap_same h a b ha hb;
  tasks = swap_tasks h a b;
  indexed = heap_swap-Indexed h a b ha hb ne;
  outside = swap_outside h a b ha hb;
}

pub Rearranged-refl : (h : RunQueue) → Rearranged h h
Rearranged-refl h = record {
  size = refl;
  same = λ p. refl;
  tasks = λ p. refl;
  indexed = λ v. v;
  outside = λ p e. refl;
}

pub Rearranged-trans : (f g h : RunQueue) → Rearranged f g → Rearranged g h → Rearranged f h
Rearranged-trans f g h r s = record {
  size = s.size ∙ r.size;
  same = λ p. s.same p ∙ r.same p;
  tasks = λ p. ground (arith, r.tasks p, s.tasks p);
  indexed = λ v. s.indexed (r.indexed v);
  outside = λ p e. s.outside p (r.same p ∙ e) ∙ r.outside p e;
}
