-- ===== src/Sched.antt =====
-- Scheduler.c and Scheduler.h: the task control block and the run queue, a binary min-heap of task
-- pointers ordered by vruntime. A pointer is a number, 0 is NULL, and the task_t objects live in a
-- store that the queue carries along, since its operations write heap_idx into them.
-- Indices stay below twice SCHED_MAX_TASKS plus two, so `int` does not overflow.
pub mod Swap
pub mod Order
pub mod Up
pub mod Down
pub mod Push
pub mod Pop
pub mod Weight
pub mod Core
pub mod Calls
pub mod Monotone
pub mod Valid
pub mod Account
pub mod Leave
pub mod Pick
pub mod Switch
pub mod Keep
pub mod Wake
pub mod Halt
pub mod Depart
pub mod Reach
pub mod Start
mod Tests
use fexox_os.Base.{
  ℕ, zero, suc, ◌+◌, ◌-◌, ◌*◌, ◌/◌, Bool, true, false, ◌&&◌, ◌||◌, Option, none, some, ltb, leb,
  ◌==◌, if◌then◌else◌, update,
}

-- `task_state_t`
pub data TaskState : Type 0 where
  running runnable sleeping zombie dead : TaskState

abbrev pub Ptr : Type 0
Ptr = ℕ

abbrev pub null : Ptr
null = 0

-- `task_t`, without the name, the stack's bounds, start_time and pml4_phys, which no scheduling
-- decision reads; of the saved context only ctx.rsp is used. `heap_idx` is none for -1.
pub record Task : Type 0 where
  pub tid : ℕ
  pub state : TaskState
  pub vruntime : ℕ
  pub weight : ℕ
  pub rsp : ℕ
  pub next_all : Ptr
  pub prev_all : Ptr
  pub heap_idx : Option ℕ
  pub total_runtime : ℕ
  pub switches : ℕ

-- `run_queue_t`: `slots` is its array, beside the store of tasks.
pub record RunQueue : Type 0 where
  pub tasks : Ptr → Task
  pub slots : ℕ → Ptr
  pub size : ℕ

abbrev pub max_tasks : ℕ
max_tasks = 1024

-- `h->data[i]->vruntime`
abbrev pub key : RunQueue → ℕ → ℕ
key h i = (h.tasks (h.slots i)).vruntime

-- `p->heap_idx = i`
abbrev pub set_idx : (Ptr → Task) → Ptr → Option ℕ → Ptr → Task
set_idx tasks p i = update tasks p (record (tasks p) { heap_idx = i })

unfoldable pub heap_swap : RunQueue → (a b : ℕ) → RunQueue
heap_swap h a b =
    let slots = update (update h.slots a (h.slots b)) b (h.slots a) in
    record h {
      slots = slots;
      tasks = set_idx (set_idx h.tasks (slots a) (some a)) (slots b) (some b);
    }

abbrev pub parent : ℕ → ℕ
parent i = (i - 1) / 2

-- The parent of i is below i, so `suc i` rounds are enough.
unfoldable pub heap_up_loop : (fuel : ℕ) → RunQueue → ℕ → RunQueue
heap_up_loop zero h i = h
heap_up_loop (suc k) h i =
    let rise = heap_up_loop k (heap_swap h (parent i) i) (parent i) in
    if ltb 0 i then (if leb (key h (parent i)) (key h i) then h else rise) else h

unfoldable pub heap_up : RunQueue → ℕ → RunQueue
unfolding heap_up_loop
heap_up h i = heap_up_loop (suc i) h i

-- the index that the two tests of heap_down leave in `smallest`
unfoldable pub smallest_of : RunQueue → ℕ → ℕ
smallest_of h i =
    let l = 2 * i + 1 in
    let r = 2 * i + 2 in
    let m = if ltb l h.size && ltb (key h l) (key h i) then l else i in
    if ltb r h.size && ltb (key h r) (key h m) then r else m

-- `i` grows with each swap and stays below the size, so `suc size` rounds are enough.
unfoldable pub heap_down_loop : (fuel : ℕ) → RunQueue → ℕ → RunQueue
heap_down_loop zero h i = h
heap_down_loop (suc k) h i =
    let smallest = smallest_of h i in
    let sink = heap_down_loop k (heap_swap h i smallest) smallest in
    if smallest == i then h else sink

unfoldable pub heap_down : RunQueue → ℕ → RunQueue
unfolding heap_down_loop
heap_down h i = heap_down_loop (suc h.size) h i

unfoldable pub rq_push : RunQueue → Ptr → RunQueue
unfolding heap_up
rq_push h t =
    if leb max_tasks h.size
    then h
    else heap_up
        (record h {
          slots = update h.slots h.size t;
          tasks = set_idx h.tasks t (some h.size);
          size = suc h.size;
        })
        h.size

-- `null` is returned, and nothing changed, on an empty queue.
unfoldable pub rq_pop : RunQueue → Ptr × RunQueue
unfolding heap_down
rq_pop h =
    let top = h.slots 0 in
    let n = h.size - 1 in
    let without = record h { tasks = set_idx h.tasks top none; size = n } in
    let moved = record without {
      slots = update h.slots 0 (h.slots n);
      tasks = set_idx without.tasks (h.slots n) (some 0);
    } in
    if h.size == 0 then (null, h) else (top, if ltb 0 n then heap_down moved 0 else without)

unfoldable pub rq_min_vruntime : RunQueue → ℕ
rq_min_vruntime h = if ltb 0 h.size then key h 0 else 0
