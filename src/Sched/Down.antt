-- ===== src/Sched/Down.antt =====
-- Scheduler.c, heap_down: it mends the edges below `i` that may be out of order.
use fexox_os.Base.{
  ℕ, zero, suc, ◌+◌, ◌*◌, ◌≤◌, ◌<◌, ◌≡◌, ◌≢◌, ◌⊎◌, inl, inr, arith, ◌==◌, Bool-cases,
}
use fexox_os.Sched.{RunQueue, key, parent, heap_swap, smallest_of, heap_down_loop, heap_down}
use fexox_os.Sched.Swap.{
  Rearranged, Rearranged-refl, Rearranged-trans, key-heap_swap, heap_swap-Rearranged,
}
use fexox_os.Sched.Order.{IsHeap, IsBridged}

pub record DownInv (h : RunQueue) (i : ℕ) : Type 0 where
  pub edges : (c : ℕ) → 0 < c → c < h.size → parent c ≢ i → key h (parent c) ≤ key h c
  pub bridged : IsBridged h i

-- what the two tests find: `i` itself, or the child of `i` that runs least
record Smallest (h : RunQueue) (i m : ℕ) : Type 0 where
  child : (m ≡ i) ⊎ (m < h.size) × (0 < m) × (parent m ≡ i) × (key h m < key h i)
  least : (c : ℕ) → 0 < c → c < h.size → parent c ≡ i → key h m ≤ key h c

child_of : (i c : ℕ) → 0 < c → parent c ≡ i → (c ≡ 2 * i + 1) ⊎ (c ≡ 2 * i + 2)
child_of i c p e = omega arith

smallest_of-Smallest : (h : RunQueue) (i : ℕ) → Smallest h i (smallest_of h i)
unfolding smallest_of
smallest_of-Smallest h i = record {
  child = ground arith;
  least = λ c p q e. ground (arith, child_of i c p e);
}

module _ (h : RunQueue) (i m : ℕ) (v : DownInv h i) (s : Smallest h i m) (inside : m < h.size)
    (pos : 0 < m) (below : parent m ≡ i) (ahead : key h m < key h i) where
  moved : Rearranged h (heap_swap h i m)
  moved = heap_swap-Rearranged h i m (omega arith) inside (omega arith)

  sink-DownInv : DownInv (heap_swap h i m) m
  sink-DownInv =
      let at = key-heap_swap h i m in
      let size = moved.size in
      record {
        edges =
            λ c p q r. ground (arith, size, at c, at (parent c), v.edges c, v.bridged m, s.least c);
        bridged = λ c p q r t. ground (arith, size, at c, at (parent m), v.edges c);
      }

heap_down_loop_restores :
    (k : ℕ) (h : RunQueue) (i : ℕ)
    → h.size < i + k
    → DownInv h i
    → IsHeap (heap_down_loop k h i) × Rearranged h (heap_down_loop k h i)
unfolding heap_down_loop
heap_down_loop_restores zero h i f v = (λ c p q. v.edges c p q (omega arith), Rearranged-refl h)
heap_down_loop_restores (suc k) h i f v = elim (Bool-cases (smallest_of h i == i)) [
  | inl settled ↦
      let s = smallest_of-Smallest h i in
      rw settled (λ c p q. ground (arith, v.edges c p q, s.least c p q), Rearranged-refl h)
  | inr lower ↦
      let s = smallest_of-Smallest h i in
      let m = smallest_of h i in
      elim s.child [
        | inl same ↦ absurd (ground arith)
        | inr (inside, pos, below, ahead) ↦
            let swapped = moved h i m v s inside pos below ahead in
            let down =
              heap_down_loop_restores k (heap_swap h i m) m (omega (arith, swapped.size))
                (sink-DownInv h i m v s inside pos below ahead) in
            rw lower (down.0, Rearranged-trans h _ _ swapped down.1)
      ]
]

-- heap_down makes a heap of the same tasks of a queue with one task too far up.
pub heap_down_restores :
    (h : RunQueue) (i : ℕ) → DownInv h i → IsHeap (heap_down h i) × Rearranged h (heap_down h i)
unfolding heap_down
heap_down_restores h i v = heap_down_loop_restores (suc h.size) h i (omega arith) v
