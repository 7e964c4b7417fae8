-- ===== src/Sched/Up.antt =====
-- Scheduler.c, heap_up: it mends the one edge above `i` that may be out of order.
use fexox_os.Base.{ℕ, zero, suc, ◌≤◌, ◌<◌, ◌≢◌, inl, inr, arith, ltb, leb, Bool-cases}
use fexox_os.Sched.{RunQueue, key, parent, heap_swap, heap_up_loop, heap_up}
use fexox_os.Sched.Swap.{
  Rearranged, Rearranged-refl, Rearranged-trans, key-heap_swap, heap_swap-Rearranged,
}
use fexox_os.Sched.Order.{IsHeap, IsBridged}

pub record UpInv (h : RunQueue) (i : ℕ) : Type 0 where
  pub inside : i < h.size
  pub edges : (c : ℕ) → 0 < c → c < h.size → c ≢ i → key h (parent c) ≤ key h c
  pub bridged : IsBridged h i

module _ (h : RunQueue) (i : ℕ) (v : UpInv h i) (pos : 0 < i)
    (behind : key h i < key h (parent i)) where
  moved : Rearranged h (heap_swap h (parent i) i)
  moved = heap_swap-Rearranged h (parent i) i (omega (arith, v.inside)) v.inside (omega arith)

  rise-UpInv : UpInv (heap_swap h (parent i) i) (parent i)
  rise-UpInv =
      let at = key-heap_swap h (parent i) i in
      let size = moved.size in
      record {
        inside = omega (arith, v.inside, size);
        edges = λ c p q r. ground (arith, size, at c, at (parent c), v.edges c, v.bridged c);
        bridged = λ c p q r s.
            ground (
              arith,
              size,
              at c,
              at (parent (parent i)),
              v.edges c,
              v.edges (parent i),
              v.bridged c,
            );
      }

heap_up_loop_restores :
    (k : ℕ) (h : RunQueue) (i : ℕ)
    → i < k
    → UpInv h i
    → IsHeap (heap_up_loop k h i) × Rearranged h (heap_up_loop k h i)
unfolding heap_up_loop
heap_up_loop_restores zero h i f v = absurd (omega arith)
heap_up_loop_restores (suc k) h i f v = elim (Bool-cases (ltb 0 i)) [
  | inr root ↦ rw root (λ c p q. v.edges c p q (ground arith), Rearranged-refl h)
  | inl pos ↦ elim (Bool-cases (leb (key h (parent i)) (key h i))) [
    | inl settled ↦ rw (pos, settled) (λ c p q. ground (arith, v.edges c p q), Rearranged-refl h)
    | inr behind ↦
        let up =
          heap_up_loop_restores k (heap_swap h (parent i) i) (parent i) (ground arith)
            (rise-UpInv h i v (ground arith) (ground arith)) in
        rw (pos, behind)
          (up.0, Rearranged-trans h _ _ (moved h i v (ground arith) (ground arith)) up.1)
  ]
]

-- heap_up makes a heap of the same tasks of a queue with one task too far down.
pub heap_up_restores :
    (h : RunQueue) (i : ℕ) → UpInv h i → IsHeap (heap_up h i) × Rearranged h (heap_up h i)
unfolding heap_up
heap_up_restores h i v = heap_up_loop_restores (suc i) h i (omega arith) v
