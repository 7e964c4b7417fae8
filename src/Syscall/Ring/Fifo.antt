-- ===== src/Syscall/Ring/Fifo.antt =====
-- Syscall.c, the pipe keeps its bytes in order.
use fexox_os.Base.{
  ℕ, zero, suc, ◌+◌, ◌-◌, ◌%◌, ◌≤◌, ◌<◌, ◌≡◌, ◌≢◌, refl, sym, ap, ◌∙◌, false, List, [], ◌∷◌, ◌++◌,
  arith, ltb, leb, ◌==◌, if◌then◌else◌, update, min, take, length, Bool-cases, inl, inr, add32,
  sub32,
}
use mathlib.Core.List.{append_assoc, append-nil}
use fexox_os.Syscall.Ring.{
  Pipe, pipe_buf_size, read_loop, pipe_read, put_byte, write_loop, Turn, reads, writes,
}

-- the n bytes of the ring from position i on
unfoldable slice : (n i : ℕ) → (ℕ → ℕ) → List ℕ
slice zero i f = []
slice (suc n) i f = f (i % pipe_buf_size) ∷ slice n (i + 1) f

-- The bytes written and not yet read, the oldest first.
unfoldable pub contents : Pipe → List ℕ
unfolding slice
contents p = slice p.count p.read_pos p.buf

pub record IsRing (p : Pipe) : Type 0 where
  pub read_in : p.read_pos < pipe_buf_size
  pub fits : p.count ≤ pipe_buf_size
  pub behind : p.write_pos ≡ (p.read_pos + p.count) % pipe_buf_size

slice_congr :
    (n i j : ℕ) (f : ℕ → ℕ) → i % pipe_buf_size ≡ j % pipe_buf_size → slice n i f ≡ slice n j f
unfolding slice
slice_congr zero i j f h = refl
slice_congr (suc n) i j f h =
    let rest = slice_congr n (i + 1) (j + 1) f (omega arith) in rw (h, rest) refl

slice_out :
    (n i k b : ℕ) (f : ℕ → ℕ)
    → ((d : ℕ) → d < n → (i + d) % pipe_buf_size ≢ k)
    → slice n i (update f k b) ≡ slice n i f
unfolding slice
slice_out zero i k b f h = refl
slice_out (suc n) i k b f h =
    let rest = slice_out n (i + 1) k b f (λ d p e. h (d + 1) (omega arith) (omega arith)) in
    let apart : ((i % pipe_buf_size) == k) ≡ false = ground (arith, h 0 (omega arith)) in
    rw (apart, rest) refl

slice_last :
    (n i : ℕ) (f : ℕ → ℕ) → slice (suc n) i f ≡ slice n i f ++ (f ((i + n) % pipe_buf_size) ∷ [])
unfolding slice
slice_last zero i f = let e : i + 0 ≡ i = omega arith in rw e refl
slice_last (suc n) i f =
    let e : i + suc n ≡ i + 1 + n = omega arith in
    rw e (ap (λ t. f (i % pipe_buf_size) ∷ t) (slice_last n (i + 1) f))

-- the loop of a read, before it takes the bytes off the count
read_loop_lem :
    (n m : ℕ) (p : Pipe)
    → p.read_pos < pipe_buf_size
    → ((read_loop n p).0 ++ slice m ((read_loop n p).1).read_pos p.buf
        ≡ slice (n + m) p.read_pos p.buf)
      × ((read_loop n p).1 ≡ record p { read_pos = (p.read_pos + n) % pipe_buf_size })
unfolding read_loop slice
read_loop_lem zero m p h =
    let e : p.read_pos ≡ (p.read_pos + 0) % pipe_buf_size = omega arith in
    let z : 0 + m ≡ m = omega arith in (rw z refl, rw (sym e) refl)
read_loop_lem (suc n) m p h =
    let (rest, state) =
      read_loop_lem n m (record p { read_pos = (p.read_pos + 1) % pipe_buf_size }) (omega arith) in
    let e : suc n + m ≡ suc (n + m) = omega arith in
    let here : p.read_pos % pipe_buf_size ≡ p.read_pos = omega arith in
    let there : ((p.read_pos + 1) % pipe_buf_size + n) % pipe_buf_size
        ≡ (p.read_pos + suc n) % pipe_buf_size =
      omega arith in
    (
      rw (e, here)
          (ap (λ t. p.buf p.read_pos ∷ t)
            (rest
              ∙ slice_congr (n + m) ((p.read_pos + 1) % pipe_buf_size) (p.read_pos + 1) p.buf
                  (omega arith))),
      rw state (rw there refl),
    )

length_read : (n : ℕ) (p : Pipe) → length (read_loop n p).0 ≡ n
unfolding read_loop
length_read zero p = refl
length_read (suc n) p =
    ap suc (length_read n (record p { read_pos = (p.read_pos + 1) % pipe_buf_size }))

pub record Read (p : Pipe) (count : ℕ) (bytes : List ℕ) (q : Pipe) : Type 0 where
  pub ring : IsRing q
  pub order : bytes ++ contents q ≡ contents p
  pub amount : length bytes ≡ min count p.count
  pub sizes : q.count + length bytes ≡ p.count

-- From a pipe whose counters agree, a read copies the oldest bytes in their order, as many as are
-- asked for and there are, and leaves the others, with counters that agree.
pub pipe_read-Read :
    (p : Pipe) (count : ℕ) → IsRing p → Read p count (pipe_read p count).0 (pipe_read p count).1
unfolding pipe_read contents
pipe_read-Read p count v =
    let n = min count p.count in
    let e : (if ltb count p.count then count else p.count) ≡ n = ground arith in
    let (order, state) = read_loop_lem n (p.count - n) p v.read_in in
    let counted : sub32 ((read_loop n p).1).count n ≡ p.count - n =
      rw state (omega (arith, v.fits)) in
    let sum : n + (p.count - n) ≡ p.count = omega arith in
    let buf : ((read_loop n p).1).buf ≡ p.buf = rw state refl in
    rw e (record {
      ring = record {
        read_in = rw state (omega arith);
        fits = rw counted (omega (arith, v.fits));
        behind = rw (counted, state) (omega (arith, v.behind));
      };
      order = rw (counted, buf) (order ∙ ap (λ k. slice k p.read_pos p.buf) sum);
      amount = length_read n p;
      sizes = rw (counted, length_read n p) (omega arith);
    })

put_byte-IsRing : (p : Pipe) (b : ℕ) → IsRing p → p.count < pipe_buf_size → IsRing (put_byte p b)
put_byte-IsRing p b v room = record {
  read_in = v.read_in;
  fits = omega arith;
  behind = omega (arith, v.behind);
}

contents-put_byte :
    (p : Pipe) (b : ℕ)
    → IsRing p
    → p.count < pipe_buf_size
    → contents (put_byte p b) ≡ contents p ++ (b ∷ [])
unfolding contents
contents-put_byte p b v room =
    let counted : add32 p.count 1 ≡ suc p.count = omega arith in
    let at_end : (p.read_pos + p.count) % pipe_buf_size ≡ p.write_pos = sym v.behind in
    let written : update p.buf p.write_pos b p.write_pos ≡ b = ground arith in
    let kept =
      slice_out p.count p.read_pos p.write_pos b p.buf
        (λ d h e. omega (arith, v.behind, v.read_in)) in
    rw counted
      (slice_last p.count p.read_pos (update p.buf p.write_pos b) ∙ rw (at_end, written, kept) refl)

pub record Written (p : Pipe) (bytes : List ℕ) (n : ℕ) (q : Pipe) : Type 0 where
  pub ring : IsRing q
  pub order : contents q ≡ contents p ++ take n bytes
  pub amount : n ≡ min (length bytes) (pipe_buf_size - p.count)

-- To a pipe whose counters agree, a write appends the first of its bytes in their order, all of them
-- or as many as there is room for, and leaves counters that agree.
pub write_loop-Written :
    (bytes : List ℕ) (p : Pipe)
    → IsRing p
    → Written p bytes (write_loop bytes p).0 (write_loop bytes p).1
unfolding write_loop
write_loop-Written [] p v = record {
  ring = v;
  order = sym (append-nil (contents p));
  amount = ground arith;
}
write_loop-Written (b ∷ bytes) p v = elim (Bool-cases (leb pipe_buf_size p.count)) [
  | inl full ↦
      rw full (record {
        ring = v;
        order = sym (append-nil (contents p));
        amount = ground (arith, v.fits);
      })
  | inr room ↦
      let free : p.count < pipe_buf_size = ground arith in
      let rest = write_loop-Written bytes (put_byte p b) (put_byte-IsRing p b v free) in
      let counted : add32 p.count 1 ≡ p.count + 1 = omega arith in
      rw room (record {
        ring = rest.ring;
        order =
            rest.order
            ∙ ap (λ t. t ++ take (write_loop bytes (put_byte p b)).0 bytes)
                (contents-put_byte p b v free)
            ∙ append_assoc (contents p) (b ∷ []) _;
        amount = omega (arith, rest.amount, counted);
      })
]

-- The turns in their order: all bytes read, all bytes that went into the pipe, and the pipe at the
-- end.
unfoldable pub run : List Turn → Pipe → List ℕ × List ℕ × Pipe
run [] p = ([], [], p)
run (reads count ∷ turns) p =
    let (bytes, q) = pipe_read p count in
    let (out, into, last) = run turns q in (bytes ++ out, into, last)
run (writes bytes ∷ turns) p =
    let (n, q) = write_loop bytes p in
    let (out, into, last) = run turns q in (out, take n bytes ++ into, last)

-- Over any sequence of reads and writes on a pipe whose counters agree, what was read is, byte for
-- byte and in order, what was in the pipe and what the writes put into it after that, but for what
-- is still in the pipe at the end; and the counters agree at the end.
pub pipe-run :
    (turns : List Turn) (p : Pipe)
    → IsRing p
    → ((run turns p).0 ++ contents (run turns p).2 ≡ contents p ++ (run turns p).1)
      × IsRing (run turns p).2
unfolding run
pipe-run [] p v = (sym (append-nil (contents p)), v)
pipe-run (reads count ∷ turns) p v =
    let first = pipe_read-Read p count v in
    let q = (pipe_read p count).1 in
    let (order, ring) = pipe-run turns q first.ring in
    (
      append_assoc (pipe_read p count).0 _ _
          ∙ ap (λ t. (pipe_read p count).0 ++ t) order
          ∙ sym (append_assoc (pipe_read p count).0 (contents q) _)
          ∙ ap (λ t. t ++ (run turns q).1) first.order,
      ring,
    )
pipe-run (writes bytes ∷ turns) p v =
    let first = write_loop-Written bytes p v in
    let q = (write_loop bytes p).1 in
    let (order, ring) = pipe-run turns q first.ring in
    (order ∙ ap (λ t. t ++ (run turns q).1) first.order ∙ append_assoc (contents p) _ _, ring)
