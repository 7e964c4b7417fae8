-- ===== src/Syscall/Ring.antt =====
-- Syscall.c and Syscall.h, the pipe: a ring of bytes, and the loops of sc_read and sc_write on it.
pub mod Fifo
use fexox_os.Base.{
  ℕ, zero, suc, ◌+◌, ◌%◌, Bool, true, false, List, [], ◌∷◌, ltb, leb, if◌then◌else◌, update, add32,
  sub32,
}

abbrev pub pipe_buf_size : ℕ
pipe_buf_size = 4096

-- `pipe_t`
pub record Pipe : Type 0 where
  pub buf : ℕ → ℕ
  pub read_pos : ℕ
  pub write_pos : ℕ
  pub count : ℕ
  pub valid : Bool
  pub write_closed : Bool
  pub read_closed : Bool

-- what memset leaves, with the slot marked as valid
abbrev pub empty_pipe : Pipe
empty_pipe = record {
  buf = λ i. 0;
  read_pos = 0;
  write_pos = 0;
  count = 0;
  valid = true;
  write_closed = false;
  read_closed = false;
}

-- the loop of sc_read over n bytes
unfoldable pub read_loop : (n : ℕ) → Pipe → List ℕ × Pipe
read_loop zero p = ([], p)
read_loop (suc n) p =
    let (bytes, q) = read_loop n (record p { read_pos = (p.read_pos + 1) % pipe_buf_size }) in
    (p.buf p.read_pos ∷ bytes, q)

-- What sc_read does on a pipe that is not empty: the bytes it copies and the pipe after it.
unfoldable pub pipe_read : Pipe → (count : ℕ) → List ℕ × Pipe
unfolding read_loop
pipe_read p count =
    let n = if ltb count p.count then count else p.count in
    let (bytes, q) = read_loop n p in (bytes, record q { count = sub32 q.count n })

abbrev pub put_byte : Pipe → ℕ → Pipe
put_byte p b = record p {
  buf = update p.buf p.write_pos b;
  write_pos = (p.write_pos + 1) % pipe_buf_size;
  count = add32 p.count 1;
}

-- The loop of sc_write up to its end or to the first round that finds the pipe full, where the task
-- yields; the number is `written`. The loop goes on from there with the bytes that are left.
unfoldable pub write_loop : List ℕ → Pipe → ℕ × Pipe
write_loop [] p = (0, p)
write_loop (b ∷ bytes) p =
    let (n, q) = write_loop bytes (put_byte p b) in
    if leb pipe_buf_size p.count then (0, p) else (suc n, q)

-- One turn of a task on the pipe.
pub data Turn : Type 0 where
  reads : (count : ℕ) → Turn
  writes : (bytes : List ℕ) → Turn
