-- ===== src/Syscall/Calls.antt =====
-- Syscall.c: open, close, read, write and lseek.
use fexox_os.Base.{
  ℕ, ◌%◌, true, false, ◌||◌, ◌&&◌, not, none, some, List, length, ltb, ◌==◌, if◌then◌else◌, update,
  bit_and, u32_mod,
}
use fexox_os.Base.Int.{ℤ, pos, negsuc}
use fexox_os.Syscall.Ring.{Pipe, pipe_read, write_loop}
use fexox_os.Syscall.{
  Ret, returns, fails, File, no_file, Vfs, System, max_path, enoent, eio, ebadf, enomem, efault,
  eisdir, einval, enfile, emfile, enospc, erofs, epipe, eoverflow, sc_alloc_fd, fd_of, sc_get_file,
  syscall_validate_ptr, sc_copy_string,
}

abbrev pub o_accmode : ℕ
o_accmode = 3

-- the errors of VFS.h: negsuc n is -(n + 1)
abbrev pub open_error : ℤ → ℕ
open_error (pos n) = eio
open_error (negsuc n) =
    if n == 1
    then enoent
    else if n == 0
    then enomem
    else if n == 11
    then enfile
    else if n == 3
    then eisdir
    else if n == 10
    then erofs
    else eio

-- What a VFS call returned, with its errors mapped by `error`.
abbrev pub result_of : (error : ℤ → ℕ) → ℤ → Ret
result_of error (pos n) = returns n
result_of error (negsuc n) = fails (error (negsuc n))

abbrev pub read_error : ℤ → ℕ
read_error (pos n) = eio
read_error (negsuc n) = if n == 12 then ebadf else eio

abbrev pub write_error : ℤ → ℕ
write_error (pos n) = eio
write_error (negsuc n) = if n == 10 then erofs else if n == 6 then enospc else eio

abbrev pub seek_error : ℤ → ℕ
seek_error (pos n) = einval
seek_error (negsuc n) = if n == 13 then eoverflow else einval

-- The pipe that a descriptor names. Every entry with a pipe flag has an index.
abbrev pub index_of_pipe : File → ℕ
index_of_pipe f = elim f.pipe_idx [ none ↦ 0 | some i ↦ i ]

-- What a read or a write leads to: an answer, or the wait for another task.
pub data Progress (V : Type 0) : Type 0 where
  answers : Ret → System V → Progress V
  reads_bytes : List ℕ → System V → Progress V
  waits : (written : ℕ) → System V → Progress V

abbrev pub opened : (vfd : ℤ) → (flags : ℕ) → File
opened vfd flags = record {
  is_open = true;
  vfs_fd = vfd;
  flags = flags % u32_mod;
  fd_flags = 0;
  is_pipe_read = false;
  is_pipe_write = false;
  pipe_idx = none;
}

-- the end of a pipe that a descriptor was
abbrev pub close_end : File → Pipe → Pipe
close_end f p =
    let write_closed = p.write_closed || f.is_pipe_write in
    let read_closed = p.read_closed || f.is_pipe_read in
    record p {
      write_closed = write_closed;
      read_closed = read_closed;
      valid = if write_closed && read_closed then false else p.valid;
    }

-- One round of a read on a pipe, when the task has yielded `waited` times.
unfoldable pub read_pipe : {V : Type 0} → System V → File → (count waited : ℕ) → Progress V
read_pipe s f count waited =
    let p = s.pipes (index_of_pipe f) in
    let (bytes, q) = pipe_read p count in
    if not p.valid && waited == 0
    then answers (fails ebadf) s
    else if ltb 1000000 waited
    then answers (fails eio) s
    else if not (p.count == 0)
    then reads_bytes bytes (record s { pipes = update s.pipes (index_of_pipe f) q })
    else if p.write_closed
    then answers (returns 0) s
    else waits 0 s

-- A write on a pipe, up to its end or to its first wait.
unfoldable pub write_pipe : {V : Type 0} → System V → File → (bytes : List ℕ) → Progress V
write_pipe s f bytes =
    let p = s.pipes (index_of_pipe f) in
    let (n, q) = write_loop bytes p in
    let s1 = record s { pipes = update s.pipes (index_of_pipe f) q } in
    if not p.valid || p.read_closed
    then answers (fails epipe) s
    else if ltb n (length bytes)
    then waits n s1
    else answers (returns (length bytes)) s1

module _ {V : Type 0} (ops : Vfs V) where
  -- the part of sc_open after vfs_open has given a descriptor
  unfoldable pub install : System V → (vfd : ℤ) → (flags : ℕ) → Ret × System V
  install s vfd flags = elim (sc_alloc_fd s.files) [
    | none ↦ (fails emfile, record s { vfs = ops.close_ s.vfs vfd })
    | some fd ↦ (returns fd, record s { files = update s.files fd (opened vfd flags) })
  ]

  unfoldable pub sc_open : System V → (memory : ℕ → ℕ) → (path_ptr flags : ℕ) → Ret × System V
  unfolding install
  sc_open s memory path_ptr flags = elim (sc_copy_string memory path_ptr max_path) [
    | none ↦ (fails efault, s)
    | some path ↦
        let (vfd, vfs) = ops.open_ s.vfs path (flags % u32_mod) in
        let s1 = record s { vfs = vfs } in
        elim vfd [
          | pos n ↦ install s1 (pos n) flags
          | negsuc n ↦ (fails (open_error (negsuc n)), s1)
        ]
  ]

  unfoldable pub sc_close : System V → (fd_arg : ℕ) → Ret × System V
  sc_close s fd_arg = elim (sc_get_file s.files (fd_of fd_arg)) [
    | none ↦ (fails ebadf, s)
    | some f ↦
        let s1 =
          if f.is_pipe_read || f.is_pipe_write
          then record s {
            pipes = update s.pipes (index_of_pipe f) (close_end f (s.pipes (index_of_pipe f)));
          }
          else record s { vfs = ops.close_ s.vfs f.vfs_fd } in
        (returns 0, record s1 { files = update s.files (fd_of fd_arg) no_file })
  ]

  unfoldable pub read_file : System V → File → (count : ℕ) → Progress V
  read_file s f count =
      let (n, bytes, vfs) = ops.read_ s.vfs f.vfs_fd count in
      let s1 = record s { vfs = vfs } in
      if f.flags == 1 then answers (fails ebadf) s else elim n [
        | pos n ↦ reads_bytes bytes s1
        | negsuc n ↦ answers (fails (read_error (negsuc n))) s1
      ]

  unfoldable pub sc_read : System V → (fd_arg buf_ptr count waited : ℕ) → Progress V
  unfolding read_pipe read_file
  sc_read s fd_arg buf_ptr count waited =
      if count == 0
      then answers (returns 0) s
      else if not (syscall_validate_ptr buf_ptr count)
      then answers (fails efault) s
      else elim (sc_get_file s.files (fd_of fd_arg)) [
        | none ↦ answers (fails ebadf) s
        | some f ↦ if f.is_pipe_read then read_pipe s f count waited else read_file s f count
      ]

  unfoldable pub write_file : System V → File → (bytes : List ℕ) → Progress V
  write_file s f bytes =
      let (n, vfs) = ops.write_ s.vfs f.vfs_fd bytes in
      if bit_and f.flags o_accmode == 0
      then answers (fails ebadf) s
      else answers (result_of write_error n) (record s { vfs = vfs })

  -- The bytes of the buffer stand for buf_ptr and count.
  unfoldable pub sc_write : System V → (fd_arg buf_ptr : ℕ) → (bytes : List ℕ) → Progress V
  unfolding write_pipe write_file
  sc_write s fd_arg buf_ptr bytes =
      if length bytes == 0
      then answers (returns 0) s
      else if not (syscall_validate_ptr buf_ptr (length bytes))
      then answers (fails efault) s
      else elim (sc_get_file s.files (fd_of fd_arg)) [
        | none ↦ answers (fails ebadf) s
        | some f ↦ if f.is_pipe_write then write_pipe s f bytes else write_file s f bytes
      ]

  unfoldable pub sc_lseek : System V → (fd_arg offset whence : ℕ) → Ret × System V
  sc_lseek s fd_arg offset whence = elim (sc_get_file s.files (fd_of fd_arg)) [
    | none ↦ (fails ebadf, s)
    | some f ↦
        let (r, vfs) = ops.seek_ s.vfs f.vfs_fd offset (whence % u32_mod) in
        if f.is_pipe_read || f.is_pipe_write
        then (fails einval, s)
        else (result_of seek_error r, record s { vfs = vfs })
  ]
