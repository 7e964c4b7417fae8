-- ===== src/Syscall/Descriptors.antt =====
-- Syscall.c: pipe and fcntl, which make and change descriptors.
use fexox_os.Base.{
  ℕ, ◌-◌, ◌%◌, true, false, not, Option, none, some, ◌==◌, if◌then◌else◌, update, bit_and, bit_or,
  u32_mod,
}
use fexox_os.Base.Int.{negsuc}
use fexox_os.Syscall.Ring.{Pipe}
use fexox_os.Syscall.{
  Ret, returns, fails, File, no_file, System, fd_max, ebadf, efault, einval, enfile, emfile,
  free_from, sc_alloc_fd, fd_of, sc_get_file, pipe_alloc, syscall_validate_ptr,
}
use fexox_os.Syscall.Calls.{o_accmode}

-- The two ends of a pipe, with the fd_flags that the entry had.
abbrev pub read_end : File → (pipe : ℕ) → File
read_end f pipe = record f {
  is_open = true;
  vfs_fd = negsuc 0;
  flags = 0;
  is_pipe_read = true;
  is_pipe_write = false;
  pipe_idx = some pipe;
}

abbrev pub write_end : File → (pipe : ℕ) → File
write_end f pipe = record f {
  is_open = true;
  vfs_fd = negsuc 0;
  flags = 1;
  is_pipe_read = false;
  is_pipe_write = true;
  pipe_idx = some pipe;
}

abbrev pub invalidate : (ℕ → Pipe) → ℕ → ℕ → Pipe
invalidate pipes i = update pipes i (record (pipes i) { valid = false })

-- Beside the answer, the two numbers that it stores for the caller.
unfoldable pub sc_pipe :
    {V : Type 0} → System V → (pipefd_ptr : ℕ) → Ret × Option (ℕ × ℕ) × System V
sc_pipe s pipefd_ptr =
    if not (syscall_validate_ptr pipefd_ptr 8)
    then (fails efault, none, s)
    else elim (pipe_alloc s.pipes) [
      | none ↦ (fails enfile, none, s)
      | some (i, pipes) ↦ elim (sc_alloc_fd s.files) [
        | none ↦ (fails emfile, none, record s { pipes = invalidate pipes i })
        | some fd_r ↦ elim (sc_alloc_fd s.files) [
          | none ↦ (
            fails emfile,
            none,
            record s { pipes = invalidate pipes i; files = update s.files fd_r no_file },
          )
          | some fd_w ↦
              let with_read = update s.files fd_r (read_end (s.files fd_r) i) in
              (
                returns 0,
                some (fd_r, fd_w),
                record s {
                  pipes = pipes;
                  files = update with_read fd_w (write_end (with_read fd_w) i);
                },
              )
        ]
      ]
    ]

-- F_DUPFD, whose loop starts at the argument; one of 2 ^ 31 or more is negative as an int and is
-- outside of this model.
unfoldable pub dup_fd : (ℕ → File) → File → (arg : ℕ) → Ret × (ℕ → File)
dup_fd files f arg = elim (free_from (fd_max - arg) files arg) [
  | none ↦ (fails emfile, files)
  | some fd ↦ (returns fd, update files fd (record f { fd_flags = 0 }))
]

-- `~3` as an int
abbrev pub not_accmode : ℕ
not_accmode = u32_mod - 1 - o_accmode

-- The changes of one entry and the answers of sc_fcntl, by the command.
unfoldable pub fcntl_on : (ℕ → File) → (fd : ℕ) → File → (cmd arg : ℕ) → Ret × (ℕ → File)
unfolding dup_fd
fcntl_on files fd f cmd arg =
    if cmd == 0
    then dup_fd files f arg
    else if cmd == 1
    then (returns f.fd_flags, files)
    else if cmd == 2
    then (returns 0, update files fd (record f { fd_flags = bit_and arg 1 }))
    else if cmd == 3
    then (returns f.flags, files)
    else if cmd == 4
    then (
      returns 0,
      update files fd (record f {
        flags = bit_or (bit_and f.flags o_accmode) (bit_and (arg % u32_mod) not_accmode);
      }),
    )
    else (fails einval, files)

unfoldable pub sc_fcntl : {V : Type 0} → System V → (fd_arg cmd arg : ℕ) → Ret × System V
unfolding fcntl_on
sc_fcntl s fd_arg cmd arg = elim (sc_get_file s.files (fd_of fd_arg)) [
  | none ↦ (fails ebadf, s)
  | some f ↦
      let (r, files) = fcntl_on s.files (fd_of fd_arg) f (cmd % u32_mod) arg in
      (r, record s { files = files })
]
