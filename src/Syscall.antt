-- ===== src/Syscall.antt =====
-- Syscall.c and Syscall.h: the table of open files, the pipes and what the calls on them do.
-- A failed call returns -errno, here `fails errno`. A descriptor comes as a uint64_t and is cast to
-- int; one of 2 ^ 31 or more becomes negative and is refused like the others beyond the table.
pub mod Ring
pub mod Table
pub mod Memory
pub mod Calls
pub mod Descriptors
pub mod Ends
mod Tests
use fexox_os.Base.{
  ℕ, zero, suc, ◌+◌, ◌-◌, ◌%◌, Bool, true, false, ◌||◌, ◌&&◌, not, Option, none, some, List, [],
  ◌∷◌, ltb, leb, ◌==◌, if◌then◌else◌, update, bit_and, bit_or, add64, sub64, u32_mod,
}
use fexox_os.Base.Int.{ℤ, pos, negsuc}
use fexox_os.Syscall.Ring.{Pipe, empty_pipe}

pub data Ret : Type 0 where
  returns : ℕ → Ret
  fails : (errno : ℕ) → Ret

-- `sc_file_t`; `pipe_idx` is none for -1.
pub record File : Type 0 where
  pub is_open : Bool
  pub vfs_fd : ℤ
  pub flags : ℕ
  pub fd_flags : ℕ
  pub is_pipe_read : Bool
  pub is_pipe_write : Bool
  pub pipe_idx : Option ℕ

-- what memset leaves of an entry
abbrev pub no_file : File
no_file = record {
  is_open = false;
  vfs_fd = pos 0;
  flags = 0;
  fd_flags = 0;
  is_pipe_read = false;
  is_pipe_write = false;
  pipe_idx = some 0;
}

-- the calls of VFS.c that the system calls make, on a state V of the file systems
pub record Vfs (V : Type 0) : Type 0 where
  pub open_ : V → (path : List ℕ) → (flags : ℕ) → ℤ × V
  pub close_ : V → ℤ → V
  pub read_ : V → ℤ → (size : ℕ) → ℤ × List ℕ × V
  pub write_ : V → ℤ → (bytes : List ℕ) → ℤ × V
  pub seek_ : V → ℤ → (offset whence : ℕ) → ℤ × V

-- g_files, g_pipes and the state of the file systems
pub record System (V : Type 0) : Type 0 where
  pub files : ℕ → File
  pub pipes : ℕ → Pipe
  pub vfs : V

abbrev pub fd_max : ℕ
fd_max = 256

abbrev pub pipe_max : ℕ
pipe_max = 64

abbrev pub user_virt_limit : ℕ
user_virt_limit = 0x00007FFFFFFFFFFF

abbrev pub max_path : ℕ
max_path = 4096

abbrev pub enoent : ℕ
enoent = 2

abbrev pub eio : ℕ
eio = 5

abbrev pub ebadf : ℕ
ebadf = 9

abbrev pub enomem : ℕ
enomem = 12

abbrev pub efault : ℕ
efault = 14

abbrev pub eisdir : ℕ
eisdir = 21

abbrev pub einval : ℕ
einval = 22

abbrev pub enfile : ℕ
enfile = 23

abbrev pub emfile : ℕ
emfile = 24

abbrev pub enospc : ℕ
enospc = 28

abbrev pub erofs : ℕ
erofs = 30

abbrev pub epipe : ℕ
epipe = 32

abbrev pub eoverflow : ℕ
eoverflow = 75

-- The first i from `i` on, of k, whose entry is not open.
unfoldable pub free_from : (k : ℕ) → (ℕ → File) → (i : ℕ) → Option ℕ
free_from zero files i = none
free_from (suc k) files i =
    let rest = free_from k files (i + 1) in if (files i).is_open then rest else some i

unfoldable pub sc_alloc_fd : (ℕ → File) → Option ℕ
unfolding free_from
sc_alloc_fd files = free_from 253 files 3

abbrev pub fd_of : (fd_arg : ℕ) → ℕ
fd_of fd_arg = fd_arg % u32_mod

unfoldable pub sc_get_file : (ℕ → File) → (fd : ℕ) → Option File
sc_get_file files fd =
    if leb fd_max fd then none else if (files fd).is_open then some (files fd) else none

-- The first slot from i on, of k, that is not valid.
unfoldable pub invalid_from : (k : ℕ) → (ℕ → Pipe) → (i : ℕ) → Option ℕ
invalid_from zero pipes i = none
invalid_from (suc k) pipes i =
    let rest = invalid_from k pipes (i + 1) in if (pipes i).valid then rest else some i

unfoldable pub pipe_alloc : (ℕ → Pipe) → Option (ℕ × (ℕ → Pipe))
unfolding invalid_from
pipe_alloc pipes = elim (invalid_from pipe_max pipes 0) [
  | none ↦ none
  | some i ↦ some (i, update pipes i empty_pipe)
]

unfoldable pub syscall_validate_ptr : (va size : ℕ) → Bool
syscall_validate_ptr va size =
    if va == 0
    then false
    else if ltb user_virt_limit va
    then false
    else if ltb 0 size && ltb user_virt_limit (sub64 (add64 va size) 1)
    then false
    else true

-- the loop of sc_copy_string: at most k bytes from address p on, up to a zero byte
unfoldable pub copy_loop : (k : ℕ) → (memory : ℕ → ℕ) → (p : ℕ) → List ℕ
copy_loop zero memory p = []
copy_loop (suc k) memory p =
    let rest = copy_loop k memory (add64 p 1) in if memory p == 0 then [] else memory p ∷ rest

unfoldable pub sc_copy_string : (memory : ℕ → ℕ) → (user_ptr kbuf_size : ℕ) → Option (List ℕ)
unfolding syscall_validate_ptr copy_loop
sc_copy_string memory user_ptr kbuf_size =
    if syscall_validate_ptr user_ptr 1
    then some (copy_loop (kbuf_size - 1) memory user_ptr)
    else none
