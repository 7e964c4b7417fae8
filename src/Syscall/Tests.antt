-- ===== src/Syscall/Tests.antt =====
-- Runs of the system calls on small tables, and the theorems at concrete inputs.
use fexox_os.Base.{
  ℕ, ◌+◌, ◌≡◌, refl, true, false, List, [], ◌∷◌, ◌++◌, some, arith, ltb, if◌then◌else◌,
}
use fexox_os.Base.Int.{pos, negsuc}
use fexox_os.Pmm.{Pmm}
use fexox_os.Syscall.{
  returns, no_file, Vfs, System, syscall_validate_ptr, sc_get_file, sc_alloc_fd, pipe_alloc,
}
use fexox_os.Syscall.Ring.{Pipe, empty_pipe, pipe_read, write_loop, Turn, reads, writes}
use fexox_os.Syscall.Ring.Fifo.{IsRing, contents, run, pipe-run}
use fexox_os.Syscall.Calls.{sc_close}
use fexox_os.Syscall.Descriptors.{sc_pipe}
use fexox_os.Syscall.Ends.{PipeEnds, sc_pipe-PipeEnds}
use fexox_os.Syscall.Memory.{Brk, sc_brk}
use fexox_os.Syscall.Memory.Heap.{IsBrk, Moved, sc_brk-Moved}

-- a file system that counts the open files, and whose files are empty
abbrev counting : Vfs ℕ
counting = record {
  open_ = λ v path flags. (pos v, v + 1);
  close_ = λ v fd. v;
  read_ = λ v fd size. (pos 0, [], v);
  write_ = λ v fd bytes. (negsuc 10, v);
  seek_ = λ v fd offset whence. (pos offset, v);
}

-- the descriptors 0 to 3 are open
abbrev four : System ℕ
four = record {
  files = λ fd. if ltb fd 4 then record no_file { is_open = true; vfs_fd = pos fd } else no_file;
  pipes = λ i. record empty_pipe { valid = false };
  vfs = 4;
}

empty-IsRing : IsRing empty_pipe
empty-IsRing = record { read_in = omega arith; fits = omega arith; behind = refl }

abbrev turns : List Turn
turns = writes (1 ∷ 2 ∷ 3 ∷ []) ∷ reads 2 ∷ writes (4 ∷ []) ∷ reads 5 ∷ []

turns_in_order : (run turns empty_pipe).0 ≡ 1 ∷ 2 ∷ 3 ∷ 4 ∷ []
unfolding run pipe_read write_loop
turns_in_order = refl

pipe-run_example :
    ((run turns empty_pipe).0 ++ contents (run turns empty_pipe).2
      ≡ contents empty_pipe ++ (run turns empty_pipe).1)
    × IsRing (run turns empty_pipe).2
pipe-run_example = pipe-run turns empty_pipe empty-IsRing

abbrev one_byte : Pipe
one_byte = record empty_pipe { buf = λ i. 7; write_pos = 1; count = 1 }

one_byte-IsRing : IsRing one_byte
one_byte-IsRing = record { read_in = omega arith; fits = omega arith; behind = refl }

closes_three : (sc_close counting four 3).0 ≡ returns 0
unfolding sc_close sc_get_file
closes_three = refl

pipe_numbers : (sc_pipe four 4096).1 ≡ some (4, 4)
unfolding sc_pipe sc_alloc_fd syscall_validate_ptr pipe_alloc
pipe_numbers = refl

sc_pipe-PipeEnds_example : PipeEnds four (sc_pipe four 4096)
sc_pipe-PipeEnds_example = sc_pipe-PipeEnds four 4096

abbrev no_frames : Pmm
no_frames = record {
  words = λ w b. ltb b 4;
  total_frames = 8;
  free_frames = 4;
  num_words = 1;
  bitmap_phys = 0;
  bitmap_pages = 0;
}

abbrev heap : Brk ℕ
heap = record { current = 0x10000100; mapped = 0x10001000; pmm = no_frames; tables = 0 }

heap-IsBrk : IsBrk heap
heap-IsBrk = record {
  from = omega arith;
  inside = omega arith;
  until = omega arith;
  pages = 0x10001;
  whole = refl;
}

sc_brk-Moved_example : Moved heap 0x10003000 (sc_brk (λ m va pa. (true, m + 1)) heap 0x10003000)
sc_brk-Moved_example = sc_brk-Moved (λ m va pa. (true, m + 1)) heap 0x10003000 heap-IsBrk
