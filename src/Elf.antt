-- ===== src/Elf.antt =====
-- ELF64.c and ELF64.h: the check of an ELF header; Elf/Load has the loader. The debug output has no
-- counterpart.
pub mod Image
pub mod Segments
pub mod Load
pub mod Cover
pub mod Undo
mod Tests
use fexox_os.Base.{
  ℕ, ◌*◌, ◌≤◌, ◌<◌, ◌≡◌, ◌↔◌, ◌⊎◌, refl, Bool, true, false, ◌&&◌, ◌||◌, not, arith, ltb, ◌==◌,
  if◌then◌else◌,
}

-- `Elf64_Ehdr`, as far as the code reads it
pub record Ehdr : Type 0 where
  pub e_ident : ℕ → ℕ
  pub e_type : ℕ
  pub e_machine : ℕ
  pub e_version : ℕ
  pub e_entry : ℕ
  pub e_phoff : ℕ
  pub e_phentsize : ℕ
  pub e_phnum : ℕ

-- ELF_OK and the errors
pub data Verdict : Type 0 where
  elf_ok err_magic err_class err_endian err_type err_arch err_inval err_io err_nomem err_interp :
      Verdict

abbrev pub elf_max_phdrs : ℕ
elf_max_phdrs = 64

abbrev pub phdr_size : ℕ
phdr_size = 56

abbrev pub has_magic : Ehdr → Bool
has_magic h = h.e_ident 0 == 0x7F && h.e_ident 1 == 69 && h.e_ident 2 == 76 && h.e_ident 3 == 70

-- The header stands for a pointer that is not NULL.
unfoldable pub elf64_validate_header : Ehdr → Verdict
elf64_validate_header h =
    if not (has_magic h)
    then err_magic
    else if not (h.e_ident 4 == 2)
    then err_class
    else if not (h.e_ident 5 == 1)
    then err_endian
    else if not (h.e_ident 6 == 1) || not (h.e_version == 1)
    then err_inval
    else if not (h.e_type == 2) && not (h.e_type == 3)
    then err_type
    else if not (h.e_machine == 62)
    then err_arch
    else if not (h.e_phentsize == phdr_size)
    then err_inval
    else if h.e_phnum == 0 || ltb elf_max_phdrs h.e_phnum
    then err_inval
    else elf_ok

-- a little-endian 64-bit program or shared object for x86-64 with 1 to 64 program headers
pub record IsLoadable (h : Ehdr) : Type 0 where
  pub magic : (h.e_ident 0 ≡ 0x7F) × (h.e_ident 1 ≡ 69) × (h.e_ident 2 ≡ 76) × (h.e_ident 3 ≡ 70)
  pub class : h.e_ident 4 ≡ 2
  pub endian : h.e_ident 5 ≡ 1
  pub versions : (h.e_ident 6 ≡ 1) × (h.e_version ≡ 1)
  pub type : (h.e_type ≡ 2) ⊎ (h.e_type ≡ 3)
  pub machine : h.e_machine ≡ 62
  pub entry_size : h.e_phentsize ≡ phdr_size
  pub entries : (0 < h.e_phnum) × (h.e_phnum ≤ elf_max_phdrs)

-- A header passes the check exactly if it describes a little-endian 64-bit program or shared object
-- for x86-64, in version 1, with program headers of the size that the loader reads and between 1 and
-- 64 of them, so that the table that the loader allocates has at most 3584 bytes.
pub elf64_validate_header-IsLoadable :
    (h : Ehdr)
    → ((elf64_validate_header h ≡ elf_ok) ↔ IsLoadable h)
      × (elf64_validate_header h ≡ elf_ok → h.e_phnum * h.e_phentsize ≤ 3584)
unfolding elf64_validate_header
elf64_validate_header-IsLoadable h = (
  (
    (λ e. record {
      magic = ground arith;
      class = ground arith;
      endian = ground arith;
      versions = ground arith;
      type = ground arith;
      machine = ground arith;
      entry_size = ground arith;
      entries = ground arith;
    }),
    (λ v. ground (
      arith, v.magic, v.class, v.endian, v.versions, v.type, v.machine, v.entry_size, v.entries,
    )),
  ),
  λ e. ground arith,
)
