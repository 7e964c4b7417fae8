-- ===== src/Fat/Names.antt =====
-- FAT32.c: the 8.3 names, the checksum of long names and the flush of the table.
-- A name is the list of its bytes; `raw` is the field of 11 bytes.
use fexox_os.Base.{
  ℕ, zero, suc, ◌+◌, ◌-◌, ◌*◌, ◌/◌, ◌%◌, Bool, true, false, ◌&&◌, ◌||◌, not, Option, none, some,
  List, [], ◌∷◌, ◌++◌, length, ltb, leb, ◌==◌, if◌then◌else◌, add32,
}
use fexox_os.Fat.{Fat, Disk}

abbrev pub space : ℕ
space = 32

abbrev pub dot : ℕ
dot = 46

-- the bytes up to the first space, at most n
unfoldable pub up_to_space : (n : ℕ) → (raw : ℕ → ℕ) → (i : ℕ) → List ℕ
up_to_space zero raw i = []
up_to_space (suc n) raw i =
    let rest = up_to_space n raw (i + 1) in if raw i == space then [] else raw i ∷ rest

unfoldable pub fat_parse_83name : (raw : ℕ → ℕ) → List ℕ
unfolding up_to_space
fat_parse_83name raw =
    up_to_space 8 raw 0 ++ (if raw 8 == space then [] else dot ∷ up_to_space 3 raw 8)

abbrev pub to_upper : ℕ → ℕ
to_upper c = if leb 97 c && leb c 122 then c - 32 else c

-- The base and the extension around the last dot; without a dot the extension is empty. The Boolean
-- says whether there was a dot.
unfoldable pub split_name : (name : List ℕ) → Bool × List ℕ × List ℕ
split_name [] = (false, [], [])
split_name (c ∷ name) =
    let (dotted, base, ext) = split_name name in
    if dotted
    then (true, c ∷ base, ext)
    else if c == dot
    then (true, [], base)
    else (false, c ∷ base, [])

-- The bytes in upper case from place i on, and spaces elsewhere.
unfoldable pub placed : List ℕ → (i : ℕ) → (raw : ℕ → ℕ) → ℕ → ℕ
placed [] i raw = raw
placed (c ∷ cs) i raw = placed cs (i + 1) (λ j. if j == i then to_upper c else raw j)

-- none for false: the name does not fit.
unfoldable pub fat_make_83name : (name : List ℕ) → Option (ℕ → ℕ)
unfolding split_name placed
fat_make_83name name =
    let (dotted, base, ext) = split_name name in
    if ltb 8 (length base) || ltb 3 (length ext)
    then none
    else some (placed ext 8 (placed base 0 (λ i. space)))

-- The loop of fat_lfn_checksum over n bytes from i on: an 8-bit rotation to the right, and a sum.
unfoldable pub checksum_loop : (n : ℕ) → (name83 : ℕ → ℕ) → (i sum : ℕ) → ℕ
checksum_loop zero name83 i sum = sum
checksum_loop (suc n) name83 i sum =
    checksum_loop n name83 (i + 1) ((sum / 2 + sum * 128 % 256 + name83 i) % 256)

unfoldable pub fat_lfn_checksum : (name83 : ℕ → ℕ) → ℕ
unfolding checksum_loop
fat_lfn_checksum name83 = checksum_loop 11 name83 0 0

-- fat_flush_fat, with fat_size, num_fats and the sectors and bytes of the cache as arguments. false
-- for an error of the device; that of the second copy is returned after the flag was cleared.
unfoldable pub fat_flush_fat :
    {D : Type 0} → Disk D → Fat D → (fat_size num_fats sectors : ℕ) → (cache : ℕ → ℕ) → Bool × Fat D
fat_flush_fat disk fat fat_size num_fats sectors cache =
    if not fat.dirty
    then (true, fat)
    else elim (disk.write_sectors fat.dev fat.first_fat_sector sectors cache) [
      | none ↦ (false, fat)
      | some dev ↦
          if ltb num_fats 2
          then (true, record fat { dev = dev; dirty = false })
          else elim (disk.write_sectors dev (add32 fat.first_fat_sector fat_size) sectors cache) [
            | none ↦ (false, record fat { dev = dev; dirty = false })
            | some second ↦ (true, record fat { dev = second; dirty = false })
          ]
    ]
