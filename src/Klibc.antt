-- ===== src/Klibc.antt =====
-- klibc.c: the memory and string functions. The memory is a function from addresses to bytes, and
-- the objects lie within the address space, so that pointers do not wrap around. Strings end with a
-- zero byte; a scan for it runs on fuel, which bounds the length.
pub mod Copies
mod Tests
use fexox_os.Base.{
  ℕ, zero, suc, ◌+◌, ◌-◌, ◌%◌, Bool, true, false, ◌&&◌, not, Option, none, some, ltb, ◌==◌,
  if◌then◌else◌, update,
}
use fexox_os.Base.Int.{ℤ, pos, ◌-ℤ◌}

abbrev pub Memory : Type 0
Memory = ℕ → ℕ

unfoldable pub memcpy : Memory → (dst src n : ℕ) → Memory
memcpy m d s zero = m
memcpy m d s (suc n) = memcpy (update m d (m s)) (d + 1) (s + 1) n

unfoldable pub memset : Memory → (dst c n : ℕ) → Memory
memset m d c zero = m
memset m d c (suc n) = memset (update m d (c % 256)) (d + 1) c n

-- the loop of memmove that goes down from the end
unfoldable pub move_down : Memory → (dst src n : ℕ) → Memory
move_down m d s zero = m
move_down m d s (suc n) = move_down (update m (d + n) (m (s + n))) d s n

unfoldable pub memmove : Memory → (dst src n : ℕ) → Memory
unfolding memcpy move_down
memmove m d s n = if ltb d s then memcpy m d s n else move_down m d s n

unfoldable pub memcmp : Memory → (a b n : ℕ) → ℤ
memcmp m p q zero = pos 0
memcmp m p q (suc n) =
    let rest = memcmp m (p + 1) (q + 1) n in if m p == m q then rest else pos (m p) -ℤ pos (m q)

-- none if there is no zero byte among the first `fuel`
unfoldable pub strlen : (fuel : ℕ) → Memory → (s : ℕ) → Option ℕ
strlen zero m s = none
strlen (suc k) m s =
    let rest = strlen k m (s + 1) in
    if m s == 0 then some 0 else elim rest [ none ↦ none | some n ↦ some (suc n) ]

unfoldable pub strcmp : (fuel : ℕ) → Memory → (a b : ℕ) → Option ℤ
strcmp zero m a b = none
strcmp (suc k) m a b =
    let rest = strcmp k m (a + 1) (b + 1) in
    if not (m a == 0) && m a == m b then rest else some (pos (m a) -ℤ pos (m b))

unfoldable pub strncmp : Memory → (a b n : ℕ) → ℤ
strncmp m a b zero = pos 0
strncmp m a b (suc n) =
    let rest = strncmp m (a + 1) (b + 1) n in
    if not (m a == 0) && m a == m b then rest else pos (m a) -ℤ pos (m b)

-- The loop that copies, and from the end of the source on the loop that fills.
unfoldable pub strncpy : Memory → (dst src n : ℕ) → Memory
unfolding memset
strncpy m d s zero = m
strncpy m d s (suc n) =
    let rest = strncpy (update m d (m s)) (d + 1) (s + 1) n in
    if m s == 0 then memset m d 0 (suc n) else rest

-- none if the source has no zero byte among the first `fuel`
unfoldable pub strlcpy : (fuel : ℕ) → Memory → (dst src n : ℕ) → Option (ℕ × Memory)
unfolding strlen memcpy
strlcpy fuel m d s n = elim (strlen fuel m s) [
  | none ↦ none
  | some src_len ↦
      let copy = if ltb src_len (n - 1) then src_len else n - 1 in
      some (src_len, if ltb 0 n then update (memcpy m d s copy) (d + copy) 0 else m)
]

-- The inner Option is the pointer, none for NULL; `ch` is the character as an unsigned char.
unfoldable pub strchr : (fuel : ℕ) → Memory → (s ch : ℕ) → Option (Option ℕ)
strchr zero m s ch = none
strchr (suc k) m s ch =
    let rest = strchr k m (s + 1) ch in
    if m s == 0
    then some (if ch == 0 then some s else none)
    else if m s == ch
    then some (some s)
    else rest

-- `last` is the last occurrence so far.
unfoldable pub strrchr : (fuel : ℕ) → Memory → (s ch : ℕ) → (last : Option ℕ) → Option (Option ℕ)
strrchr zero m s ch last = none
strrchr (suc k) m s ch last =
    let rest = strrchr k m (s + 1) ch (if m s == ch then some s else last) in
    if m s == 0 then some (if ch == 0 then some s else last) else rest

-- the loop of strncat from the end of the destination on
unfoldable pub append_loop : Memory → (d src n : ℕ) → Memory
append_loop m d s zero = update m d 0
append_loop m d s (suc n) =
    let rest = append_loop (update m d (m s)) (d + 1) (s + 1) n in
    if m s == 0 then update m d 0 else rest

unfoldable pub strncat : (fuel : ℕ) → Memory → (dst src n : ℕ) → Option Memory
unfolding strlen append_loop
strncat fuel m d s n = elim (strlen fuel m d) [
  | none ↦ none
  | some len ↦ some (append_loop m (d + len) s n)
]
