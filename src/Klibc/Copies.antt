-- ===== src/Klibc/Copies.antt =====
-- klibc.c: what the copying functions leave in memory.
use fexox_os.Base.{
  ℕ, zero, suc, ◌+◌, ◌-◌, ◌≤◌, ◌<◌, ◌≡◌, ◌≢◌, ◌⊎◌, refl, ◌∙◌, Bool, true, false, ◌&&◌, some, arith,
  ltb, leb, ◌==◌, if◌then◌else◌, update, min, Bool-cases, inl, inr,
}
use fexox_os.Klibc.{Memory, memcpy, move_down, memmove, strlen, strncpy, strlcpy}

-- `i` lies in the n bytes from d on
abbrev pub within : (d n i : ℕ) → Bool
within d n i = leb d i && ltb i (d + n)

memcpy_up :
    (n : ℕ) (m : Memory) (d s i : ℕ)
    → (d ≤ s) ⊎ (s + n ≤ d)
    → memcpy m d s n i ≡ (if within d n i then m (s + (i - d)) else m i)
unfolding memcpy
memcpy_up zero m d s i h = ground arith
memcpy_up (suc n) m d s i h =
    let apart : (d + 1 ≤ s + 1) ⊎ (s + 1 + n ≤ d + 1) = ground arith in
    memcpy_up n (update m d (m s)) (d + 1) (s + 1) i apart ∙ ground arith

move_down_lem :
    (n : ℕ) (m : Memory) (d s i : ℕ)
    → s ≤ d
    → move_down m d s n i ≡ (if within d n i then m (s + (i - d)) else m i)
unfolding move_down
move_down_lem zero m d s i h = ground arith
move_down_lem (suc n) m d s i h =
    move_down_lem n (update m (d + n) (m (s + n))) d s i h ∙ ground arith

-- After memmove the n bytes at the destination are those that stood at the source before the call,
-- and every other byte is as before, however the two ranges overlap.
pub memmove_lem :
    (m : Memory) (d s n i : ℕ) → memmove m d s n i ≡ (if within d n i then m (s + (i - d)) else m i)
unfolding memmove
memmove_lem m d s n i = elim (Bool-cases (ltb d s)) [
  | inl below ↦ rw below (memcpy_up n m d s i (inl (ground arith)))
  | inr above ↦ rw above (move_down_lem n m d s i (ground arith))
]

strncpy_copies :
    (n : ℕ) (m : Memory) (d s i : ℕ)
    → (d ≤ s) ⊎ (s + n ≤ d)
    → ((j : ℕ) → j < n → m (s + j) ≢ 0)
    → strncpy m d s n i ≡ (if within d n i then m (s + (i - d)) else m i)
unfolding strncpy
strncpy_copies zero m d s i h long = ground arith
strncpy_copies (suc n) m d s i h long =
    let apart : (d + 1 ≤ s + 1) ⊎ (s + 1 + n ≤ d + 1) = ground arith in
    let here : m s ≢ 0 = λ e. long 0 (omega arith) (ground arith) in
    let more : (m s == 0) ≡ false = ground arith in
    let kept : (j : ℕ) → j < n → update m d (m s) (s + 1 + j) ≡ m (s + suc j) =
      λ j p. ground arith in
    rw more (
      strncpy_copies n (update m d (m s)) (d + 1) (s + 1) i apart
        (λ j p e. long (suc j) (omega arith) (ground (arith, kept j p)))
      ∙ ground arith)

-- If the first n bytes of the source have no zero among them, and the destination does not start
-- inside the source (behind its first byte), then none of the n bytes that strncpy writes is zero:
-- the copy has no end.
pub strncpy_unterminated :
    (m : Memory) (d s n j : ℕ)
    → (d ≤ s) ⊎ (s + n ≤ d)
    → ((j : ℕ) → j < n → m (s + j) ≢ 0)
    → j < n
    → strncpy m d s n (d + j) ≢ 0
strncpy_unterminated m d s n j h long p e =
    let copied = strncpy_copies n m d s (d + j) h long in
    let at : d + j - d ≡ j = omega arith in long j p (ground (arith, copied))

-- For a source with the length `len` and a destination of n > 0 bytes that does not start inside the
-- copied part of the source, strlcpy returns that length; the destination then holds the first
-- bytes of the source, n - 1 at the most, with a zero byte behind them, and the memory is as before
-- outside of it.
pub strlcpy_lem :
    (fuel : ℕ) (m : Memory) (d s n len : ℕ)
    → strlen fuel m s ≡ some len
    → 0 < n
    → (d ≤ s) ⊎ (s + n ≤ d)
    → (m' : Memory) × (strlcpy fuel m d s n ≡ some (len, m'))
      × (m' (d + min len (n - 1)) ≡ 0)
      × ((j : ℕ) → j < min len (n - 1) → m' (d + j) ≡ m (s + j))
      × ((i : ℕ) → (i < d) ⊎ (d + n ≤ i) → m' i ≡ m i)
unfolding strlcpy
strlcpy_lem fuel m d s n len e pos apart =
    let copy = min len (n - 1) in
    let choice : (if ltb len (n - 1) then len else n - 1) ≡ copy = ground arith in
    let room : ltb 0 n ≡ true = ground arith in
    let free : (d ≤ s) ⊎ (s + copy ≤ d) = ground arith in
    let copied = memcpy_up copy m d s in
    (
      update (memcpy m d s copy) (d + copy) 0,
      rw (e, strlcpy) (rw (choice, room) refl),
      ground arith,
      (λ j p. let at : d + j - d ≡ j = omega arith in ground (arith, copied (d + j) free)),
      (λ i out. ground (arith, copied i free)),
    )
