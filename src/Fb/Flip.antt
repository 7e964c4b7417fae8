-- ===== src/Fb/Flip.antt =====
-- Framebuffer.c, fb_flip: what the screen shows after a flip.
use fexox_os.Base.{
  ℕ, zero, suc, ◌+◌, ◌-◌, ◌*◌, ◌/◌, ◌%◌, ◌≤◌, ◌≡◌, ◌⊎◌, ◌∙◌, refl, inl, inr, ◌&&◌, ◌||◌, arith, ltb,
  leb, ◌==◌, if◌then◌else◌, update, Bool-cases,
}
use fexox_os.Klibc.{Memory}
use fexox_os.Fb.{Fb, buffer_bytes, copy_words, copy_tail, memcpy_nt, fb_flip}

copy_words_lem :
    (n : ℕ) (m : Memory) (d s a : ℕ)
    → (d + 8 * n ≤ s) ⊎ (s + 8 * n ≤ d)
    → copy_words n m d s a ≡ (if leb d a && ltb a (d + 8 * n) then m (s + (a - d)) else m a)
unfolding copy_words
copy_words_lem zero m d s a h = ground arith
copy_words_lem (suc n) m d s a h =
    let m1 : Memory = λ b. if leb d b && ltb b (d + 8) then m (s + (b - d)) else m b in
    let rest = copy_words_lem n m1 (d + 8) (s + 8) a (ground arith) in
    elim (Bool-cases (leb (d + 8) a && ltb a (d + 8 + 8 * n))) [
      | inl later ↦
          let same : s + 8 + (a - (d + 8)) ≡ s + (a - d) = ground arith in
          let kept : m1 (s + 8 + (a - (d + 8))) ≡ m (s + 8 + (a - (d + 8))) = ground arith in
          rest ∙ rw (later, kept, same) (ground arith)
      | inr no_more ↦ rest ∙ rw no_more (ground arith)
    ]

copy_tail_lem :
    (n : ℕ) (m : Memory) (d s a : ℕ)
    → (d + n ≤ s) ⊎ (s + n ≤ d)
    → copy_tail n m d s a ≡ (if leb d a && ltb a (d + n) then m (s + (a - d)) else m a)
unfolding copy_tail
copy_tail_lem zero m d s a h = ground arith
copy_tail_lem (suc n) m d s a h =
    let m1 = update m d (m s) in
    let rest = copy_tail_lem n m1 (d + 1) (s + 1) a (ground arith) in
    elim (Bool-cases (leb (d + 1) a && ltb a (d + 1 + n))) [
      | inl later ↦
          let same : s + 1 + (a - (d + 1)) ≡ s + (a - d) = ground arith in
          let kept : m1 (s + 1 + (a - (d + 1))) ≡ m (s + 1 + (a - (d + 1))) = ground arith in
          rest ∙ rw (later, kept, same) (ground arith)
      | inr no_more ↦ rest ∙ elim (Bool-cases (a == d)) [
        | inl e ↦ let start : s + (a - d) ≡ s = ground arith in rw (no_more, start) (ground arith)
        | inr e ↦ rw no_more (ground arith)
      ]
    ]

memcpy_nt_lem :
    (m : Memory) (d s n a : ℕ)
    → (d + n ≤ s) ⊎ (s + n ≤ d)
    → memcpy_nt m d s n a ≡ (if leb d a && ltb a (d + n) then m (s + (a - d)) else m a)
unfolding memcpy_nt
memcpy_nt_lem m d s n a h =
    let k = n / 8 in
    let m1 = copy_words k m d s in
    let words : (b : ℕ) → m1 b ≡ (if leb d b && ltb b (d + 8 * k) then m (s + (b - d)) else m b) =
      λ b. copy_words_lem k m d s b (ground arith) in
    let rest = copy_tail_lem (n % 8) m1 (d + 8 * k) (s + 8 * k) a (ground arith) in
    elim (Bool-cases (leb (d + 8 * k) a && ltb a (d + 8 * k + n % 8))) [
      | inl in_tail ↦
          let same : s + 8 * k + (a - (d + 8 * k)) ≡ s + (a - d) = ground arith in
          let kept : m1 (s + 8 * k + (a - (d + 8 * k))) ≡ m (s + 8 * k + (a - (d + 8 * k))) =
            ground (arith, words (s + 8 * k + (a - (d + 8 * k)))) in
          rest ∙ rw (in_tail, kept, same) (ground arith)
      | inr before ↦ rest ∙ rw before (ground (arith, words a))
    ]

-- fb_flip, on a back buffer and a front buffer that do not overlap: every byte of the front buffer
-- is then that of the back buffer, the tail that is no whole word included, and no other byte has
-- changed. Without a back buffer, or without a front buffer, nothing changes.
pub fb_flip-copies :
    (fb : Fb) (m : Memory) (a : ℕ)
    → (fb.front + buffer_bytes fb ≤ fb.back) ⊎ (fb.back + buffer_bytes fb ≤ fb.front)
    → fb_flip fb m a ≡ (
        if fb.back == 0 || fb.front == 0
        then m a
        else if leb fb.front a && ltb a (fb.front + buffer_bytes fb)
        then m (fb.back + (a - fb.front))
        else m a)
unfolding fb_flip
fb_flip-copies fb m a h = elim (Bool-cases (fb.back == 0 || fb.front == 0)) [
  | inl e ↦ rw e refl
  | inr e ↦ rw e (memcpy_nt_lem m fb.front fb.back (buffer_bytes fb) a h)
]
