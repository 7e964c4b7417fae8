-- ===== src/Fb/Scroll.antt =====
-- Framebuffer.c, fb_blit: what a copy upwards of whole rows of a rectangle leaves on the screen.
use fexox_os.Base.{
  ℕ, zero, suc, ◌+◌, ◌-◌, ◌*◌, ◌/◌, ◌%◌, ◌≤◌, ◌<◌, ◌≡◌, ◌≢◌, ◌∙◌, subst, refl, inl, inr, true,
  false, ◌||◌, not, arith, leb, ◌==◌, add32, Bool-cases,
}
use native.Mathlib.Nat.{mod-lt, div-add-mod', div-lt_iff_lt-mul}
use fexox_os.Klibc.{Memory, memmove}
use fexox_os.Klibc.Copies.{within, memmove_lem}
use fexox_os.Fb.{Fb, fb_mode_linear}
use fexox_os.Fb.Canvas.{IsScreen, spot, spot_inj, column_end, row_end}
use fexox_os.Fb.Draw.{blit_addr, blit_loop, fb_blit}

module _ (fb : Fb) where
  -- The rectangle of `w` by `n` pixels at (x, y) shows what stood `d` rows below it, and no other
  -- byte has changed.
  pub record MovedUp (d x y w n : ℕ) (m m' : Memory) : Type 0 where
    pub moved :
        (i j k : ℕ)
        → x ≤ i
        → i < x + w
        → y ≤ j
        → j < y + n
        → k < fb.bytes_pp
        → m' (spot fb i j + k) ≡ m (spot fb i (j + d) + k)
    pub others :
        (a : ℕ)
        → ((i j k : ℕ)
            → x ≤ i
            → i < x + w
            → y ≤ j
            → j < y + n
            → k < fb.bytes_pp
            → a ≢ spot fb i j + k)
        → m' a ≡ m a

  module _ (s : IsScreen fb) where
    blit_addr-spot : (i j : ℕ) → i < fb.width → j < fb.height → blit_addr fb i j ≡ spot fb i j
    unfolding blit_addr
    blit_addr-spot i j h h' =
        ground (arith, s.inside, s.depth, column_end fb s i h, row_end fb s j h')

    -- one row
    module _ (d x y w : ℕ) (wide : x + w ≤ fb.width) (high : y + d < fb.height) (m : Memory) where
      abbrev copied : Memory
      copied = memmove m (spot fb x y) (spot fb x (y + d)) (w * fb.bytes_pp)

      place : (i : ℕ) → x ≤ i → i * fb.bytes_pp ≡ x * fb.bytes_pp + (i - x) * fb.bytes_pp
      place i h = grind arith

      room : (i : ℕ) → i < w → i * fb.bytes_pp + fb.bytes_pp ≤ w * fb.bytes_pp
      room i h = grind arith

      split : (i e : ℕ) → (i + e) * fb.bytes_pp ≡ i * fb.bytes_pp + e * fb.bytes_pp
      split i e = grind arith

      row_moved :
          (i k : ℕ)
          → x ≤ i
          → i < x + w
          → k < fb.bytes_pp
          → copied (spot fb i y + k) ≡ m (spot fb i (y + d) + k)
      row_moved i k p q r =
          let at = place i p in
          let fits = room (i - x) (omega arith) in
          let here : within (spot fb x y) (w * fb.bytes_pp) (spot fb i y + k) ≡ true =
            ground arith in
          let from : spot fb x (y + d) + (spot fb i y + k - spot fb x y) ≡ spot fb i (y + d) + k =
            ground arith in
          memmove_lem m (spot fb x y) (spot fb x (y + d)) (w * fb.bytes_pp) (spot fb i y + k)
          ∙ rw (here, from) refl

      row_others :
          (a : ℕ)
          → ((i k : ℕ) → x ≤ i → i < x + w → k < fb.bytes_pp → a ≢ spot fb i y + k)
          → copied a ≡ m a
      row_others a off = elim (Bool-cases (within (spot fb x y) (w * fb.bytes_pp) a)) [
        | inr out ↦
            memmove_lem m (spot fb x y) (spot fb x (y + d)) (w * fb.bytes_pp) a ∙ rw out refl
        | inl hit ↦
            let o = a - spot fb x y in
            let i = o / fb.bytes_pp in
            let k = o % fb.bytes_pp in
            let size : o < w * fb.bytes_pp = ground arith in
            let column : o / fb.bytes_pp < w =
              (div-lt_iff_lt-mul {k = fb.bytes_pp} {x = o} {y = w} (omega (arith, s.depth))).1
                size in
            let inside_row : x + i < x + w = omega arith in
            let both = split x i in
            let at : a ≡ spot fb (x + i) y + k = ground (arith, div-add-mod' o fb.bytes_pp) in
            absurd (off (x + i) k (omega arith) inside_row (mod-lt o (omega (arith, s.depth))) at)
      ]

    -- the rows from `row` on, the upper ones first
    blit_loop-MovedUp :
        (n row d x y w : ℕ) (m : Memory)
        → x < fb.width
        → x + w ≤ fb.width
        → y + d + row + n ≤ fb.height
        → MovedUp d x (y + row) w n m (blit_loop n row fb m x y x (y + d) w)
    unfolding blit_loop
    blit_loop-MovedUp zero row d x y w m on wide high = record {
      moved = λ i j k p q r t u. absurd (omega arith);
      others = λ a h. refl;
    }
    blit_loop-MovedUp (suc n) row d x y w m on wide high =
        let to : add32 y row ≡ y + row = ground (arith, s.low) in
        let from : add32 (y + d) row ≡ y + row + d = ground (arith, s.low) in
        let shown : leb fb.height (y + row + d) || leb fb.height (y + row) ≡ false = ground arith in
        let m1 = copied d x (y + row) w wide (omega arith) m in
        let rest = blit_loop-MovedUp n (row + 1) d x y w m1 on wide (omega arith) in
        let first = row_moved d x (y + row) w wide (omega arith) m in
        let kept = row_others d x (y + row) w wide (omega arith) m in
        rw
          (
            to,
            from,
            shown,
            blit_addr-spot x (y + row) on (omega arith),
            blit_addr-spot x (y + row + d) on (omega arith),
          )
          (record {
            moved = λ i j k p q r t u. elim (Bool-cases (j == y + row)) [
              | inl e ↦
                  let here : j ≡ y + row = ground arith in
                  rest.others (spot fb i j + k) (λ i' j' k' p' q' r' t' u' at.
                    let (si, sj) =
                      spot_inj fb s i j k i' j' k' (omega arith) u (omega arith) u' at in
                    omega arith)
                  ∙ rw here (first i k p q u)
              | inr e ↦
                  rest.moved i j k p q (ground arith) (omega arith) u
                  ∙ kept (spot fb i (j + d) + k) (λ i' k' p' q' u' at.
                    let (si, sj) =
                      spot_inj fb s i (j + d) k i' (y + row) k' (omega arith) u (omega arith) u'
                        at in
                    ground arith)
            ];
            others = λ a h.
                rest.others a (λ i j k p q r t u. h i j k p q (omega arith) (omega arith) u)
                ∙ kept a (λ i k p q u. h i (y + row) k p q (omega arith) (omega arith) u);
          })

    -- fb_blit of whole rows of a rectangle to `d` rows higher, with source and target on the screen:
    -- the target shows what stood `d` rows below before the call, overlap or not, and no byte
    -- outside the target has changed.
    pub fb_blit-MovedUp :
        (d x y w n : ℕ) (m : Memory)
        → x < fb.width
        → x + w ≤ fb.width
        → y + d + n ≤ fb.height
        → MovedUp d x y w n m (fb_blit fb m x y x (y + d) w n)
    unfolding fb_blit
    fb_blit-MovedUp d x y w n m on wide high =
        let lit : not (fb.mode == fb_mode_linear) ≡ false = ground (arith, s.linear) in
        let top : y + 0 ≡ y = omega arith in
        rw lit (
          subst (λ t. MovedUp d x t w n m (blit_loop n 0 fb m x y x (y + d) w)) top
            (blit_loop-MovedUp n 0 d x y w m on wide (omega arith)))
