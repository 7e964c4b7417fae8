-- ===== src/Fb/Row.antt =====
-- Framebuffer.c, fb_hline: it paints the part of one row that is on the screen.
use fexox_os.Base.{
  ℕ, zero, suc, ◌+◌, ◌-◌, ◌*◌, ◌^◌, ◌≤◌, ◌<◌, ◌≡◌, ◌⊎◌, refl, inl, inr, Bool, false, ◌&&◌, not,
  none, some, arith, ltb, leb, ◌==◌, if◌then◌else◌, add32, sub32, u32_mod, Bool-cases,
}
use fexox_os.Klibc.{Memory}
use fexox_os.Fb.{Fb, fb_mode_linear, rgb_to_native}
use fexox_os.Fb.Canvas.{pixel_addr-spot, store_pixel, IsScreen, spot, column_end, row_end, Painted}
use fexox_os.Fb.Paint.{where_true, Painted-nothing, Painted-ext, Painted-over, store_pixel-Painted}
use fexox_os.Fb.Draw.{is_negative, clip_low, clip_high, step_addr, hline_loop, hline_from, fb_hline}

-- The first and the last-but-one coordinate of `w` pixels from the int32_t `x` on that are not
-- negative.
abbrev pub start : ℕ → ℕ
start x = if is_negative x then 0 else x

abbrev pub finish : (x w : ℕ) → ℕ
finish x w = if is_negative x then x + w - u32_mod else x + w

-- `x` among `w` numbers from the int32_t `a` on
abbrev pub spans : (a w x : ℕ) → Bool
spans a w x = leb (start a) x && ltb x (finish a w)

pub clip_low_lem :
    (x w : ℕ)
    → x < u32_mod
    → w < u32_mod
    → ((clip_low x w ≡ none) × (finish x w ≡ 0))
      ⊎ ((clip_low x w ≡ some (start x, finish x w - start x)) × (start x ≤ finish x w))
clip_low_lem x w hx hw = elim (Bool-cases (is_negative x)) [
  | inr e ↦ inr (ground arith, ground arith)
  | inl e ↦ elim (Bool-cases (leb w (sub32 0 x))) [
    | inl out ↦ inl (ground arith, ground arith)
    | inr some_left ↦
        let width : add32 w x ≡ finish x w - start x = ground arith in
        inr (ground arith, ground arith)
  ]
]

pub clip_high_lem :
    (x w limit : ℕ)
    → x ≤ limit
    → limit ≤ 2 ^ 31
    → x + w < u32_mod
    → (x + clip_high x w limit ≤ limit)
      × ((i : ℕ) → i < limit → ltb i (x + clip_high x w limit) ≡ ltb i (x + w))
clip_high_lem x w limit h h' small = (ground arith, λ i p. ground arith)

module _ (fb : Fb) (s : IsScreen fb) where
  split_column : (x i : ℕ) → (x + i) * fb.bytes_pp ≡ x * fb.bytes_pp + i * fb.bytes_pp
  split_column x i = grind arith

  step_addr-spot :
      (x i y : ℕ)
      → x + i < fb.width
      → y < fb.height
      → step_addr fb.bytes_pp (spot fb x y) i ≡ spot fb (x + i) y
  step_addr-spot x i y h h' =
      let four : fb.bytes_pp ≡ 4 → 4 * i ≡ i * fb.bytes_pp = λ e. rw e (omega arith) in
      ground (
        arith,
        s.inside,
        s.word,
        column_end fb s (x + i) h,
        row_end fb s y h',
        split_column x i,
        four,
      )

  -- one row of pixels, from the left
  pub hline_loop-Painted :
      (n i x y : ℕ) (m : Memory) (native : ℕ)
      → x + i + n ≤ fb.width
      → y < fb.height
      → Painted fb
          (where_true (λ i' j. leb (x + i) i' && ltb i' (x + i + n) && j == y) native)
          m
          (hline_loop n i fb.bytes_pp m (spot fb x y) native)
  unfolding hline_loop
  hline_loop-Painted zero i x y m native h h' = Painted-nothing fb _ m (λ i' j p q. ground arith)
  hline_loop-Painted (suc n) i x y m native h h' =
      let first = store_pixel-Painted fb s m (x + i) y native (omega arith) h' in
      let m1 = store_pixel fb.bytes_pp m (spot fb (x + i) y) native in
      let rest = hline_loop-Painted n (i + 1) x y m1 native (omega arith) h' in
      rw (step_addr-spot x i y (omega arith) h')
        (Painted-ext fb (λ i' j p q. ground arith) (Painted-over fb s first rest))

  hline_from-Painted :
      (m : Memory) (x y len c : ℕ)
      → x ≤ fb.width
      → x + len < u32_mod
      → y < fb.height
      → Painted fb
          (where_true (λ i j. leb x i && ltb i (x + len) && j == y) (rgb_to_native fb c))
          m
          (hline_from fb m x y len c)
  unfolding hline_from hline_loop
  hline_from-Painted m x y len c h small h' =
      let (room, same) = clip_high_lem x len fb.width h s.narrow small in
      let n = clip_high x len fb.width in
      elim (Bool-cases (ltb x fb.width)) [
        | inl on ↦ rw (pixel_addr-spot fb s x y (ground arith) h') (
            Painted-ext fb (λ i j p q. let e = same i p in ground arith)
              (hline_loop-Painted n 0 x y m (rgb_to_native fb c) (omega arith) h'))
        | inr edge ↦
            let empty : n ≡ 0 = ground arith in
            rw (empty, hline_loop) (Painted-nothing fb _ m (λ i j p q. ground arith))
      ]

  -- fb_hline from a place that is negative or within the row's width on, with an end below 2 ^ 32,
  -- paints the pixels of the row that lie on the screen, if the row does.
  pub fb_hline-Painted :
      (m : Memory) (x y len c : ℕ)
      → x < u32_mod
      → len < u32_mod
      → start x ≤ fb.width
      → finish x len < u32_mod
      → Painted fb
          (where_true (λ i j. spans x len i && j == y) (rgb_to_native fb c))
          m
          (fb_hline fb m x y len c)
  unfolding fb_hline
  fb_hline-Painted m x y len c hx hl left right =
      let shown : not (fb.mode == fb_mode_linear) ≡ false = ground (arith, s.linear) in
      elim (Bool-cases (leb fb.height y)) [
        | inl off ↦ rw (shown, off) (Painted-nothing fb _ m (λ i j p q. ground arith))
        | inr on ↦ elim (clip_low_lem x len hx hl) [
          | inl (e, gone) ↦ rw (shown, on, e) (Painted-nothing fb _ m (λ i j p q. ground arith))
          | inr (e, order) ↦
              rw (shown, on, e)
                (Painted-ext fb
                  (λ i j p q.
                    let back : start x + (finish x len - start x) ≡ finish x len = omega arith in
                    rw back refl)
                  (hline_from-Painted m (start x) y (finish x len - start x) c left (omega arith)
                    (ground arith)))
        ]
      ]
