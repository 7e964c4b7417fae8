-- ===== src/Fb/Rect.antt =====
-- Framebuffer.c, fb_fill_rect and fb_clear: a rectangle paints the part of it that is on the screen.
use fexox_os.Base.{
  ℕ, zero, suc, ◌+◌, ◌-◌, ◌≤◌, ◌<◌, ◌≡◌, refl, inl, inr, false, ◌&&◌, ◌||◌, not, some, arith, ltb,
  leb, ◌==◌, add32, u32_mod, Bool-cases,
}
use fexox_os.Klibc.{Memory}
use fexox_os.Fb.{Fb, fb_mode_linear, rgb_to_native}
use fexox_os.Fb.Canvas.{IsScreen, Painted}
use fexox_os.Fb.Paint.{where_true, Painted-nothing, Painted-ext, Painted-over}
use fexox_os.Fb.Draw.{
  is_negative, clip_high, fb_hline, fill_rows, fill_from, fb_fill_rect, fb_clear,
}
use fexox_os.Fb.Row.{start, finish, spans, clip_low_lem, clip_high_lem, fb_hline-Painted}

module _ (fb : Fb) (s : IsScreen fb) where
  fill_rows-Painted :
      (n row : ℕ) (m : Memory) (x y w c : ℕ)
      → x < fb.width
      → x + w ≤ fb.width
      → y + row + n ≤ fb.height
      → Painted fb
          (where_true
            (λ i j. (leb x i && ltb i (x + w)) && (leb (y + row) j && ltb j (y + row + n)))
            (rgb_to_native fb c))
          m
          (fill_rows n row fb m x y w c)
  unfolding fill_rows
  fill_rows-Painted zero row m x y w c hx h h' = Painted-nothing fb _ m (λ i j p q. ground arith)
  fill_rows-Painted (suc n) row m x y w c hx h h' =
      let place : add32 y row ≡ y + row = ground (arith, s.low) in
      let first =
        fb_hline-Painted fb s m x (y + row) w c (ground (arith, s.narrow))
          (ground (arith, s.narrow)) (ground (arith, s.narrow)) (ground (arith, s.narrow)) in
      let m1 = fb_hline fb m x (y + row) w c in
      let rest = fill_rows-Painted n (row + 1) m1 x y w c hx h (omega arith) in
      let small : is_negative x ≡ false = ground (arith, s.narrow) in
      rw place (Painted-ext fb (λ i j p q. ground arith) (Painted-over fb s first rest))

  fill_from-Painted :
      (m : Memory) (x w y h c : ℕ)
      → x + w < u32_mod
      → y + h < u32_mod
      → Painted fb
          (where_true
            (λ i j. (leb x i && ltb i (x + w)) && (leb y j && ltb j (y + h)))
            (rgb_to_native fb c))
          m
          (fill_from fb m x w y h c)
  unfolding fill_from
  fill_from-Painted m x w y h c fx fy = elim (Bool-cases (leb fb.width x || leb fb.height y)) [
    | inl off ↦ rw off (Painted-nothing fb _ m (λ i j p q. ground arith))
    | inr on ↦
        let (rx, sx) = clip_high_lem x w fb.width (ground arith) s.narrow fx in
        let (ry, sy) = clip_high_lem y h fb.height (ground arith) s.low fy in
        elim (Bool-cases (clip_high x w fb.width == 0 || clip_high y h fb.height == 0)) [
          | inl gone ↦
              rw (on, gone)
                (Painted-nothing fb _ m
                  (λ i j p q. let e = sx i p in let f = sy j q in ground arith))
          | inr some_left ↦
              rw (on, some_left)
                (Painted-ext fb
                  (λ i j p q.
                    let start_row : y + 0 ≡ y = omega arith in rw (start_row, sx i p, sy j q) refl)
                  (fill_rows-Painted (clip_high y h fb.height) 0 m x y (clip_high x w fb.width) c
                    (ground arith) rx (omega arith)))
        ]
  ]

  -- fb_fill_rect, of a rectangle whose ends are below 2 ^ 32, gives the colour to exactly the pixels
  -- of the rectangle that lie on the screen, wherever it begins, and changes no other byte.
  pub fb_fill_rect-Painted :
      (m : Memory) (x y w h c : ℕ)
      → x < u32_mod
      → y < u32_mod
      → w < u32_mod
      → h < u32_mod
      → finish x w < u32_mod
      → finish y h < u32_mod
      → Painted fb
          (where_true (λ i j. spans x w i && spans y h j) (rgb_to_native fb c))
          m
          (fb_fill_rect fb m x y w h c)
  unfolding fb_fill_rect
  fb_fill_rect-Painted m x y w h c hx hy hw hh right bottom =
      let shown : not (fb.mode == fb_mode_linear) ≡ false = ground (arith, s.linear) in
      elim (clip_low_lem x w hx hw) [
        | inl (e, gone) ↦ rw (shown, e) (Painted-nothing fb _ m (λ i j p q. ground arith))
        | inr (e, order) ↦ elim (clip_low_lem y h hy hh) [
          | inl (f, gone) ↦ rw (shown, e, f) (Painted-nothing fb _ m (λ i j p q. ground arith))
          | inr (f, order') ↦
              rw (shown, e, f)
                (Painted-ext fb
                  (λ i j p q.
                    let across : start x + (finish x w - start x) ≡ finish x w = omega arith in
                    let down : start y + (finish y h - start y) ≡ finish y h = omega arith in
                    rw (across, down) refl)
                  (fill_from-Painted m (start x) (finish x w - start x) (start y)
                    (finish y h - start y) c (omega arith) (omega arith)))
        ]
      ]

  -- fb_clear gives the colour to every pixel of the screen and changes nothing else.
  pub fb_clear-Painted :
      (m : Memory) (c : ℕ) → Painted fb (λ i j. some (rgb_to_native fb c)) m (fb_clear fb m c)
  unfolding fb_clear
  fb_clear-Painted m c =
      Painted-ext fb (λ i j p q. ground arith)
        (fb_fill_rect-Painted m 0 0 fb.width fb.height c (omega arith) (omega arith)
          (omega (arith, s.narrow)) (omega (arith, s.low)) (ground (arith, s.narrow))
          (ground (arith, s.low)))
