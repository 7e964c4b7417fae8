-- ===== src/Fb/Region.antt =====
-- Framebuffer.c, fb_console: drawing within the console's rectangle.
use fexox_os.Base.{
  ℕ, ◌+◌, ◌-◌, ◌/◌, ◌^◌, ◌≤◌, ◌<◌, ◌≡◌, ◌≢◌, ◌∙◌, false, not, some, arith, ◌==◌, add32, sub32,
}
use fexox_os.Klibc.{Memory}
use fexox_os.Fb.{Fb, fb_mode_linear}
use fexox_os.Fb.Canvas.{IsScreen, Ink, spot, Painted}
use fexox_os.Fb.Draw.{fb_fill_rect, fb_blit}
use fexox_os.Fb.Rect.{fb_fill_rect-Painted}
use fexox_os.Fb.Text.{glyph_ink, cell_inside, fb_draw_char, fb_draw_char-Painted}
use fexox_os.Fb.Scroll.{fb_blit-MovedUp}
use fexox_os.Fb.Console.{Fbcon, Shown, fbcon_scroll}

module _ (fb : Fb) where
  -- A console whose rectangle lies on the screen, with room for a character, and whose cursor is in it.
  pub record IsConsole (con : Fbcon) : Type 0 where
    pub columns : con.cols ≡ con.ow / 8
    pub lines : con.rows ≡ con.oh / 16
    pub across : con.ox + con.ow ≤ fb.width
    pub down : con.oy + con.oh ≤ fb.height
    pub cursor : (con.cur_col < con.cols) × (con.cur_row < con.rows)

  -- No byte outside the console's rectangle has changed.
  abbrev pub Kept : Fbcon → Memory → Memory → Type 0
  Kept con m m' =
      (a : ℕ)
      → ((i j k : ℕ)
          → con.ox ≤ i
          → i < con.ox + con.ow
          → con.oy ≤ j
          → j < con.oy + con.oh
          → k < fb.bytes_pp
          → a ≢ spot fb i j + k)
      → m' a ≡ m a

  -- What an operation of the console may do.
  pub record Framed (before after : Shown) : Type 0 where
    pub valid : IsConsole after.0
    pub place :
        (after.0.ox ≡ before.0.ox)
        × (after.0.oy ≡ before.0.oy)
        × (after.0.ow ≡ before.0.ow)
        × (after.0.oh ≡ before.0.oh)
    pub kept : Kept before.0 before.1 after.1

  Painted-Kept :
      {ink : Ink} {m m' : Memory} (con : Fbcon)
      → Painted fb ink m m'
      → ((i j n : ℕ)
          → ink i j ≡ some n
          → (con.ox ≤ i) × (i < con.ox + con.ow) × (con.oy ≤ j) × (j < con.oy + con.oh))
      → Kept con m m'
  Painted-Kept con p inside a off =
      p.others a (λ i j k n x y z e. let (l, r, t, b) = inside i j n e in off i j k l r t b z)

  module _ (s : IsScreen fb) (con : Fbcon) (v : IsConsole con) where
    pub fill-Kept :
        (m : Memory) (x y w h c : ℕ)
        → (con.ox ≤ x) × (x + w ≤ con.ox + con.ow) × (0 < w)
        → (con.oy ≤ y) × (y + h ≤ con.oy + con.oh) × (0 < h)
        → Kept con m (fb_fill_rect fb m x y w h c)
    fill-Kept m x y w h c (l, r, p) (t, b, q) =
        let px : x < 2 ^ 31 = omega (arith, s.narrow, v.across) in
        let py : y < 2 ^ 31 = omega (arith, s.low, v.down) in
        Painted-Kept con
          (fb_fill_rect-Painted fb s m x y w h c (omega arith) (omega arith)
            (omega (arith, s.narrow, v.across)) (omega (arith, s.low, v.down))
            (ground (arith, s.narrow, v.across)) (ground (arith, s.low, v.down)))
          (λ i j n e. ground arith)

    pub draw-Kept :
        (m : Memory) (x y c fg bg : ℕ)
        → (con.ox ≤ x) × (x + 8 ≤ con.ox + con.ow)
        → (con.oy ≤ y) × (y + 16 ≤ con.oy + con.oh)
        → Kept con m (fb_draw_char fb m x y c fg bg)
    draw-Kept m x y c fg bg (l, r) (t, b) =
        Painted-Kept con
          (fb_draw_char-Painted fb s x y fg bg c
            (omega (arith, s.narrow, v.across), omega (arith, s.low, v.down)) m)
          (λ i j n e.
            let inside = cell_inside x y 8 16 i j n (glyph_ink fb c fg bg) e in omega arith)

    pub scroll-Kept : (m : Memory) → Kept con m (fbcon_scroll fb (con, m))
    unfolding fbcon_scroll
    scroll-Kept m a off =
        let lit : not (fb.mode == fb_mode_linear) ≡ false = ground (arith, s.linear) in
        let from : add32 con.oy 16 ≡ con.oy + 16 =
          ground (arith, s.low, v.down, v.lines, v.cursor) in
        let rest : sub32 con.oh 16 ≡ con.oh - 16 =
          ground (arith, s.low, v.down, v.lines, v.cursor) in
        let to : sub32 (add32 con.oy con.oh) 16 ≡ con.oy + (con.oh - 16) =
          ground (arith, s.low, v.down, v.lines, v.cursor) in
        let moved =
          fb_blit-MovedUp fb s 16 con.ox con.oy con.ow (con.oh - 16) m
            (omega (arith, v.across, v.columns, v.cursor)) v.across
            (omega (arith, v.down, v.lines, v.cursor)) in
        let m1 = fb_blit fb m con.ox con.oy con.ox (con.oy + 16) con.ow (con.oh - 16) in
        let filled =
          fill-Kept m1 con.ox (con.oy + (con.oh - 16)) con.ow 16 con.bg
            (omega (arith, v.columns, v.cursor)) (omega (arith, v.lines, v.cursor)) in
        rw (lit, from, rest, to)
          (filled a off ∙ moved.others a (λ i j k p q r t u. off i j k p q r (omega arith) u))
