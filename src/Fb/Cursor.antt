-- ===== src/Fb/Cursor.antt =====
-- Framebuffer.c, fb_console: the cursor stays in the console, and the console in its rectangle.
use fexox_os.Base.{
  ℕ, ◌+◌, ◌-◌, ◌*◌, ◌%◌, ◌≤◌, ◌<◌, ◌≡◌, ◌∙◌, refl, inl, inr, true, false, List, [], ◌∷◌, arith, ltb,
  leb, ◌==◌, add32, sub32, u32_mod, Bool-cases,
}
use fexox_os.Klibc.{Memory}
use fexox_os.Fb.{Fb, fb_mode_linear, fb_mode_vga}
use fexox_os.Fb.Canvas.{IsScreen}
use fexox_os.Fb.Draw.{fb_fill_rect}
use fexox_os.Fb.Text.{fb_draw_char}
use fexox_os.Fb.Console.{
  Fbcon, fbcon_init, fbcon_scroll, next_line, step_back, put_glyph, fbcon_putc, fbcon_puts,
}
use fexox_os.Fb.Region.{IsConsole, Kept, Framed, fill-Kept, draw-Kept, scroll-Kept}

module _ (fb : Fb) where
  module _ (s : IsScreen fb) (con : Fbcon) (v : IsConsole fb con) where
    -- A new place of the cursor, and new pixels.
    moved_to :
        (m m' : Memory) (col row : ℕ)
        → col < con.cols
        → row < con.rows
        → Kept fb con m m'
        → Framed fb (con, m) (record con { cur_col = col; cur_row = row }, m')
    moved_to m m' col row p q kept = record {
      valid = record {
        columns = v.columns;
        lines = v.lines;
        across = v.across;
        down = v.down;
        cursor = (p, q);
      };
      place = (refl, refl, refl, refl);
      kept = kept;
    }

    next_line-Framed : (m : Memory) → Framed fb (con, m) (next_line fb (con, m))
    unfolding next_line fbcon_scroll
    next_line-Framed m =
        let row : add32 con.cur_row 1 ≡ con.cur_row + 1 =
          ground (arith, s.low, v.down, v.lines, v.cursor) in
        let last : sub32 con.rows 1 ≡ con.rows - 1 =
          ground (arith, s.low, v.down, v.lines, v.cursor) in
        elim (Bool-cases (leb con.rows (con.cur_row + 1))) [
          | inl full ↦
              rw (row, full, last)
                (moved_to m (fbcon_scroll fb (con, m)) 0 (con.rows - 1) (omega (arith, v.cursor))
                  (omega (arith, v.cursor)) (scroll-Kept fb s con v m))
          | inr more ↦
              rw (row, more)
                (moved_to m m 0 (con.cur_row + 1) (omega (arith, v.cursor)) (ground arith)
                  (λ a off. refl))
        ]

    -- the cell at the cursor's row and a column of the console
    cell_at :
        (col : ℕ)
        → col < con.cols
        → (add32 con.ox (col * 8 % u32_mod) ≡ con.ox + col * 8)
          × (add32 con.oy (con.cur_row * 16 % u32_mod) ≡ con.oy + con.cur_row * 16)
          × (col * 8 + 8 ≤ con.ow)
          × (con.cur_row * 16 + 16 ≤ con.oh)
    cell_at col h = (
      ground (arith, v.columns, v.across, s.narrow),
      ground (arith, v.lines, v.down, v.cursor, s.low),
      ground (arith, v.columns),
      ground (arith, v.lines, v.cursor),
    )

    step_back-Framed : (m : Memory) → Framed fb (con, m) (step_back fb (con, m))
    unfolding step_back
    step_back-Framed m = elim (Bool-cases (ltb 0 con.cur_col)) [
      | inr first ↦
          rw first (moved_to m m con.cur_col con.cur_row v.cursor.0 v.cursor.1 (λ a off. refl))
      | inl later ↦
          let col = con.cur_col - 1 in
          let (ex, ey, fx, fy) = cell_at col (omega (arith, v.cursor)) in
          rw (later, ex, ey)
            (moved_to m
              (fb_fill_rect fb m (con.ox + col * 8) (con.oy + con.cur_row * 16) 8 16 con.bg) col
              con.cur_row (omega (arith, v.cursor)) v.cursor.1
              (fill-Kept fb s con v m (con.ox + col * 8) (con.oy + con.cur_row * 16) 8 16 con.bg
                (omega arith) (omega arith)))
    ]

    put_glyph-Framed : (m : Memory) (c : ℕ) → Framed fb (con, m) (put_glyph fb (con, m) c)
    unfolding put_glyph
    put_glyph-Framed m c =
        let (ex, ey, fx, fy) = cell_at con.cur_col v.cursor.0 in
        let m1 =
          fb_draw_char fb m (con.ox + con.cur_col * 8) (con.oy + con.cur_row * 16) c con.fg
            con.bg in
        let drawn =
          draw-Kept fb s con v m (con.ox + con.cur_col * 8) (con.oy + con.cur_row * 16) c con.fg
            con.bg (omega arith) (omega arith) in
        let col : add32 con.cur_col 1 ≡ con.cur_col + 1 =
          ground (arith, s.narrow, v.across, v.columns, v.cursor) in
        elim (Bool-cases (leb con.cols (con.cur_col + 1))) [
          | inr more ↦
              rw (ex, ey, col, more)
                (moved_to m m1 (con.cur_col + 1) con.cur_row (ground arith) v.cursor.1 drawn)
          | inl full ↦
              let f = next_line-Framed m1 in
              rw (ex, ey, col, full)
                (record {
                  valid = f.valid;
                  place = f.place;
                  kept = λ a off. f.kept a off ∙ drawn a off;
                })
        ]

    fbcon_putc-Framed : (m : Memory) (c : ℕ) → Framed fb (con, m) (fbcon_putc fb (con, m) c)
    unfolding fbcon_putc
    fbcon_putc-Framed m c =
        let graphic : (fb.mode == fb_mode_vga) ≡ false = ground (arith, s.linear) in
        elim (Bool-cases (c == 13)) [
          | inl e ↦
              rw (graphic, e)
                (moved_to m m 0 con.cur_row (omega (arith, v.cursor)) v.cursor.1 (λ a off. refl))
          | inr e ↦ elim (Bool-cases (c == 10)) [
            | inl f ↦ rw (graphic, e, f) (next_line-Framed m)
            | inr f ↦ elim (Bool-cases (c == 8)) [
              | inl g ↦ rw (graphic, e, f, g) (step_back-Framed m)
              | inr g ↦ rw (graphic, e, f, g) (put_glyph-Framed m c)
            ]
          ]
        ]

  -- In a linear mode, fbcon_puts of any string, control characters included, on a console whose
  -- rectangle lies on the screen, leaves such a console at the same place, with its cursor in it,
  -- and changes no byte outside the rectangle, also where it scrolls.
  pub fbcon_puts-Framed :
      (str : List ℕ) (con : Fbcon) (m : Memory)
      → IsScreen fb
      → IsConsole fb con
      → Framed fb (con, m) (fbcon_puts fb (con, m) str)
  unfolding fbcon_puts
  fbcon_puts-Framed [] con m s v = record {
    valid = v;
    place = (refl, refl, refl, refl);
    kept = λ a off. refl;
  }
  fbcon_puts-Framed (c ∷ str) con m s v =
      let one = fbcon_putc-Framed s con v m c in
      let next = fbcon_putc fb (con, m) c in
      let rest = fbcon_puts-Framed str next.0 next.1 s one.valid in
      record {
        valid = rest.valid;
        place = (cc, cc, cc, cc);
        kept = λ a off.
            rest.kept a (λ i j k p q r t.
              off i j k (omega (arith, one.place)) (omega (arith, one.place))
                (omega (arith, one.place)) (omega (arith, one.place)))
            ∙ one.kept a off;
      }

  -- fbcon_init of a rectangle on the screen with room for a character sets up such a console, with
  -- the rectangle filled and nothing else changed.
  pub fbcon_init-Framed :
      (m : Memory) (x y w h fg bg : ℕ)
      → IsScreen fb
      → 8 ≤ w
      → 16 ≤ h
      → x + w ≤ fb.width
      → y + h ≤ fb.height
      → let after = fbcon_init fb m x y w h fg bg in
        IsConsole fb after.0 × Kept fb after.0 m after.1
  unfolding fbcon_init
  fbcon_init-Framed m x y w h fg bg s wide high across down =
      let after = fbcon_init fb m x y w h fg bg in
      let lit : (fb.mode == fb_mode_linear) ≡ true = ground (arith, s.linear) in
      let v : IsConsole fb after.0 = record {
        columns = refl;
        lines = refl;
        across = across;
        down = down;
        cursor = (omega arith, omega arith);
      } in
      (v, rw lit (fill-Kept fb s after.0 v m x y w h bg (omega arith) (omega arith)))
