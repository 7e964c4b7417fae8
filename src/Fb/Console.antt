-- ===== src/Fb/Console.antt =====
-- Framebuffer.c, fb_console: text in a rectangle of the screen, with a cursor and scrolling. In the
-- text mode a character goes to the debug port, which changes no state here.
use fexox_os.Base.{
  ℕ, ◌-◌, ◌*◌, ◌/◌, ◌%◌, not, List, [], ◌∷◌, ltb, leb, ◌==◌, if◌then◌else◌, add32, sub32, u32_mod,
}
use fexox_os.Klibc.{Memory}
use fexox_os.Fb.{Fb, fb_mode_vga, fb_mode_linear}
use fexox_os.Fb.Draw.{fb_fill_rect, fb_blit}
use fexox_os.Fb.Text.{fb_font_w, fb_font_h, fb_draw_char}

-- `fbcon_t`
pub record Fbcon : Type 0 where
  pub ox : ℕ
  pub oy : ℕ
  pub ow : ℕ
  pub oh : ℕ
  pub cols : ℕ
  pub rows : ℕ
  pub cur_col : ℕ
  pub cur_row : ℕ
  pub fg : ℕ
  pub bg : ℕ

-- g_con and the memory
abbrev pub Shown : Type 0
Shown = Fbcon × Memory

unfoldable pub fbcon_init : Fb → Memory → (x y w h fg bg : ℕ) → Shown
fbcon_init fb m x y w h fg bg = (
  record {
    ox = x;
    oy = y;
    ow = w;
    oh = h;
    cols = w / fb_font_w;
    rows = h / fb_font_h;
    cur_col = 0;
    cur_row = 0;
    fg = fg;
    bg = bg;
  },
  if fb.mode == fb_mode_linear then fb_fill_rect fb m x y w h bg else m,
)

unfoldable pub fbcon_set_colors : Fbcon → (fg bg : ℕ) → Fbcon
fbcon_set_colors con fg bg = record con { fg = fg; bg = bg }

unfoldable pub fbcon_clear : Fb → Shown → Shown
fbcon_clear fb (con, m) = (
  record con { cur_col = 0; cur_row = 0 },
  if fb.mode == fb_mode_linear then fb_fill_rect fb m con.ox con.oy con.ow con.oh con.bg else m,
)

unfoldable pub fbcon_scroll : Fb → Shown → Memory
fbcon_scroll fb (con, m) =
    if not (fb.mode == fb_mode_linear)
    then m
    else let m1 =
        fb_blit fb m con.ox con.oy con.ox (add32 con.oy fb_font_h) con.ow
          (sub32 con.oh fb_font_h) in
      fb_fill_rect fb m1 con.ox (sub32 (add32 con.oy con.oh) fb_font_h) con.ow fb_font_h con.bg

-- `cur_col = 0; cur_row++; if (cur_row >= rows) { fbcon_scroll(); cur_row = rows - 1; }`
unfoldable pub next_line : Fb → Shown → Shown
next_line fb (con, m) =
    let row = add32 con.cur_row 1 in
    let down = record con { cur_col = 0; cur_row = row } in
    if leb con.rows row
    then (record con { cur_col = 0; cur_row = sub32 con.rows 1 }, fbcon_scroll fb (down, m))
    else (down, m)

-- the branch of a backspace
unfoldable pub step_back : Fb → Shown → Shown
step_back fb (con, m) =
    let col = con.cur_col - 1 in
    let m1 =
      fb_fill_rect fb m (add32 con.ox (col * fb_font_w % u32_mod))
        (add32 con.oy (con.cur_row * fb_font_h % u32_mod)) fb_font_w fb_font_h con.bg in
    if ltb 0 con.cur_col then (record con { cur_col = col }, m1) else (con, m)

-- the branch of a character that is drawn
unfoldable pub put_glyph : Fb → Shown → (c : ℕ) → Shown
put_glyph fb (con, m) c =
    let m1 =
      fb_draw_char fb m (add32 con.ox (con.cur_col * fb_font_w % u32_mod))
        (add32 con.oy (con.cur_row * fb_font_h % u32_mod)) c con.fg con.bg in
    let col = add32 con.cur_col 1 in
    if leb con.cols col then next_line fb (con, m1) else (record con { cur_col = col }, m1)

unfoldable pub fbcon_putc : Fb → Shown → (c : ℕ) → Shown
fbcon_putc fb (con, m) c =
    if fb.mode == fb_mode_vga
    then (con, m)
    else if c == 13
    then (record con { cur_col = 0 }, m)
    else if c == 10
    then next_line fb (con, m)
    else if c == 8
    then step_back fb (con, m)
    else put_glyph fb (con, m) c

-- The string, without its end.
unfoldable pub fbcon_puts : Fb → Shown → List ℕ → Shown
fbcon_puts fb shown [] = shown
fbcon_puts fb shown (c ∷ str) = fbcon_puts fb (fbcon_putc fb shown c) str
