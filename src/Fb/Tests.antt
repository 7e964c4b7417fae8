-- ===== src/Fb/Tests.antt =====
-- The drawing primitives on a screen of 6 by 4 pixels of 32 bits.
use fexox_os.Base.{
  ℕ, ◌+◌, ◌-◌, ◌^◌, ◌≤◌, ◌≡◌, inl, inr, refl, ◌&&◌, some, [], ◌∷◌, arith, if◌then◌else◌,
}
use fexox_os.Klibc.{Memory}
use fexox_os.Fb.{Fb, FbInfo, rgb_to_native, draw_buf, fb_init}
use fexox_os.Fb.Canvas.{
  fb_get_pixel, store_pixel, load_pixel, pixel_addr, native_to_rgb, IsScreen, Painted,
}
use fexox_os.Fb.Paint.{where_true}
use fexox_os.Fb.Pixels.{IsTrueColour, fb_get_pixel-fb_fill_rect}
use fexox_os.Fb.Draw.{fb_fill_rect, fill_from, fill_rows, fb_hline, hline_from, hline_loop, fb_blit}
use fexox_os.Fb.Row.{spans}
use fexox_os.Fb.Rect.{fb_fill_rect-Painted}
use fexox_os.Fb.Line.{distance, direction, fb_line, Drawn}
use fexox_os.Fb.Line.Trace.{fb_line-Drawn}
use fexox_os.Fb.Scroll.{MovedUp, fb_blit-MovedUp}
use fexox_os.Fb.Setup.{IsLinear, InOrder, fb_init-IsScreen}
use fexox_os.Fb.Text.{cell, fb_draw_char}
use fexox_os.Fb.Glyph.{letter_ink, fb_draw_char-Drawn}
use fexox_os.Fb.Console.{Fbcon, fbcon_puts}
use fexox_os.Fb.Region.{IsConsole, Framed}
use fexox_os.Fb.Cursor.{fbcon_puts-Framed}

abbrev small_screen : Fb
small_screen = record {
  mode = 2;
  width = 6;
  height = 4;
  pitch = 32;
  bpp = 32;
  bytes_pp = 4;
  front = 1000;
  back = 0;
  phys_addr = 1000;
  r_shift = 16;
  g_shift = 8;
  b_shift = 0;
}

abbrev dark : Memory
dark a = 0

small_screen-IsScreen : IsScreen small_screen
unfolding draw_buf
small_screen-IsScreen = record {
  linear = refl;
  depth = (omega arith, omega arith);
  narrow = omega arith;
  low = omega arith;
  rows = omega arith;
  word = omega arith;
  inside = omega arith;
}

small_screen-IsTrueColour : IsTrueColour small_screen
small_screen-IsTrueColour = record { bytes = inr refl; channels = inl (refl, refl, refl) }

-- two columns of a rectangle that begins one column left of the screen
clipped :
    fb_get_pixel small_screen (fb_fill_rect small_screen dark (2 ^ 32 - 1) 1 3 2 0x112233) 1 2
    ≡ 0x112233
unfolding fb_get_pixel fb_fill_rect fill_from fill_rows fb_hline hline_from hline_loop store_pixel
    load_pixel pixel_addr native_to_rgb rgb_to_native draw_buf
clipped = refl

beside :
    fb_get_pixel small_screen (fb_fill_rect small_screen dark (2 ^ 32 - 1) 1 3 2 0x112233) 2 2 ≡ 0
unfolding fb_get_pixel fb_fill_rect fill_from fill_rows fb_hline hline_from hline_loop store_pixel
    load_pixel pixel_addr native_to_rgb rgb_to_native draw_buf
beside = refl

fb_fill_rect-Painted_example :
    Painted small_screen
      (where_true
        (λ i j. spans (2 ^ 32 - 1) 3 i && spans 1 2 j)
        (rgb_to_native small_screen 0x112233))
      dark
      (fb_fill_rect small_screen dark (2 ^ 32 - 1) 1 3 2 0x112233)
fb_fill_rect-Painted_example =
    fb_fill_rect-Painted small_screen small_screen-IsScreen dark (2 ^ 32 - 1) 1 3 2 0x112233
      (omega arith) (omega arith) (omega arith) (omega arith) (omega arith) (omega arith)

fb_get_pixel-fb_fill_rect_example :
    fb_get_pixel small_screen (fb_fill_rect small_screen dark (2 ^ 32 - 1) 1 3 2 0x112233) 1 2 ≡ (
      if spans (2 ^ 32 - 1) 3 1 && spans 1 2 2
      then 0x112233
      else fb_get_pixel small_screen dark 1 2)
fb_get_pixel-fb_fill_rect_example =
    fb_get_pixel-fb_fill_rect small_screen small_screen-IsScreen small_screen-IsTrueColour dark
      (2 ^ 32 - 1) 1 3 2 0x112233 1 2 (omega arith) (omega arith) (omega arith) (omega arith)
      (omega arith) (omega arith) (omega arith) (omega arith) (omega arith)

-- down to the left, out of the screen and into it
fb_line-Drawn_example :
    (n : ℕ) × (m' : Memory) × (n ≤ distance 3 (2 ^ 32 - 1) + distance (2 ^ 32 - 2) 1 + 1)
    × (fb_line 8 small_screen dark 3 (2 ^ 32 - 2) (2 ^ 32 - 1) 1 7 ≡ some m')
    × Drawn small_screen 7
        (direction 3 (2 ^ 32 - 1))
        (direction (2 ^ 32 - 2) 1)
        (2 ^ 32 - 1)
        1
        n
        3
        (2 ^ 32 - 2)
        dark
        m'
fb_line-Drawn_example =
    fb_line-Drawn small_screen dark 3 (2 ^ 32 - 2) (2 ^ 32 - 1) 1 7 8
      (omega arith, omega arith, omega arith, omega arith) (omega arith) (omega arith) (omega arith)

fb_blit-MovedUp_example :
    MovedUp small_screen 1 2 0 3 3 dark (fb_blit small_screen dark 2 0 2 (0 + 1) 3 3)
fb_blit-MovedUp_example =
    fb_blit-MovedUp small_screen small_screen-IsScreen 1 2 0 3 3 dark (omega arith) (omega arith)
      (omega arith)

abbrev firmware : FbInfo
firmware = record {
  mode = 2;
  width = 1024;
  height = 768;
  pitch = 0;
  bpp = 32;
  phys_addr = 0xC0000000;
  red_mask = 0xFF;
  green_mask = 0xFF00;
  blue_mask = 0xFF0000;
}

firmware-IsLinear : IsLinear firmware
firmware-IsLinear = record {
  linear = refl;
  address = λ e. omega arith;
  size = (omega arith, omega arith, omega arith, omega arith);
  depth = inr refl;
  rows = (omega arith, omega arith, omega arith);
  inside = omega arith;
  masks = inr (inr (refl, refl, refl));
}

fb_init-IsScreen_example :
    (fb : Fb) × (fb_init (some firmware) ≡ some fb)
    × (fb.width ≡ 1024)
    × (fb.height ≡ 768)
    × IsScreen fb
    × IsTrueColour fb
    × InOrder firmware fb.r_shift fb.g_shift fb.b_shift
fb_init-IsScreen_example = fb_init-IsScreen firmware firmware-IsLinear

abbrev buffered : Fb
buffered = record small_screen { back = 2000 }

-- the byte 7 has no glyph
fb_draw_char-Drawn_example :
    Painted small_screen
      (cell 1 2 8 16 (letter_ink small_screen 63 0xFFFFFF 0))
      dark
      (fb_draw_char small_screen dark 1 2 7 0xFFFFFF 0)
fb_draw_char-Drawn_example =
    fb_draw_char-Drawn small_screen 1 2 7 63 0xFFFFFF 0 dark small_screen-IsScreen (omega arith)
      (omega arith) (inr (inl (omega arith), refl))

abbrev text_screen : Fb
text_screen = record small_screen { width = 40; height = 40; pitch = 160 }

abbrev console : Fbcon
console = record {
  ox = 4;
  oy = 2;
  ow = 20;
  oh = 33;
  cols = 2;
  rows = 2;
  cur_col = 1;
  cur_row = 1;
  fg = 0xFFFFFF;
  bg = 0;
}

console-IsConsole : IsConsole text_screen console
console-IsConsole = record {
  columns = refl;
  lines = refl;
  across = omega arith;
  down = omega arith;
  cursor = (omega arith, omega arith);
}

text_screen-IsScreen : IsScreen text_screen
unfolding draw_buf
text_screen-IsScreen = record {
  linear = refl;
  depth = (omega arith, omega arith);
  narrow = omega arith;
  low = omega arith;
  rows = omega arith;
  word = omega arith;
  inside = omega arith;
}

fbcon_puts-Framed_example :
    Framed text_screen
      (console, dark)
      (fbcon_puts text_screen (console, dark) (72 ∷ 105 ∷ 10 ∷ 8 ∷ []))
fbcon_puts-Framed_example =
    fbcon_puts-Framed text_screen (72 ∷ 105 ∷ 10 ∷ 8 ∷ []) console dark text_screen-IsScreen
      console-IsConsole
