-- ===== src/Fb/Text.antt =====
-- Framebuffer.c: fb_draw_char and fb_draw_string, and what a character leaves on the screen.
use fexox_os.Base.{
  ℕ, zero, suc, ◌+◌, ◌-◌, ◌/◌, ◌%◌, ◌^◌, ◌≤◌, ◌<◌, ◌≡◌, ◌∙◌, sym, ap, refl, Bool, true, false, ◌&&◌,
  ◌||◌, not, Option, none, some, List, [], ◌∷◌, get_or, arith, ltb, leb, ◌==◌, if◌then◌else◌, add32,
  u32_mod,
}
use fexox_os.Klibc.{Memory}
use fexox_os.Fb.{Fb, fb_mode_linear, rgb_to_native}
use fexox_os.Fb.Canvas.{fb_put_pixel, IsScreen, Ink, Painted}
use fexox_os.Fb.Paint.{Painted-nothing, Painted-ext, Painted-over, fb_put_pixel-Painted}
use fexox_os.Fb.Font.{g_font8x16}

abbrev pub fb_transparent_bg : ℕ
fb_transparent_bg = 0xFF000000

abbrev pub fb_font_w : ℕ
fb_font_w = 8

abbrev pub fb_font_h : ℕ
fb_font_h = 16

-- `idx` after the test that replaces what has no glyph
abbrev pub glyph_index : ℕ → ℕ
glyph_index c = let idx = c % 256 in if ltb idx 0x20 || ltb 0x7F idx then 63 else idx

-- the `row`-th row of bits of a character
unfoldable pub glyph_row : (c row : ℕ) → ℕ
glyph_row c row = get_or (get_or g_font8x16 (glyph_index c - 0x20) []) row 0

-- `(bits >> (7 - col)) & 1`
abbrev pub is_set : (bits col : ℕ) → Bool
is_set bits col = bits / 2 ^ (7 - col) % 2 == 1

module _ (fb : Fb) (x y fg bg : ℕ) where
  -- the inner loop, `n` columns from `col` on
  unfoldable pub char_columns : (n col : ℕ) → Memory → (bits row : ℕ) → Memory
  char_columns zero col m bits row = m
  char_columns (suc n) col m bits row =
      char_columns n (col + 1)
        (if is_set bits col
          then fb_put_pixel fb m (add32 x col) (add32 y row) fg
          else if not (bg == fb_transparent_bg)
          then fb_put_pixel fb m (add32 x col) (add32 y row) bg
          else m)
        bits row

  -- the outer loop, `n` rows from `row` on
  unfoldable pub char_rows : (n row : ℕ) → Memory → (c : ℕ) → Memory
  char_rows zero row m c = m
  char_rows (suc n) row m c =
      char_rows n (row + 1) (char_columns fb_font_w 0 m (glyph_row c row) row) c

unfoldable pub fb_draw_char : Fb → Memory → (x y c fg bg : ℕ) → Memory
fb_draw_char fb m x y c fg bg =
    if not (fb.mode == fb_mode_linear) then m else char_rows fb x y fg bg fb_font_h 0 m c

-- The string, without its end; the new x and the memory.
unfoldable pub fb_draw_string : Fb → Memory → (x y : ℕ) → List ℕ → (fg bg : ℕ) → ℕ × Memory
fb_draw_string fb m x y [] fg bg = (x, m)
fb_draw_string fb m x y (c ∷ str) fg bg =
    fb_draw_string fb (fb_draw_char fb m x y c fg bg) (add32 x fb_font_w) y str fg bg

-- the colour that a character gives to the pixel (col, row) of its cell
abbrev pub glyph_ink : Fb → (c fg bg : ℕ) → Ink
glyph_ink fb c fg bg col row =
    if is_set (glyph_row c row) col
    then some (rgb_to_native fb fg)
    else if not (bg == fb_transparent_bg)
    then some (rgb_to_native fb bg)
    else none

-- the cell of `w` by `h` pixels at (x, y), coloured by `ink`, and nothing else
abbrev pub cell : (x y w h : ℕ) → Ink → Ink
cell x y w h ink i j =
    if (leb x i && ltb i (x + w)) && (leb y j && ltb j (y + h)) then ink (i - x) (j - y) else none

pub cell_inside :
    (x y w h i j n : ℕ) (ink : Ink)
    → cell x y w h ink i j ≡ some n
    → (x ≤ i) × (i < x + w) × (y ≤ j) × (j < y + h)
cell_inside x y w h i j n ink e = ground arith

-- one ink over another where the two agree
over_split :
    (t f : Bool) (u v : Option ℕ)
    → (f ≡ true → v ≡ u)
    → (elim (if t then u else none) [ none ↦ if f then v else none | some n ↦ some n ])
      ≡ (if t || f then u else none)
over_split true f none v h = overlap f h
  where
    overlap : (f : Bool) → (f ≡ true → v ≡ none) → (if f then v else none) ≡ none
    overlap true h = h refl
    overlap false h = refl
over_split true f (some n) v h = refl
over_split false true u v h = h refl
over_split false false u v h = refl

module _ (fb : Fb) (s : IsScreen fb) (x y fg bg c : ℕ)
    (fits : (x + 8 < u32_mod) × (y + 16 < u32_mod)) where
  -- one pixel of the cell
  put_ink :
      (m : Memory) (col row : ℕ)
      → col < 8
      → row < 16
      → Painted fb
          (λ i j. if i == x + col && j == y + row then glyph_ink fb c fg bg col row else none)
          m
          (if is_set (glyph_row c row) col
            then fb_put_pixel fb m (add32 x col) (add32 y row) fg
            else if not (bg == fb_transparent_bg)
            then fb_put_pixel fb m (add32 x col) (add32 y row) bg
            else m)
  put_ink m col row p q =
      let at_x : add32 x col ≡ x + col = ground arith in
      let at_y : add32 y row ≡ y + row = ground arith in
      rw (at_x, at_y) (put (is_set (glyph_row c row) col) (bg == fb_transparent_bg))
    where
      put :
          (bit clear : Bool)
          → Painted fb
              (λ i j.
                if i == x + col && j == y + row
                then (if bit
                    then some (rgb_to_native fb fg)
                    else if not clear
                    then some (rgb_to_native fb bg)
                    else none)
                else none)
              m
              (if bit
                then fb_put_pixel fb m (x + col) (y + row) fg
                else if not clear
                then fb_put_pixel fb m (x + col) (y + row) bg
                else m)
      put true clear = fb_put_pixel-Painted fb s m (x + col) (y + row) fg
      put false false = fb_put_pixel-Painted fb s m (x + col) (y + row) bg
      put false true = Painted-nothing fb _ m (λ i j p q. ground arith)

  char_columns-Painted :
      (n col row : ℕ) (m : Memory)
      → col + n ≤ 8
      → row < 16
      → Painted fb
          (λ i j.
            if (leb (x + col) i && ltb i (x + col + n)) && j == y + row
            then glyph_ink fb c fg bg (i - x) row
            else none)
          m
          (char_columns fb x y fg bg n col m (glyph_row c row) row)
  unfolding char_columns
  char_columns-Painted zero col row m p q = Painted-nothing fb _ m (λ i j p q. ground arith)
  char_columns-Painted (suc n) col row m p q =
      Painted-ext fb
        (λ i j p q.
          over_split (leb (x + (col + 1)) i && ltb i (x + (col + 1) + n) && j == y + row)
            (i == x + col && j == y + row) (glyph_ink fb c fg bg (i - x) row)
            (glyph_ink fb c fg bg col row)
            (λ e.
              let at : i - x ≡ col = ground arith in ap (λ k. glyph_ink fb c fg bg k row) (sym at))
          ∙ ap (λ b. if b then glyph_ink fb c fg bg (i - x) row else none) (ground arith))
        (Painted-over fb s (put_ink m col row (omega arith) q)
          (char_columns-Painted n (col + 1) row _ (omega arith) q))

  char_rows-Painted :
      (n row : ℕ) (m : Memory)
      → row + n ≤ 16
      → Painted fb
          (λ i j.
            if (leb x i && ltb i (x + 8)) && (leb (y + row) j && ltb j (y + row + n))
            then glyph_ink fb c fg bg (i - x) (j - y)
            else none)
          m
          (char_rows fb x y fg bg n row m c)
  unfolding char_rows
  char_rows-Painted zero row m p = Painted-nothing fb _ m (λ i j p q. ground arith)
  char_rows-Painted (suc n) row m p =
      Painted-ext fb
        (λ i j p q.
          over_split
            (leb x i && ltb i (x + 8) && (leb (y + (row + 1)) j && ltb j (y + (row + 1) + n)))
            (leb (x + 0) i && ltb i (x + 0 + 8) && j == y + row)
            (glyph_ink fb c fg bg (i - x) (j - y)) (glyph_ink fb c fg bg (i - x) row)
            (λ e.
              let at : j - y ≡ row = ground arith in
              ap (λ k. glyph_ink fb c fg bg (i - x) k) (sym at))
          ∙ ap (λ b. if b then glyph_ink fb c fg bg (i - x) (j - y) else none) (ground arith))
        (Painted-over fb s (char_columns-Painted 8 0 row m (omega arith) (omega arith))
          (char_rows-Painted n (row + 1) _ (omega arith)))

  -- fb_draw_char draws the ink of the glyph in its cell.
  pub fb_draw_char-Painted :
      (m : Memory)
      → Painted fb (cell x y 8 16 (glyph_ink fb c fg bg)) m (fb_draw_char fb m x y c fg bg)
  unfolding fb_draw_char
  fb_draw_char-Painted m =
      let shown : not (fb.mode == fb_mode_linear) ≡ false = ground (arith, s.linear) in
      rw shown (
        Painted-ext fb (λ i j p q. let top : y + 0 ≡ y = omega arith in rw top refl)
          (char_rows-Painted 16 0 m (omega arith)))
