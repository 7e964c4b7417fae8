-- ===== src/Fb/Glyph.antt =====
-- Framebuffer.c, fb_draw_char: the pixels of a character, said of the font's table.
use fexox_os.Base.{
  ℕ, zero, suc, ◌∷◌, ◌+◌, ◌-◌, ◌/◌, ◌%◌, ◌^◌, ◌≤◌, ◌<◌, ◌≡◌, ◌⊎◌, refl, Bool, ◌&&◌, not, true,
  false, some, none, [], get_or, arith, leb, ltb, ◌==◌, if◌then◌else◌, u32_mod, Bool-cases, inl,
  inr,
}
use fexox_os.Klibc.{Memory}
use fexox_os.Fb.{Fb, rgb_to_native}
use fexox_os.Fb.Canvas.{IsScreen, Ink, Painted}
use fexox_os.Fb.Paint.{Painted-ext}
use fexox_os.Fb.Font.{g_font8x16}
use fexox_os.Fb.Text.{glyph_index, glyph_row, glyph_ink, cell, fb_draw_char, fb_draw_char-Painted}

-- The byte `c` is shown as the character `shown`: itself from 32 to 127, and `?` otherwise.
abbrev pub IsShown : (c shown : ℕ) → Type 0
IsShown c shown =
    ((32 ≤ c % 256) × (c % 256 ≤ 127) × (shown ≡ c % 256))
    ⊎ (((c % 256 < 32) ⊎ (127 < c % 256)) × (shown ≡ 63))

-- what a column's bit counts in a row of the table; the first column has the highest bit
abbrev pub weight : (col : ℕ) → ℕ
weight col = get_or (128 ∷ 64 ∷ 32 ∷ 16 ∷ 8 ∷ 4 ∷ 2 ∷ 1 ∷ []) col 0

-- the colour of the pixel (col, row) of a character from 32 to 127
abbrev pub letter_ink : Fb → (shown fg bg : ℕ) → Ink
letter_ink fb shown fg bg col row =
    let bits = get_or (get_or g_font8x16 (shown - 32) []) row 0 in
    if bits / weight col % 2 == 1
    then some (rgb_to_native fb fg)
    else if bg == 0xFF000000
    then none
    else some (rgb_to_native fb bg)

shown_index : (c shown : ℕ) → IsShown c shown → glyph_index c ≡ shown
shown_index c shown (inl (lo, hi, e)) = ground (arith, lo, hi, e)
shown_index c shown (inr (inl h, e)) = ground (arith, h, e)
shown_index c shown (inr (inr h, e)) = ground (arith, h, e)

weight_power : (col : ℕ) → col < 8 → 2 ^ (7 - col) ≡ weight col
weight_power zero h = refl
weight_power (suc zero) h = refl
weight_power (suc (suc zero)) h = refl
weight_power (suc (suc (suc zero))) h = refl
weight_power (suc (suc (suc (suc zero)))) h = refl
weight_power (suc (suc (suc (suc (suc zero))))) h = refl
weight_power (suc (suc (suc (suc (suc (suc zero)))))) h = refl
weight_power (suc (suc (suc (suc (suc (suc (suc zero))))))) h = refl
weight_power (suc (suc (suc (suc (suc (suc (suc (suc n)))))))) h = absurd (omega (arith, h))

three_ways :
    (lit clear : Bool) (f b : ℕ)
    → (if lit then some f else if not clear then some b else none)
      ≡ (if lit then some f else if clear then none else some b)
three_ways true clear f b = refl
three_ways false true f b = refl
three_ways false false f b = refl

same_ink :
    (fb : Fb) (c shown fg bg col row : ℕ)
    → IsShown c shown
    → col < 8
    → glyph_ink fb c fg bg col row ≡ letter_ink fb shown fg bg col row
unfolding glyph_row
same_ink fb c shown fg bg col row s small =
    rw (shown_index c shown s, weight_power col small)
      (three_ways (get_or (get_or g_font8x16 (shown - 32) []) row 0 / weight col % 2 == 1)
        (bg == 0xFF000000) (rgb_to_native fb fg) (rgb_to_native fb bg))

same_cell :
    (fb : Fb) (x y c shown fg bg i j : ℕ)
    → IsShown c shown
    → cell x y 8 16 (glyph_ink fb c fg bg) i j ≡ cell x y 8 16 (letter_ink fb shown fg bg) i j
same_cell fb x y c shown fg bg i j s =
    elim (Bool-cases ((leb x i && ltb i (x + 8)) && (leb y j && ltb j (y + 16)))) [
      | inr e ↦ rw e refl
      | inl e ↦ rw e (same_ink fb c shown fg bg (i - x) (j - y) s (ground (arith, e)))
    ]

-- fb_draw_char at a place that is not near 2 ^ 32 gives to each pixel of its 8 by 16 cell that is on
-- the screen the foreground where the bit of the table's row is set, the first column being the
-- highest bit, and otherwise the background, or leaves it where the background is transparent; it
-- changes no other byte. A byte below 32 or above 127 is drawn as `?`, any other as itself.
pub fb_draw_char-Drawn :
    (fb : Fb) (x y c shown fg bg : ℕ) (m : Memory)
    → IsScreen fb
    → x + 8 < u32_mod
    → y + 16 < u32_mod
    → IsShown c shown
    → Painted fb (cell x y 8 16 (letter_ink fb shown fg bg)) m (fb_draw_char fb m x y c fg bg)
fb_draw_char-Drawn fb x y c shown fg bg m s narrow low known =
    Painted-ext fb (λ i j p q. same_cell fb x y c shown fg bg i j known)
      (fb_draw_char-Painted fb s x y fg bg c (narrow, low) m)
