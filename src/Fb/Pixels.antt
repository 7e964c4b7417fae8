-- ===== src/Fb/Pixels.antt =====
-- Framebuffer.c, fb_get_pixel: what it reads after a painting, and so after fb_put_pixel and
-- fb_fill_rect.
use fexox_os.Base.{
  ℕ, ◌+◌, ◌*◌, ◌/◌, ◌%◌, ◌^◌, ◌≤◌, ◌<◌, ◌≡◌, ◌⊎◌, refl, ◌∙◌, sym, ap, inl, inr, false, ◌&&◌, ◌||◌,
  not, none, some, arith, leb, ◌==◌, if◌then◌else◌, add64, bit_or, u64_mod, u32_mod, Bool-cases,
}
use fexox_os.Base.Fields.{or_zero_left, or_fields, or_fields_low}
use fexox_os.Klibc.{Memory}
use fexox_os.Fb.{Fb, fb_mode_linear, rgb_to_native}
use fexox_os.Fb.Canvas.{
  pixel_addr-spot, load_pixel, native_to_rgb, fb_put_pixel, fb_get_pixel, IsScreen, spot, spot_inj,
  column_end, row_end, byte, Ink, Painted,
}
use fexox_os.Fb.Paint.{fb_put_pixel-Painted}
use fexox_os.Fb.Draw.{fb_fill_rect}
use fexox_os.Fb.Row.{finish, spans}
use fexox_os.Fb.Rect.{fb_fill_rect-Painted}

-- Three or four bytes a pixel, the channels in the usual order or in the opposite one.
pub record IsTrueColour (fb : Fb) : Type 0 where
  pub bytes : (fb.bytes_pp ≡ 3) ⊎ (fb.bytes_pp ≡ 4)
  pub channels :
      ((fb.r_shift ≡ 16) × (fb.g_shift ≡ 8) × (fb.b_shift ≡ 0))
      ⊎ ((fb.r_shift ≡ 0) × (fb.g_shift ≡ 8) × (fb.b_shift ≡ 16))

-- three channels in one number, the first the highest
or_three :
    (a b c : ℕ)
    → b < 256
    → c < 256
    → bit_or (bit_or (a * 2 ^ 16) (b * 2 ^ 8)) c ≡ a * 2 ^ 16 + b * 2 ^ 8 + c
or_three a b c hb hc =
    let two : bit_or (a * 2 ^ 16) (b * 2 ^ 8) ≡ (a * 2 ^ 8 + b) * 2 ^ 8 =
      omega (arith, or_fields 16 a (b * 2 ^ 8) (omega arith)) in
    rw two (omega (arith, or_fields 8 (a * 2 ^ 8 + b) c (omega arith)))

-- the same with the first channel the lowest
or_three_low :
    (a b c : ℕ)
    → b < 256
    → c < 256
    → bit_or (bit_or c (b * 2 ^ 8)) (a * 2 ^ 16) ≡ a * 2 ^ 16 + b * 2 ^ 8 + c
or_three_low a b c hb hc =
    let two = or_fields_low 8 b c hc in
    rw two (omega (arith, or_fields_low 16 a (b * 2 ^ 8 + c) (omega arith)))

-- The bytes of a pixel in memory, at addresses that do not wrap around.
module _ (m : Memory) (a n d : ℕ) (fits : a + d ≤ u64_mod)
    (bytes : (k : ℕ) → k < d → m (a + k) ≡ byte k n) where
  lowest : 0 < d → m a ≡ byte 0 n
  lowest h = let here : a + 0 ≡ a = omega arith in ap m (sym here) ∙ bytes 0 h

  further : (k : ℕ) → k < d → m (add64 a k) ≡ byte k n
  further k h = let there : add64 a k ≡ a + k = omega arith in ap m there ∙ bytes k h

-- What is read is the colour, if its fourth byte is 0.
load_pixel_lem :
    (m : Memory) (a n d : ℕ)
    → n < 2 ^ 24
    → (d ≡ 3) ⊎ (d ≡ 4)
    → a + d ≤ u64_mod
    → ((k : ℕ) → k < d → m (a + k) ≡ byte k n)
    → load_pixel d m a ≡ n
unfolding load_pixel
load_pixel_lem m a n d h depth fits bytes =
    let b0 = lowest m a n d fits bytes (ground arith) in
    let b1 = further m a n d fits bytes 1 (ground arith) in
    let b2 = further m a n d fits bytes 2 (ground arith) in
    let three =
      or_three (n / 2 ^ 16 % 256) (n / 2 ^ 8 % 256) (n % 256) (omega arith) (omega arith) in
    elim depth [
      | inl e ↦ rw (e, b0, b1, b2, three) (omega arith)
      | inr e ↦
          let b3 = further m a n d fits bytes 3 (ground arith) in
          let clear : n / 2 ^ 24 % 256 * 2 ^ 24 ≡ 0 = omega arith in
          rw (e, b0, b1, b2, b3, clear)
            (rw (or_zero_left (n / 2 ^ 16 % 256 * 2 ^ 16), three) (omega arith))
    ]

module _ (fb : Fb) (t : IsTrueColour fb) (c : ℕ) (small : c < 2 ^ 24) where
  abbrev red : ℕ
  red = c / 2 ^ 16 % 256

  abbrev green : ℕ
  green = c / 2 ^ 8 % 256

  abbrev blue : ℕ
  blue = c % 256

  native_value :
      ((fb.r_shift ≡ 16)
        × (fb.g_shift ≡ 8)
        × (fb.b_shift ≡ 0)
        × (rgb_to_native fb c ≡ red * 2 ^ 16 + green * 2 ^ 8 + blue))
      ⊎ ((fb.r_shift ≡ 0)
          × (fb.g_shift ≡ 8)
          × (fb.b_shift ≡ 16)
          × (rgb_to_native fb c ≡ blue * 2 ^ 16 + green * 2 ^ 8 + red))
  unfolding rgb_to_native
  native_value =
      let high : (x : ℕ) → x < 256 → x * 2 ^ 16 % u32_mod ≡ x * 2 ^ 16 = λ x p. omega arith in
      let middle : (x : ℕ) → x < 256 → x * 2 ^ 8 % u32_mod ≡ x * 2 ^ 8 = λ x p. omega arith in
      let bottom : (x : ℕ) → x < 256 → x * 2 ^ 0 % u32_mod ≡ x = λ x p. omega arith in
      elim t.channels [
        | inl (er, eg, eb) ↦ inl (
          er,
          eg,
          eb,
          rw
              (
                er,
                eg,
                eb,
                high red (omega arith),
                middle green (omega arith),
                bottom blue (omega arith),
              )
              (or_three red green blue (omega arith) (omega arith)),
        )
        | inr (er, eg, eb) ↦ inr (
          er,
          eg,
          eb,
          rw
              (
                er,
                eg,
                eb,
                high blue (omega arith),
                middle green (omega arith),
                bottom red (omega arith),
              )
              (or_three_low blue green red (omega arith) (omega arith)),
        )
      ]

  native_small : rgb_to_native fb c < 2 ^ 24
  native_small = elim native_value [
    | inl (_, _, _, e) ↦ omega arith
    | inr (_, _, _, e) ↦ omega arith
  ]

  -- a colour survives the framebuffer's format
  native_to_rgb-rgb_to_native : native_to_rgb fb (rgb_to_native fb c) ≡ c
  unfolding native_to_rgb
  native_to_rgb-rgb_to_native = elim native_value [
    | inl (er, eg, eb, e) ↦
        rw (e, er, eg, eb) (or_three _ _ _ (omega arith) (omega arith) ∙ omega arith)
    | inr (er, eg, eb, e) ↦
        rw (e, er, eg, eb) (or_three _ _ _ (omega arith) (omega arith) ∙ omega arith)
  ]

-- what is read depends on the bytes of the pixel alone
load_pixel-ext :
    (m m' : Memory) (a d : ℕ)
    → (d ≡ 3) ⊎ (d ≡ 4)
    → a + d ≤ u64_mod
    → ((k : ℕ) → k < d → m' (a + k) ≡ m (a + k))
    → load_pixel d m' a ≡ load_pixel d m a
unfolding load_pixel
load_pixel-ext m m' a d depth fits same =
    let b0 : m' a ≡ m a =
      let here : a + 0 ≡ a = omega arith in ap m' (sym here) ∙ same 0 (ground arith) ∙ ap m here in
    let further : (k : ℕ) → k < d → m' (add64 a k) ≡ m (add64 a k) = λ k h.
      let there : add64 a k ≡ a + k = omega arith in ap m' there ∙ same k h ∙ ap m (sym there) in
    let b1 = further 1 (ground arith) in
    let b2 = further 2 (ground arith) in
    elim depth [
      | inl e ↦ rw (e, b0, b1, b2) refl
      | inr e ↦ let b3 = further 3 (ground arith) in rw (e, b0, b1, b2, b3) refl
    ]

module _ (fb : Fb) (s : IsScreen fb) (t : IsTrueColour fb) where
  pixel_end : (i j : ℕ) → i < fb.width → j < fb.height → spot fb i j + fb.bytes_pp ≤ u64_mod
  pixel_end i j p q = omega (arith, s.inside, column_end fb s i p, row_end fb s j q)

  on_screen :
      (m : Memory) (i j : ℕ)
      → i < fb.width
      → j < fb.height
      → fb_get_pixel fb m i j ≡ native_to_rgb fb (load_pixel fb.bytes_pp m (spot fb i j))
  unfolding fb_get_pixel
  on_screen m i j p q =
      let shown : not (fb.mode == fb_mode_linear) ≡ false = ground (arith, s.linear) in
      let on : leb fb.width i || leb fb.height j ≡ false = ground arith in
      rw (shown, on, pixel_addr-spot fb s i j p q) refl

  module _ {ink : Ink} {m m' : Memory} (painted : Painted fb ink m m') (i j : ℕ) (p : i < fb.width)
      (q : j < fb.height) where
    -- a painted pixel reads as its colour
    pub fb_get_pixel-inked :
        (c : ℕ) → c < 2 ^ 24 → ink i j ≡ some (rgb_to_native fb c) → fb_get_pixel fb m' i j ≡ c
    fb_get_pixel-inked c small e =
        on_screen m' i j p q
        ∙ ap (native_to_rgb fb) (
            load_pixel_lem m' (spot fb i j) (rgb_to_native fb c) fb.bytes_pp
              (native_small fb t c small) t.bytes (pixel_end i j p q)
              (λ k h. painted.inked i j k (rgb_to_native fb c) p q h e))
        ∙ native_to_rgb-rgb_to_native fb t c small

    -- any other pixel reads as before
    pub fb_get_pixel-blank : ink i j ≡ none → fb_get_pixel fb m' i j ≡ fb_get_pixel fb m i j
    fb_get_pixel-blank e =
        on_screen m' i j p q
        ∙ ap (native_to_rgb fb) (
            load_pixel-ext m m' (spot fb i j) fb.bytes_pp t.bytes (pixel_end i j p q) (λ k h.
              painted.others (spot fb i j + k) (λ i' j' k' n p' q' h' e' at.
                let (si, sj) = spot_inj fb s i j k i' j' k' p h p' h' at in cc)))
        ∙ sym (on_screen m i j p q)

  -- In a format of three or four bytes a pixel, with the channels in the usual order or in the
  -- opposite one: after fb_fill_rect of a 24-bit colour, with the rectangle's ends below 2 ^ 32,
  -- fb_get_pixel reads the colour at every place of the screen that is in the rectangle, and what it
  -- read before at every other. The rectangle may begin left of the screen or above it.
  pub fb_get_pixel-fb_fill_rect :
      (m : Memory) (x y w h c i j : ℕ)
      → x < u32_mod
      → y < u32_mod
      → w < u32_mod
      → h < u32_mod
      → finish x w < u32_mod
      → finish y h < u32_mod
      → c < 2 ^ 24
      → i < fb.width
      → j < fb.height
      → fb_get_pixel fb (fb_fill_rect fb m x y w h c) i j
        ≡ (if spans x w i && spans y h j then c else fb_get_pixel fb m i j)
  fb_get_pixel-fb_fill_rect m x y w h c i j hx hy hw hh right bottom small p q =
      let painted = fb_fill_rect-Painted fb s m x y w h c hx hy hw hh right bottom in
      elim (Bool-cases (spans x w i && spans y h j)) [
        | inl e ↦ rw e (fb_get_pixel-inked painted i j p q c small (rw e refl))
        | inr e ↦ rw e (fb_get_pixel-blank painted i j p q (rw e refl))
      ]

  -- In such a format, fb_put_pixel on the screen is read back, and no other pixel changes.
  pub fb_get_pixel-fb_put_pixel :
      (m : Memory) (x y c i j : ℕ)
      → c < 2 ^ 24
      → i < fb.width
      → j < fb.height
      → fb_get_pixel fb (fb_put_pixel fb m x y c) i j
        ≡ (if i == x && j == y then c else fb_get_pixel fb m i j)
  fb_get_pixel-fb_put_pixel m x y c i j small p q =
      let painted = fb_put_pixel-Painted fb s m x y c in
      elim (Bool-cases (i == x && j == y)) [
        | inl e ↦ rw e (fb_get_pixel-inked painted i j p q c small (rw e refl))
        | inr e ↦ rw e (fb_get_pixel-blank painted i j p q (rw e refl))
      ]
