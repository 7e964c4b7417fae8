-- ===== src/Fb/Canvas.antt =====
-- Framebuffer.c: the pixels of the screen as a canvas, what it means to paint some of them, and
-- fb_put_pixel and fb_get_pixel.
use fexox_os.Base.{
  ℕ, ◌+◌, ◌-◌, ◌*◌, ◌/◌, ◌%◌, ◌^◌, ◌≤◌, ◌<◌, ◌≡◌, ◌≢◌, ◌||◌, not, Option, none, some, arith, ltb,
  leb, ◌==◌, if◌then◌else◌, update, bit_or, add64, u64_mod, u32_mod,
}
use fexox_os.Klibc.{Memory}
use fexox_os.Fb.{Fb, fb_mode_linear, rgb_to_native, draw_buf}

-- `(uint64_t)x` of an int32_t
abbrev pub to_u64 : ℕ → ℕ
to_u64 x = if ltb x (2 ^ 31) then x else x + (u64_mod - u32_mod)

-- `draw_buf() + (uint64_t)y * g_fb.pitch + (uint64_t)x * g_fb.bytes_pp`
unfoldable pub pixel_addr : Fb → (x y : ℕ) → ℕ
pixel_addr fb x y =
    add64 (add64 (draw_buf fb) (to_u64 y * fb.pitch % u64_mod)) (to_u64 x * fb.bytes_pp % u64_mod)

-- The bytes of a colour, the switch's case 1, and the cases that fall through to it.
abbrev pub store1 : Memory → (a native : ℕ) → Memory
store1 m a n = update m a (n % 256)

abbrev pub store2 : Memory → (a native : ℕ) → Memory
store2 m a n = store1 (update m (add64 a 1) (n / 2 ^ 8 % 256)) a n

abbrev pub store3 : Memory → (a native : ℕ) → Memory
store3 m a n = store2 (update m (add64 a 2) (n / 2 ^ 16 % 256)) a n

abbrev pub store4 : Memory → (a native : ℕ) → Memory
store4 m a n = store3 (update m (add64 a 3) (n / 2 ^ 24 % 256)) a n

unfoldable pub store_pixel : (bytes_pp : ℕ) → Memory → (a native : ℕ) → Memory
store_pixel k m a n =
    if k == 4
    then store4 m a n
    else if k == 3
    then store3 m a n
    else if k == 2
    then store2 m a n
    else if k == 1
    then store1 m a n
    else m

unfoldable pub fb_put_pixel : Fb → Memory → (x y color : ℕ) → Memory
fb_put_pixel fb m x y c =
    if not (fb.mode == fb_mode_linear)
    then m
    else if leb fb.width x || leb fb.height y
    then m
    else store_pixel fb.bytes_pp m (pixel_addr fb x y) (rgb_to_native fb c)

-- `native` after the switch
unfoldable pub load_pixel : (bytes_pp : ℕ) → Memory → (a : ℕ) → ℕ
load_pixel k m a =
    let b0 = m a in
    let b1 = m (add64 a 1) * 2 ^ 8 in
    let b2 = m (add64 a 2) * 2 ^ 16 in
    let b3 = m (add64 a 3) * 2 ^ 24 in
    if k == 4
    then bit_or (bit_or (bit_or b3 b2) b1) b0
    else if k == 3
    then bit_or (bit_or b2 b1) b0
    else if k == 2
    then bit_or b1 b0
    else if k == 1
    then b0
    else 0

-- `native`, split into the three channels
unfoldable pub native_to_rgb : Fb → ℕ → ℕ
native_to_rgb fb n =
    let r = n / 2 ^ fb.r_shift % 256 in
    let g = n / 2 ^ fb.g_shift % 256 in
    let b = n / 2 ^ fb.b_shift % 256 in bit_or (bit_or (r * 2 ^ 16) (g * 2 ^ 8)) b

unfoldable pub fb_get_pixel : Fb → Memory → (x y : ℕ) → ℕ
fb_get_pixel fb m x y =
    if not (fb.mode == fb_mode_linear)
    then 0
    else if leb fb.width x || leb fb.height y
    then 0
    else native_to_rgb fb (load_pixel fb.bytes_pp m (pixel_addr fb x y))

-- A linear mode whose rows do not overlap and whose draw buffer lies in the address space.
pub record IsScreen (fb : Fb) : Type 0 where
  pub linear : fb.mode ≡ fb_mode_linear
  pub depth : (1 ≤ fb.bytes_pp) × (fb.bytes_pp ≤ 4)
  pub narrow : fb.width ≤ 2 ^ 31
  pub low : fb.height ≤ 2 ^ 31
  pub rows : fb.width * fb.bytes_pp ≤ fb.pitch
  pub word : fb.pitch < u32_mod
  pub inside : draw_buf fb + fb.pitch * fb.height ≤ u64_mod

-- the first byte of a pixel, where nothing wraps around
abbrev pub spot : Fb → (x y : ℕ) → ℕ
spot fb x y = draw_buf fb + y * fb.pitch + x * fb.bytes_pp

-- byte `k` of a colour in memory
abbrev pub byte : (k native : ℕ) → ℕ
byte k n =
    if k == 0
    then n % 256
    else if k == 1
    then n / 2 ^ 8 % 256
    else if k == 2
    then n / 2 ^ 16 % 256
    else n / 2 ^ 24 % 256

-- Which pixels get which colour.
abbrev pub Ink : Type 0
Ink = ℕ → ℕ → Option ℕ

-- `b` over `a`
abbrev pub over : Ink → Ink → Ink
over b a i j = elim (b i j) [ none ↦ a i j | some n ↦ some n ]

module _ (fb : Fb) where
  -- The pixels that `ink` colours have its colours, and no other byte has changed.
  pub record Painted (ink : Ink) (m m' : Memory) : Type 0 where
    pub inked :
        (i j k n : ℕ)
        → i < fb.width
        → j < fb.height
        → k < fb.bytes_pp
        → ink i j ≡ some n
        → m' (spot fb i j + k) ≡ byte k n
    pub others :
        (a : ℕ)
        → ((i j k n : ℕ)
            → i < fb.width
            → j < fb.height
            → k < fb.bytes_pp
            → ink i j ≡ some n
            → a ≢ spot fb i j + k)
        → m' a ≡ m a

  module _ (s : IsScreen fb) where
    -- the end of a pixel within its row, and of a row within the buffer
    pub column_end : (i : ℕ) → i < fb.width → i * fb.bytes_pp + fb.bytes_pp ≤ fb.pitch
    column_end i h = grind (arith, s.rows)

    pub row_end : (j : ℕ) → j < fb.height → j * fb.pitch + fb.pitch ≤ fb.pitch * fb.height
    row_end j h = grind arith

    row_order : (j j' : ℕ) → j < j' → j * fb.pitch + fb.pitch ≤ j' * fb.pitch
    row_order j j' h = grind arith

    column_order : (i i' : ℕ) → i < i' → i * fb.bytes_pp + fb.bytes_pp ≤ i' * fb.bytes_pp
    column_order i i' h = grind arith

    -- different pixels have no byte in common
    pub spot_inj :
        (i j k i' j' k' : ℕ)
        → i < fb.width
        → k < fb.bytes_pp
        → i' < fb.width
        → k' < fb.bytes_pp
        → spot fb i j + k ≡ spot fb i' j' + k'
        → (i ≡ i') × (j ≡ j')
    spot_inj i j k i' j' k' h hk h' hk' e =
        let same_row : j ≡ j' =
          ground (arith, row_order j j', row_order j' j, column_end i h, column_end i' h') in
        let same : j * fb.pitch ≡ j' * fb.pitch = cc in
        (ground (arith, column_order i i', column_order i' i, same), same_row)

    pub pixel_addr-spot : (i j : ℕ) → i < fb.width → j < fb.height → pixel_addr fb i j ≡ spot fb i j
    unfolding pixel_addr
    pixel_addr-spot i j h h' =
        ground (arith, s.narrow, s.low, s.inside, s.depth, column_end i h, row_end j h')
