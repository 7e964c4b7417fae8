-- ===== src/Fb/Draw.antt =====
-- Framebuffer.c: the primitives that draw with more than one pixel.
use fexox_os.Base.{
  ℕ, zero, suc, ◌+◌, ◌*◌, ◌%◌, ◌^◌, Bool, ◌||◌, not, Option, none, some, ltb, leb, ◌==◌,
  if◌then◌else◌, add64, u64_mod, add32, sub32, u32_mod,
}
use fexox_os.Klibc.{Memory, memmove}
use fexox_os.Fb.{Fb, fb_mode_linear, rgb_to_native, draw_buf}
use fexox_os.Fb.Canvas.{store_pixel, pixel_addr, fb_put_pixel}

-- `x < 0` of an int32_t
abbrev pub is_negative : ℕ → Bool
is_negative x = leb (2 ^ 31) x

-- `if (x < 0) { if ((uint32_t)(-x) >= w) return; w += x; x = 0; }`, with the new x and w
abbrev pub clip_low : (x w : ℕ) → Option (ℕ × ℕ)
clip_low x w =
    if is_negative x then (if leb w (sub32 0 x) then none else some (0, add32 w x)) else some (x, w)

-- `if ((uint32_t)x + w > limit) w = limit - (uint32_t)x;`, the new w
abbrev pub clip_high : (x w limit : ℕ) → ℕ
clip_high x w limit = if ltb limit (add32 x w) then sub32 limit x else w

-- `row + i * g_fb.bytes_pp`, where the product is of 32 bits, or the `i`-th uint32_t of the row
abbrev pub step_addr : (bytes_pp row i : ℕ) → ℕ
step_addr k row i = if k == 4 then add64 row (4 * i) else add64 row (i * k % u32_mod)

-- The two loops of fb_hline, `n` rounds from `i` on.
unfoldable pub hline_loop : (n i : ℕ) → (bytes_pp : ℕ) → Memory → (row native : ℕ) → Memory
hline_loop zero i k m row native = m
hline_loop (suc n) i k m row native =
    hline_loop n (i + 1) k (store_pixel k m (step_addr k row i) native) row native

-- fb_hline after the clipping at the left end
unfoldable pub hline_from : Fb → Memory → (x y len color : ℕ) → Memory
hline_from fb m x y len c =
    hline_loop (clip_high x len fb.width) 0 fb.bytes_pp m (pixel_addr fb x y) (rgb_to_native fb c)

unfoldable pub fb_hline : Fb → Memory → (x y len color : ℕ) → Memory
fb_hline fb m x y len c =
    if not (fb.mode == fb_mode_linear)
    then m
    else if leb fb.height y
    then m
    else elim (clip_low x len) [ none ↦ m | some (x', len') ↦ hline_from fb m x' y len' c ]

unfoldable pub vline_loop : (n i : ℕ) → Fb → Memory → (x y color : ℕ) → Memory
vline_loop zero i fb m x y c = m
vline_loop (suc n) i fb m x y c = vline_loop n (i + 1) fb (fb_put_pixel fb m x (add32 y i) c) x y c

unfoldable pub fb_vline : Fb → Memory → (x y len color : ℕ) → Memory
fb_vline fb m x y len c =
    if not (fb.mode == fb_mode_linear)
    then m
    else if leb fb.width x
    then m
    else elim (clip_low y len) [
      | none ↦ m
      | some (y', len') ↦ vline_loop (clip_high y' len' fb.height) 0 fb m x y' c
    ]

-- the loop over the rows of fb_fill_rect
unfoldable pub fill_rows : (n row : ℕ) → Fb → Memory → (x y w color : ℕ) → Memory
fill_rows zero row fb m x y w c = m
fill_rows (suc n) row fb m x y w c =
    fill_rows n (row + 1) fb (fb_hline fb m x (add32 y row) w c) x y w c

-- fb_fill_rect after the clipping at the left and at the top
unfoldable pub fill_from : Fb → Memory → (x w y h color : ℕ) → Memory
fill_from fb m x w y h c =
    if leb fb.width x || leb fb.height y
    then m
    else if clip_high x w fb.width == 0 || clip_high y h fb.height == 0
    then m
    else fill_rows (clip_high y h fb.height) 0 fb m x y (clip_high x w fb.width) c

unfoldable pub fb_fill_rect : Fb → Memory → (x y w h color : ℕ) → Memory
fb_fill_rect fb m x y w h c = if not (fb.mode == fb_mode_linear) then m else elim (clip_low x w) [
  | none ↦ m
  | some (x', w') ↦ elim (clip_low y h) [ none ↦ m | some (y', h') ↦ fill_from fb m x' w' y' h' c ]
]

unfoldable pub fb_draw_rect : Fb → Memory → (x y w h color t : ℕ) → Memory
fb_draw_rect fb m0 x y w h c t0 =
    let t = if t0 == 0 then 1 else t0 in
    let m1 = fb_fill_rect fb m0 x y w t c in
    let m2 = fb_fill_rect fb m1 x (add32 y (sub32 h t)) w t c in
    let m3 = fb_fill_rect fb m2 x y t h c in fb_fill_rect fb m3 (add32 x (sub32 w t)) y t h c

unfoldable pub fb_clear : Fb → Memory → (color : ℕ) → Memory
fb_clear fb m c = fb_fill_rect fb m 0 0 fb.width fb.height c

-- `buf + (uint64_t)(uint32_t)y * g_fb.pitch + (uint64_t)(uint32_t)x * g_fb.bytes_pp`
unfoldable pub blit_addr : Fb → (x y : ℕ) → ℕ
blit_addr fb x y = add64 (add64 (draw_buf fb) (y * fb.pitch % u64_mod)) (x * fb.bytes_pp % u64_mod)

-- the loop of fb_blit, `n` rounds from `row` on
unfoldable pub blit_loop : (n row : ℕ) → Fb → Memory → (dx dy sx sy w : ℕ) → Memory
blit_loop zero row fb m dx dy sx sy w = m
blit_loop (suc n) row fb m dx dy sx sy w =
    let sr = add32 sy row in
    let dr = add32 dy row in
    blit_loop n (row + 1) fb
      (if leb fb.height sr || leb fb.height dr
        then m
        else memmove m (blit_addr fb dx dr) (blit_addr fb sx sr) (w * fb.bytes_pp))
      dx dy sx sy w

unfoldable pub fb_blit : Fb → Memory → (dx dy sx sy w h : ℕ) → Memory
fb_blit fb m dx dy sx sy w h =
    if not (fb.mode == fb_mode_linear) then m else blit_loop h 0 fb m dx dy sx sy w
