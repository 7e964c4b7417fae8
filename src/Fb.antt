-- ===== src/Fb.antt =====
-- Framebuffer.c: the state of the screen driver, its set-up, the double buffer and the primitives
-- that draw. The memory is a function from addresses to bytes; an int32_t is its 32-bit pattern,
-- as the source's casts to uint32_t read it. kmalloc is an argument. The debug output has no
-- counterpart, and the fence and the non-temporal hint of memcpy_nt none either.
pub mod Canvas
pub mod Paint
pub mod Draw
pub mod Pixels
pub mod Line
pub mod Setup
pub mod Flip
pub mod Font
pub mod Text
pub mod Glyph
pub mod Console
pub mod Row
pub mod Scroll
pub mod Region
pub mod Cursor
pub mod Rect
mod Tests
use fexox_os.Base.{
  ℕ, zero, suc, ◌+◌, ◌-◌, ◌*◌, ◌/◌, ◌%◌, ◌^◌, Bool, true, false, ◌&&◌, ◌||◌, not, Option, none,
  some, ltb, leb, ◌==◌, if◌then◌else◌, update, bit_or, add64, u64_mod, add32, sub32, u32_mod,
}
use fexox_os.Base.Int.{ℤ, pos, negsuc}
use fexox_os.Klibc.{Memory, memset}

-- `fb_state_t`. Pointers are addresses, and 0 is NULL.
pub record Fb : Type 0 where
  pub mode : ℕ
  pub width : ℕ
  pub height : ℕ
  pub pitch : ℕ
  pub bpp : ℕ
  pub bytes_pp : ℕ
  pub front : ℕ
  pub back : ℕ
  pub phys_addr : ℕ
  pub r_shift : ℕ
  pub g_shift : ℕ
  pub b_shift : ℕ

-- `fb_info_t`
pub record FbInfo : Type 0 where
  pub mode : ℕ
  pub width : ℕ
  pub height : ℕ
  pub pitch : ℕ
  pub bpp : ℕ
  pub phys_addr : ℕ
  pub red_mask : ℕ
  pub green_mask : ℕ
  pub blue_mask : ℕ

abbrev pub fb_mode_none : ℕ
fb_mode_none = 0

abbrev pub fb_mode_vga : ℕ
fb_mode_vga = 1

abbrev pub fb_mode_linear : ℕ
fb_mode_linear = 2

abbrev pub fb_direct_map : ℕ
fb_direct_map = 0xFFFF880000000000

-- The `while` of mask_to_shift; 32 rounds find a bit of a 32-bit mask.
unfoldable pub shift_loop : (fuel mask s : ℕ) → Option ℕ
shift_loop zero mask s = none
shift_loop (suc k) mask s =
    let rest = shift_loop k (mask / 2) (s + 1) in if mask % 2 == 0 then rest else some s

unfoldable pub mask_to_shift : ℕ → Option ℕ
unfolding shift_loop
mask_to_shift mask = if mask == 0 then some 0 else shift_loop 32 mask 0

abbrev pub shl32 : (a s : ℕ) → ℕ
shl32 a s = a * 2 ^ s % u32_mod

unfoldable pub rgb_to_native : Fb → ℕ → ℕ
rgb_to_native fb c =
    let r = c / 2 ^ 16 % 256 in
    let g = c / 2 ^ 8 % 256 in
    let b = c % 256 in
    bit_or (bit_or (shl32 r fb.r_shift) (shl32 g fb.g_shift)) (shl32 b fb.b_shift)

unfoldable pub draw_buf : Fb → ℕ
draw_buf fb = if fb.back == 0 then fb.front else fb.back

-- g_fb after the loop that clears it
abbrev pub empty_fb : Fb
empty_fb = record {
  mode = 0;
  width = 0;
  height = 0;
  pitch = 0;
  bpp = 0;
  bytes_pp = 0;
  front = 0;
  back = 0;
  phys_addr = 0;
  r_shift = 0;
  g_shift = 0;
  b_shift = 0;
}

abbrev pub vga_fallback : Fb
vga_fallback = record empty_fb { mode = fb_mode_vga }

-- The linear branch, once the three shifts are known.
abbrev pub linear_mode : FbInfo → (r g b : ℕ) → Fb
linear_mode info r g b =
    let depth = if info.bpp == 0 then 32 else info.bpp in
    record {
      mode = fb_mode_linear;
      width = info.width;
      height = info.height;
      pitch = if info.pitch == 0 then info.width * (info.bpp / 8) % u32_mod else info.pitch;
      bpp = depth;
      bytes_pp = depth / 8;
      front = add64 info.phys_addr fb_direct_map;
      back = 0;
      phys_addr = info.phys_addr;
      r_shift = r;
      g_shift = g;
      b_shift = b;
    }

abbrev pub three_shifts {ℓ} :
    {A : Type ℓ} → Option ℕ → Option ℕ → Option ℕ → (ℕ → ℕ → ℕ → A) → Option A
three_shifts (some r) (some g) (some b) f = some (f r g b)
three_shifts _ _ _ f = none

-- The new g_fb, whose `mode` is what is returned. `none` as the argument is a NULL pointer, as the
-- result the model's fuel running out.
unfoldable pub fb_init : Option FbInfo → Option Fb
unfolding mask_to_shift
fb_init none = some vga_fallback
fb_init (some info) =
    if info.mode == fb_mode_vga || info.mode == fb_mode_none
    then some vga_fallback
    else if info.mode == fb_mode_linear
        && not (info.phys_addr == 0)
        && not (info.width == 0)
        && not (info.height == 0)
    then if not (info.red_mask == 0) || not (info.green_mask == 0) || not (info.blue_mask == 0)
      then three_shifts (mask_to_shift info.red_mask) (mask_to_shift info.green_mask)
          (mask_to_shift info.blue_mask) (linear_mode info)
      else some (linear_mode info 16 8 0)
    else some vga_fallback

unfoldable pub fb_get_mode : Fb → ℕ
fb_get_mode fb = fb.mode

unfoldable pub fb_width : Fb → ℕ
fb_width fb = fb.width

unfoldable pub fb_height : Fb → ℕ
fb_height fb = fb.height

unfoldable pub fb_phys_addr : Fb → ℕ
fb_phys_addr fb = if fb.mode == fb_mode_linear then fb.phys_addr else 0

unfoldable pub fb_pitch : Fb → ℕ
fb_pitch fb = if fb.mode == fb_mode_linear then fb.pitch else 0

unfoldable pub fb_bpp : Fb → ℕ
fb_bpp fb = if fb.mode == fb_mode_linear then fb.bpp else 0

-- `(uint64_t)g_fb.pitch * g_fb.height`
abbrev pub buffer_bytes : Fb → ℕ
buffer_bytes fb = fb.pitch * fb.height % u64_mod

-- What is returned, the state and the memory.
unfoldable pub fb_enable_double_buffer : (kmalloc : ℕ → ℕ) → Fb → Memory → ℤ × Fb × Memory
unfolding memset
fb_enable_double_buffer kmalloc fb m =
    if not (fb.mode == fb_mode_linear)
    then (negsuc 0, fb, m)
    else if not (fb.back == 0)
    then (pos 0, fb, m)
    else let back = kmalloc (buffer_bytes fb) in
      if back == 0
      then (negsuc 0, fb, m)
      else (pos 0, record fb { back = back }, memset m back 0 (buffer_bytes fb))

-- The address that kfree is called with, if it is, and the state.
unfoldable pub fb_disable_double_buffer : Fb → Option ℕ × Fb
fb_disable_double_buffer fb =
    if fb.back == 0 then (none, fb) else (some fb.back, record fb { back = 0 })

-- The loop over 8-byte words: `count` rounds from the word at `i` on, each a copy of 8 bytes.
unfoldable pub copy_words : (count : ℕ) → Memory → (d s : ℕ) → Memory
copy_words zero m d s = m
copy_words (suc k) m d s =
    copy_words k (λ a. if leb d a && ltb a (d + 8) then m (s + (a - d)) else m a) (d + 8) (s + 8)

unfoldable pub copy_tail : (n : ℕ) → Memory → (d s : ℕ) → Memory
copy_tail zero m d s = m
copy_tail (suc k) m d s = copy_tail k (update m d (m s)) (d + 1) (s + 1)

unfoldable pub memcpy_nt : Memory → (dst src n : ℕ) → Memory
unfolding copy_words copy_tail
memcpy_nt m d s n =
    let count = n / 8 in copy_tail (n % 8) (copy_words count m d s) (d + 8 * count) (s + 8 * count)

unfoldable pub fb_flip : Fb → Memory → Memory
unfolding memcpy_nt
fb_flip fb m =
    if fb.back == 0 || fb.front == 0 then m else memcpy_nt m fb.front fb.back (buffer_bytes fb)

unfoldable pub fb_back_ptr : Fb → ℕ
fb_back_ptr fb = fb.back
