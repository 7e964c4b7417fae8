-- ===== src/Mouse.antt =====
-- PS2Mouse.c: the interrupt handler that puts the packets of three bytes together.
pub mod Bounds
mod Tests
use fexox_os.Base.{
  ℕ, zero, suc, ◌+◌, ◌-◌, ◌/◌, ◌%◌, Bool, true, false, ◌&&◌, not, List, [], ◌∷◌, ltb, ◌==◌,
  if◌then◌else◌, update,
}
use fexox_os.Base.Int.{ℤ, pos, negsuc, ◌+ℤ◌, ◌-ℤ◌, ltb_ℤ}

-- the static variables; g_bounds_known is never read
pub record Mouse : Type 0 where
  pub packet : ℕ → ℕ
  pub packet_idx : ℕ
  pub buttons : ℕ
  pub pos_x : ℤ
  pub pos_y : ℤ

-- fb_get_mode, fb_width and fb_height; the sizes are below 2 ^ 31
pub record Screen : Type 0 where
  pub linear : Bool
  pub width : ℕ
  pub height : ℕ

-- `flags & (1 << k)` with 2 ^ k given
abbrev pub has_bit : (flags power : ℕ) → Bool
has_bit flags power = flags / power % 2 == 1

-- one axis of the movement: the byte with its sign bit, 0 on overflow
abbrev pub delta : (flags byte sign : ℕ) → ℤ
delta flags byte sign =
    let d = if has_bit flags sign then pos byte -ℤ pos 256 else pos byte in
    if has_bit flags 64 then pos 0 else if has_bit flags 128 then pos 0 else d

-- The size minus 1, or 0: `-` stops at 0 as the test `max_x < 0` does.
abbrev pub max_of : (size : ℕ) → ℕ
max_of size = size - 1

abbrev pub clamp : ℤ → (max : ℕ) → ℤ
clamp p max =
    let low = if ltb_ℤ p (pos 0) then pos 0 else p in if ltb_ℤ (pos max) low then pos max else low

-- what the handler does with a whole packet
unfoldable pub apply_packet : Screen → Mouse → Mouse
apply_packet screen m =
    let flags = m.packet 0 in
    let dx = delta flags (m.packet 1) 16 in
    let dy = delta flags (m.packet 2) 32 in
    let pressed = record m { buttons = flags % 8 } in
    if screen.linear
    then record pressed {
      pos_x = clamp (m.pos_x +ℤ dx) (max_of screen.width);
      pos_y = clamp (m.pos_y -ℤ dy) (max_of screen.height);
    }
    else pressed

-- The handler, for the byte that it reads from the data port. A first byte without bit 3 is dropped.
unfoldable pub ps2_mouse_isr : Screen → Mouse → (byte : ℕ) → Mouse
unfolding apply_packet
ps2_mouse_isr screen m byte =
    let taken = record m {
      packet = update m.packet m.packet_idx byte;
      packet_idx = m.packet_idx + 1;
    } in
    if m.packet_idx == 0 && not (has_bit byte 8)
    then m
    else if ltb taken.packet_idx 3
    then taken
    else apply_packet screen (record taken { packet_idx = 0 })

unfoldable pub interrupts : Screen → Mouse → List ℕ → Mouse
unfolding ps2_mouse_isr
interrupts screen m [] = m
interrupts screen m (byte ∷ bytes) = interrupts screen (ps2_mouse_isr screen m byte) bytes
