-- ===== src/Mouse/Bounds.antt =====
-- PS2Mouse.c: the pointer stays on the screen, and the packets stay in step.
use fexox_os.Base.{
  ℕ, ◌+◌, ◌≤◌, ◌<◌, ◌≡◌, refl, true, ◌&&◌, not, List, [], ◌∷◌, arith, ltb, ◌==◌, update, Bool-cases,
  inl, inr,
}
use fexox_os.Base.Int.{ℤ, pos, negsuc, ◌+ℤ◌, ◌-ℤ◌, ◌≤ℤ◌}
use fexox_os.Mouse.{
  Mouse, Screen, has_bit, delta, max_of, clamp, apply_packet, ps2_mouse_isr, interrupts,
}

pub record IsMouse (screen : Screen) (m : Mouse) : Type 0 where
  pub in_step : m.packet_idx ≤ 2
  pub header : 0 < m.packet_idx → has_bit (m.packet 0) 8 ≡ true
  pub few_buttons : m.buttons ≤ 7
  pub x_bounds : (pos 0 ≤ℤ m.pos_x) × (m.pos_x ≤ℤ pos (max_of screen.width))
  pub y_bounds : (pos 0 ≤ℤ m.pos_y) × (m.pos_y ≤ℤ pos (max_of screen.height))

clamp_bounds : (p : ℤ) (max : ℕ) → (pos 0 ≤ℤ clamp p max) × (clamp p max ≤ℤ pos max)
clamp_bounds (pos n) max = ground arith
clamp_bounds (negsuc n) max = ground arith

apply_packet-IsMouse :
    (screen : Screen) (m : Mouse)
    → IsMouse screen m
    → m.packet_idx ≡ 0
    → IsMouse screen (apply_packet screen m)
unfolding apply_packet
apply_packet-IsMouse screen m v e = elim (Bool-cases screen.linear) [
  | inl on ↦ rw on (record {
    in_step = v.in_step;
    header = λ h. absurd (omega arith);
    few_buttons = omega arith;
    x_bounds = clamp_bounds (m.pos_x +ℤ delta (m.packet 0) (m.packet 1) 16) (max_of screen.width);
    y_bounds = clamp_bounds (m.pos_y -ℤ delta (m.packet 0) (m.packet 2) 32) (max_of screen.height);
  })
  | inr off ↦ rw off (record {
    in_step = v.in_step;
    header = λ h. absurd (omega arith);
    few_buttons = omega arith;
    x_bounds = v.x_bounds;
    y_bounds = v.y_bounds;
  })
]

isr-IsMouse :
    (screen : Screen) (m : Mouse) (byte : ℕ)
    → IsMouse screen m
    → IsMouse screen (ps2_mouse_isr screen m byte)
unfolding ps2_mouse_isr
isr-IsMouse screen m byte v = elim (Bool-cases (m.packet_idx == 0 && not (has_bit byte 8))) [
  | inl drop ↦ rw drop v
  | inr keep ↦
      let head : has_bit (update m.packet m.packet_idx byte 0) 8 ≡ true =
        ground (arith, v.header) in
      elim (Bool-cases (ltb (m.packet_idx + 1) 3)) [
        | inl more ↦
            rw (keep, more)
              (record {
                in_step = ground arith;
                header = λ h. head;
                few_buttons = v.few_buttons;
                x_bounds = v.x_bounds;
                y_bounds = v.y_bounds;
              })
        | inr last ↦
            let whole = record m { packet = update m.packet m.packet_idx byte; packet_idx = 0 } in
            rw (keep, last)
              (apply_packet-IsMouse screen whole
                (record {
                  in_step = omega arith;
                  header = λ h. head;
                  few_buttons = v.few_buttons;
                  x_bounds = v.x_bounds;
                  y_bounds = v.y_bounds;
                })
                refl)
      ]
]

-- Whatever bytes the mouse sends, from a state with the pointer on the screen (or in its first row
-- or column, if the screen has none) and a packet in step, every interrupt leaves such a state: the
-- pointer on the screen, at most two bytes waiting, the first of which has bit 3 set, and a value of
-- the buttons of three bits.
pub interrupts-IsMouse :
    (screen : Screen) (bytes : List ℕ) (m : Mouse)
    → IsMouse screen m
    → IsMouse screen (interrupts screen m bytes)
unfolding interrupts
interrupts-IsMouse screen [] m v = v
interrupts-IsMouse screen (byte ∷ bytes) m v =
    interrupts-IsMouse screen bytes (ps2_mouse_isr screen m byte) (isr-IsMouse screen m byte v)
