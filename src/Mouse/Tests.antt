-- ===== src/Mouse/Tests.antt =====
-- A run of the mouse, and the theorem at it.
use fexox_os.Base.{ℕ, ◌≡◌, refl, true, List, [], ◌∷◌, arith}
use fexox_os.Base.Int.{pos}
use fexox_os.Mouse.{Mouse, Screen, interrupts}
use fexox_os.Mouse.Bounds.{IsMouse, interrupts-IsMouse}

abbrev screen : Screen
screen = record { linear = true; width = 640; height = 480 }

-- the state at the start
abbrev centred : Mouse
centred = record { packet = λ i. 0; packet_idx = 0; buttons = 0; pos_x = pos 100; pos_y = pos 100 }

-- a stray byte, then a packet with the left button, 10 to the right and 4 up
abbrev bytes : List ℕ
bytes = 0 ∷ 9 ∷ 10 ∷ 4 ∷ []

moved_right : (interrupts screen centred bytes).pos_x ≡ pos 110
unfolding interrupts
moved_right = refl

moved_up : (interrupts screen centred bytes).pos_y ≡ pos 96
unfolding interrupts
moved_up = refl

centred-IsMouse : IsMouse screen centred
centred-IsMouse = record {
  in_step = omega arith;
  header = λ h. absurd (omega arith);
  few_buttons = omega arith;
  x_bounds = (omega arith, omega arith);
  y_bounds = (omega arith, omega arith);
}

interrupts-IsMouse_example : IsMouse screen (interrupts screen centred bytes)
interrupts-IsMouse_example = interrupts-IsMouse screen bytes centred centred-IsMouse
