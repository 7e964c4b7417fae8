-- ===== src/Fb/Line.antt =====
-- Framebuffer.c, fb_line, and what an unbroken line is.
pub mod Error
pub mod Trace
use fexox_os.Base.{
  ℕ, zero, suc, ◌+◌, ◌-◌, ◌*◌, ◌%◌, ◌^◌, ◌≤◌, ◌<◌, ◌≡◌, ◌∙◌, subst, ◌⊎◌, inl, inr, refl, Bool, true,
  false, ◌&&◌, ◌||◌, not, Option, none, some, arith, ltb, leb, ◌==◌, if◌then◌else◌, add32, sub32,
  u32_mod, Bool-cases,
}
use fexox_os.Klibc.{Memory}
use fexox_os.Fb.{Fb}
use fexox_os.Fb.Canvas.{fb_put_pixel}

-- `a < b` of int32_t
abbrev pub slt : (a b : ℕ) → Bool
slt a b = ltb ((a + 2 ^ 31) % u32_mod) ((b + 2 ^ 31) % u32_mod)

abbrev pub minus_one : ℕ
minus_one = u32_mod - 1

-- `(b > a) ? (b - a) : (a - b)`
abbrev pub distance : (a b : ℕ) → ℕ
distance a b = if slt a b then sub32 b a else sub32 a b

-- `(a < b) ? 1 : -1`
abbrev pub direction : (a b : ℕ) → ℕ
direction a b = if slt a b then 1 else minus_one

-- `e2 >= dy` and `e2 <= dx`
abbrev pub goes_across : (err dy : ℕ) → Bool
goes_across err dy = not (slt (err * 2 % u32_mod) dy)

abbrev pub goes_down : (err dx : ℕ) → Bool
goes_down err dx = not (slt dx (err * 2 % u32_mod))

module _ (fb : Fb) (c dx dy sx sy x1 y1 : ℕ) where
  -- the `while` of fb_line
  unfoldable pub line_loop : (fuel : ℕ) → Memory → (err x y : ℕ) → Option Memory
  line_loop zero m err x y = none
  line_loop (suc k) m err x y =
      let m1 = fb_put_pixel fb m x y c in
      elim (x == x1 && y == y1) [
        | true ↦ some m1
        | false ↦
            let across = goes_across err dy in
            let down = goes_down err dx in
            let err1 = if across then add32 err dy else err in
            line_loop k m1 (if down then add32 err1 dx else err1) (if across then add32 x sx else x)
              (if down then add32 y sy else y)
      ]

-- `none` is the model's fuel running out.
unfoldable pub fb_line : (fuel : ℕ) → Fb → Memory → (x0 y0 x1 y1 color : ℕ) → Option Memory
fb_line fuel fb m x0 y0 x1 y1 c =
    let dx = distance x0 x1 in
    let dy = sub32 0 (distance y0 y1) in
    line_loop fb c dx dy (direction x0 x1) (direction y0 y1) x1 y1 fuel m (add32 dx dy) x0 y0

-- An unbroken line of `n` pixels to (x1, y1), each put with the colour: every pixel is one step of
-- sx across, of sy down, or of both, from the one before it.
module _ (fb : Fb) (c sx sy x1 y1 : ℕ) where
  pub data Drawn : (n x y : ℕ) → Memory → Memory → Type 0 where
    last : {m : Memory} → Drawn 1 x1 y1 m (fb_put_pixel fb m x1 y1 c)
    across :
        {n x y : ℕ} {m m' : Memory}
        → Drawn n (add32 x sx) y (fb_put_pixel fb m x y c) m'
        → Drawn (suc n) x y m m'
    down :
        {n x y : ℕ} {m m' : Memory}
        → Drawn n x (add32 y sy) (fb_put_pixel fb m x y c) m'
        → Drawn (suc n) x y m m'
    diagonal :
        {n x y : ℕ} {m m' : Memory}
        → Drawn n (add32 x sx) (add32 y sy) (fb_put_pixel fb m x y c) m'
        → Drawn (suc n) x y m m'
