-- ===== src/Fb/Line/Error.antt =====
-- Framebuffer.c, fb_line: the error term of its loop, and what holds at the top of each round.
use fexox_os.Base.{
  ℕ, suc, ◌+◌, ◌*◌, ◌^◌, ◌≤◌, ◌<◌, ◌≡◌, ◌⊎◌, true, false, ◌&&◌, arith, leb, ◌==◌, add32, sub32,
  u32_mod,
}
use fexox_os.Fb.Line.{minus_one, distance, direction, goes_across, goes_down}

-- The int32_t `e` is p - n.
abbrev pub Signed : (e p n : ℕ) → Type 0
Signed e p n = ((e < 2 ^ 31) × (p ≡ n + e)) ⊎ ((2 ^ 31 ≤ e) × (e < u32_mod) × (p + u32_mod ≡ n + e))

-- `r` steps of s lead from `x` to `x1`.
abbrev pub Toward : (s x x1 r : ℕ) → Type 0
Toward s x x1 r =
    (x < u32_mod)
    × (x1 < u32_mod)
    × (((s ≡ 1) × (x1 ≡ add32 x r)) ⊎ ((s ≡ minus_one) × (x ≡ add32 x1 r)))

pub Toward-direction :
    (a b : ℕ)
    → a < u32_mod
    → b < u32_mod
    → distance a b < 2 ^ 29
    → Toward (direction a b) a b (distance a b)
Toward-direction a b p q h = (p, q, ground arith)

Toward-step : (s x x1 r : ℕ) → suc r < 2 ^ 29 → Toward s x x1 (suc r) → Toward s (add32 x s) x1 r
Toward-step s x x1 r h t = ground arith

Toward-equal : (s x x1 r : ℕ) → r < 2 ^ 29 → Toward s x x1 r → (x == x1) ≡ (r == 0)
Toward-equal s x x1 r h t = ground arith

-- the two tests, and the new errors
module _ (e p n a b : ℕ) (signed : Signed e p n) (above : 2 * n ≤ 2 * p + 3 * b)
    (below : 2 * p ≤ 2 * n + 3 * a) (ha : a < 2 ^ 29) (hb : b < 2 ^ 29) where
  across_iff : goes_across e (sub32 0 b) ≡ leb (2 * n) (2 * p + b)
  across_iff = ground arith

  down_iff : goes_down e a ≡ leb (2 * p) (2 * n + a)
  down_iff = ground arith

-- What holds at the top of the loop, `rx` steps across and `ry` steps down from the end, where the
-- error is (a + rx * b) - (b + ry * a).
module _ (a b sx sy x1 y1 : ℕ) where
  pub record On (err x y rx ry : ℕ) : Type 0 where
    pub near : (a < 2 ^ 29) × (b < 2 ^ 29) × (rx ≤ a) × (ry ≤ b)
    pub right : Toward sx x x1 rx
    pub bottom : Toward sy y y1 ry
    pub signed : Signed err (a + rx * b) (b + ry * a)
    pub above : 2 * (b + ry * a) ≤ 2 * (a + rx * b) + 3 * b
    pub below : 2 * (a + rx * b) ≤ 2 * (b + ry * a) + 3 * a

  pub end_iff : (err x y rx ry : ℕ) → On err x y rx ry → (x == x1 && y == y1) ≡ (rx == 0 && ry == 0)
  end_iff err x y rx ry o = ground (
    arith,
    o.near,
    Toward-equal sx x x1 rx (omega (arith, o.near)) o.right,
    Toward-equal sy y y1 ry (omega (arith, o.near)) o.bottom,
  )

  -- a test that holds leaves a step to take
  pub across_left :
      (err x y ry : ℕ) → On err x y 0 ry → 0 < ry → goes_across err (sub32 0 b) ≡ true → ⊥
  across_left err x y ry o h t =
      let far : a ≤ ry * a = grind arith in
      let test =
        across_iff err (a + 0 * b) (b + ry * a) a b o.signed o.above o.below o.near.0 o.near.1 in
      ground (arith, o.near)

  pub down_left : (err x y rx : ℕ) → On err x y rx 0 → 0 < rx → goes_down err a ≡ true → ⊥
  down_left err x y rx o h t =
      let far : b ≤ rx * b = grind arith in
      let test =
        down_iff err (a + rx * b) (b + 0 * a) a b o.signed o.above o.below o.near.0 o.near.1 in
      ground (arith, o.near)

  pub one_moves :
      (err x y rx ry : ℕ)
      → On err x y rx ry
      → goes_across err (sub32 0 b) ≡ false
      → goes_down err a ≡ false
      → ⊥
  one_moves err x y rx ry o t u =
      let s =
        across_iff err (a + rx * b) (b + ry * a) a b o.signed o.above o.below o.near.0 o.near.1 in
      let v =
        down_iff err (a + rx * b) (b + ry * a) a b o.signed o.above o.below o.near.0 o.near.1 in
      ground arith

  times_suc : (r d : ℕ) → suc r * d ≡ r * d + d
  times_suc r d = grind arith

  -- the three ways to move on
  pub On-diagonal :
      (err x y rx ry : ℕ)
      → On err x y (suc rx) (suc ry)
      → goes_across err (sub32 0 b) ≡ true
      → goes_down err a ≡ true
      → On (add32 (add32 err (sub32 0 b)) a) (add32 x sx) (add32 y sy) rx ry
  On-diagonal err x y rx ry o t u =
      let s =
        across_iff err (a + suc rx * b) (b + suc ry * a) a b o.signed o.above o.below o.near.0
          o.near.1 in
      let v =
        down_iff err (a + suc rx * b) (b + suc ry * a) a b o.signed o.above o.below o.near.0
          o.near.1 in
      let p = times_suc rx b in
      let q = times_suc ry a in
      record {
        near = omega (arith, o.near);
        right = Toward-step sx x x1 rx (omega (arith, o.near)) o.right;
        bottom = Toward-step sy y y1 ry (omega (arith, o.near)) o.bottom;
        signed = ground (arith, o.near, o.signed, o.above, o.below);
        above = ground arith;
        below = ground arith;
      }

  pub On-across :
      (err x y rx ry : ℕ)
      → On err x y (suc rx) ry
      → goes_across err (sub32 0 b) ≡ true
      → goes_down err a ≡ false
      → On (add32 err (sub32 0 b)) (add32 x sx) y rx ry
  On-across err x y rx ry o t u =
      let s =
        across_iff err (a + suc rx * b) (b + ry * a) a b o.signed o.above o.below o.near.0
          o.near.1 in
      let v =
        down_iff err (a + suc rx * b) (b + ry * a) a b o.signed o.above o.below o.near.0 o.near.1 in
      let p = times_suc rx b in
      record {
        near = omega (arith, o.near);
        right = Toward-step sx x x1 rx (omega (arith, o.near)) o.right;
        bottom = o.bottom;
        signed = ground (arith, o.near, o.signed, o.above, o.below);
        above = ground arith;
        below = ground (arith, o.below);
      }

  pub On-down :
      (err x y rx ry : ℕ)
      → On err x y rx (suc ry)
      → goes_across err (sub32 0 b) ≡ false
      → goes_down err a ≡ true
      → On (add32 err a) x (add32 y sy) rx ry
  On-down err x y rx ry o t u =
      let s =
        across_iff err (a + rx * b) (b + suc ry * a) a b o.signed o.above o.below o.near.0
          o.near.1 in
      let v =
        down_iff err (a + rx * b) (b + suc ry * a) a b o.signed o.above o.below o.near.0 o.near.1 in
      let q = times_suc ry a in
      record {
        near = omega (arith, o.near);
        right = o.right;
        bottom = Toward-step sy y y1 ry (omega (arith, o.near)) o.bottom;
        signed = ground (arith, o.near, o.signed, o.above, o.below);
        above = ground (arith, o.above);
        below = ground arith;
      }
