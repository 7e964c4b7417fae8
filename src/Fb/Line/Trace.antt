-- ===== src/Fb/Line/Trace.antt =====
-- Framebuffer.c, fb_line: its loop ends and leaves an unbroken line.
use fexox_os.Base.{
  ℕ, zero, suc, ◌+◌, ◌*◌, ◌^◌, ◌≤◌, ◌<◌, ◌≡◌, ◌∙◌, subst, inl, inr, refl, Bool, true, false, ◌&&◌,
  Option, some, arith, ◌==◌, if◌then◌else◌, add32, sub32, u32_mod, Bool-cases,
}
use fexox_os.Klibc.{Memory}
use fexox_os.Fb.{Fb}
use fexox_os.Fb.Canvas.{fb_put_pixel}
use fexox_os.Fb.Line.{
  distance, direction, goes_across, goes_down, line_loop, fb_line, Drawn, last, across, down,
  diagonal,
}
use fexox_os.Fb.Line.Error.{
  Toward-direction, On, end_iff, across_left, down_left, one_moves, On-diagonal, On-across, On-down,
}

module _ (fb : Fb) (c a b sx sy x1 y1 : ℕ) where
  abbrev loop : (fuel : ℕ) → Memory → (err x y : ℕ) → Option Memory
  loop = line_loop fb c a (sub32 0 b) sx sy x1 y1

  loop_end :
      (k : ℕ) (m : Memory) (err x y : ℕ)
      → (x == x1 && y == y1) ≡ true
      → loop (suc k) m err x y ≡ some (fb_put_pixel fb m x y c)
  unfolding line_loop
  loop_end k m err x y e = rw (e, line_loop) refl

  loop_step :
      (k : ℕ) (m : Memory) (err x y : ℕ) (t u : Bool)
      → (x == x1 && y == y1) ≡ false
      → goes_across err (sub32 0 b) ≡ t
      → goes_down err a ≡ u
      → loop (suc k) m err x y
        ≡ loop k
            (fb_put_pixel fb m x y c)
            (if u
              then add32 (if t then add32 err (sub32 0 b) else err) a
              else if t
              then add32 err (sub32 0 b)
              else err)
            (if t then add32 x sx else x)
            (if u then add32 y sy else y)
  unfolding line_loop
  loop_step k m err x y t u e p q = rw (e, p, q, line_loop) refl

  -- how the loop ends
  abbrev Ends : (k : ℕ) → Memory → (err x y rx ry : ℕ) → Type 0
  Ends k m err x y rx ry =
      (n : ℕ) × (m' : Memory) × (n ≤ rx + ry + 1)
      × (loop k m err x y ≡ some m')
      × Drawn fb c sx sy x1 y1 n x y m m'

  -- one round and the rest of the line
  further :
      (k err err' rx ry rx' ry' : ℕ) {x y x' y' : ℕ} {m : Memory}
      → loop (suc k) m err x y ≡ loop k (fb_put_pixel fb m x y c) err' x' y'
      → ((n : ℕ) (m' : Memory)
          → Drawn fb c sx sy x1 y1 n x' y' (fb_put_pixel fb m x y c) m'
          → Drawn fb c sx sy x1 y1 (suc n) x y m m')
      → rx' + ry' < rx + ry
      → Ends k (fb_put_pixel fb m x y c) err' x' y' rx' ry'
      → Ends (suc k) m err x y rx ry
  further k err err' rx ry rx' ry' e longer h (n, m', short, done, drawn) =
      (suc n, m', omega arith, e ∙ done, longer n m' drawn)

  line_loop-Drawn :
      (k : ℕ) (m : Memory) (err x y rx ry : ℕ)
      → rx + ry < k
      → On a b sx sy x1 y1 err x y rx ry
      → Ends k m err x y rx ry
  line_loop-Drawn zero m err x y rx ry h o = absurd (omega arith)
  line_loop-Drawn (suc k) m err x y zero zero h o =
      let ended = end_iff a b sx sy x1 y1 err x y 0 0 o in
      let ex : x1 ≡ x = ground arith in
      let ey : y1 ≡ y = ground arith in
      let drawn : Drawn fb c sx sy x1 y1 1 x y m (fb_put_pixel fb m x y c) =
        subst (λ x. Drawn fb c sx sy x1 y1 1 x y m (fb_put_pixel fb m x y c)) ex
          (subst (λ y. Drawn fb c sx sy x1 y1 1 x1 y m (fb_put_pixel fb m x1 y c)) ey last) in
      (1, fb_put_pixel fb m x y c, omega arith, loop_end k m err x y ended, drawn)
  line_loop-Drawn (suc k) m err x y zero (suc ry) h o =
      let ended = end_iff a b sx sy x1 y1 err x y 0 (suc ry) o in
      let e : (x == x1 && y == y1) ≡ false = ground arith in
      elim (Bool-cases (goes_across err (sub32 0 b))) [
        | inl t ↦ absurd (across_left a b sx sy x1 y1 err x y (suc ry) o (omega arith) t)
        | inr t ↦ elim (Bool-cases (goes_down err a)) [
          | inl u ↦
              further k err (add32 err a) 0 (suc ry) 0 ry (loop_step k m err x y false true e t u)
                (λ _ _ d. down d) (omega arith)
                (line_loop-Drawn k (fb_put_pixel fb m x y c) (add32 err a) x (add32 y sy) 0 ry
                  (omega arith) (On-down a b sx sy x1 y1 err x y 0 ry o t u))
          | inr u ↦ absurd (one_moves a b sx sy x1 y1 err x y 0 (suc ry) o t u)
        ]
      ]
  line_loop-Drawn (suc k) m err x y (suc rx) zero h o =
      let ended = end_iff a b sx sy x1 y1 err x y (suc rx) 0 o in
      let e : (x == x1 && y == y1) ≡ false = ground arith in
      elim (Bool-cases (goes_down err a)) [
        | inl u ↦ absurd (down_left a b sx sy x1 y1 err x y (suc rx) o (omega arith) u)
        | inr u ↦ elim (Bool-cases (goes_across err (sub32 0 b))) [
          | inl t ↦
              further k err (add32 err (sub32 0 b)) (suc rx) 0 rx 0
                (loop_step k m err x y true false e t u) (λ _ _ d. across d) (omega arith)
                (line_loop-Drawn k (fb_put_pixel fb m x y c) (add32 err (sub32 0 b)) (add32 x sx) y
                  rx 0 (omega arith) (On-across a b sx sy x1 y1 err x y rx 0 o t u))
          | inr t ↦ absurd (one_moves a b sx sy x1 y1 err x y (suc rx) 0 o t u)
        ]
      ]
  line_loop-Drawn (suc k) m err x y (suc rx) (suc ry) h o =
      let ended = end_iff a b sx sy x1 y1 err x y (suc rx) (suc ry) o in
      let e : (x == x1 && y == y1) ≡ false = ground arith in
      let m1 = fb_put_pixel fb m x y c in
      elim (Bool-cases (goes_across err (sub32 0 b))) [
        | inl t ↦ elim (Bool-cases (goes_down err a)) [
          | inl u ↦
              further k err (add32 (add32 err (sub32 0 b)) a) (suc rx) (suc ry) rx ry
                (loop_step k m err x y true true e t u) (λ _ _ d. diagonal d) (omega arith)
                (line_loop-Drawn k m1 _ _ _ rx ry (omega arith)
                  (On-diagonal a b sx sy x1 y1 err x y rx ry o t u))
          | inr u ↦
              further k err (add32 err (sub32 0 b)) (suc rx) (suc ry) rx (suc ry)
                (loop_step k m err x y true false e t u) (λ _ _ d. across d) (omega arith)
                (line_loop-Drawn k m1 _ _ _ rx (suc ry) (omega arith)
                  (On-across a b sx sy x1 y1 err x y rx (suc ry) o t u))
        ]
        | inr t ↦ elim (Bool-cases (goes_down err a)) [
          | inl u ↦
              further k err (add32 err a) (suc rx) (suc ry) (suc rx) ry
                (loop_step k m err x y false true e t u) (λ _ _ d. down d) (omega arith)
                (line_loop-Drawn k m1 _ _ _ (suc rx) ry (omega arith)
                  (On-down a b sx sy x1 y1 err x y (suc rx) ry o t u))
          | inr u ↦ absurd (one_moves a b sx sy x1 y1 err x y (suc rx) (suc ry) o t u)
        ]
      ]

-- fb_line between two places at most 2 ^ 29 - 1 apart in each direction ends, within as many rounds
-- as the two distances together and one, and has then drawn an unbroken line: it begins at the
-- first place, each pixel is one step to the right direction across, down or both from the one
-- before, and it ends at the second place.
pub fb_line-Drawn :
    (fb : Fb) (m : Memory) (x0 y0 x1 y1 c fuel : ℕ)
    → (x0 < u32_mod) × (y0 < u32_mod) × (x1 < u32_mod) × (y1 < u32_mod)
    → distance x0 x1 < 2 ^ 29
    → distance y0 y1 < 2 ^ 29
    → distance x0 x1 + distance y0 y1 < fuel
    → (n : ℕ) × (m' : Memory) × (n ≤ distance x0 x1 + distance y0 y1 + 1)
      × (fb_line fuel fb m x0 y0 x1 y1 c ≡ some m')
      × Drawn fb c (direction x0 x1) (direction y0 y1) x1 y1 n x0 y0 m m'
unfolding fb_line
fb_line-Drawn fb m x0 y0 x1 y1 c fuel (p, q, r, s) wide high enough =
    let a = distance x0 x1 in
    let b = distance y0 y1 in
    let whole : (a + a * b) + b ≡ (b + b * a) + a = grind arith in
    line_loop-Drawn fb c a b (direction x0 x1) (direction y0 y1) x1 y1 fuel m (add32 a (sub32 0 b))
      x0 y0 a b enough
      (record {
        near = (wide, high, omega arith, omega arith);
        right = Toward-direction x0 x1 p r wide;
        bottom = Toward-direction y0 y1 q s high;
        signed = ground arith;
        above = grind arith;
        below = grind arith;
      })
