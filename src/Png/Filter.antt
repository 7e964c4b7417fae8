-- ===== src/Png/Filter.antt =====
-- The filters of rows as the picture format describes them, apart from the decoder.
use fexox_os.Base.{
  ℕ, zero, suc, ◌+◌, ◌-◌, ◌*◌, ◌/◌, ◌%◌, ◌≤◌, ◌<◌, ◌≡◌, ◌⊎◌, refl, sym, ap, true, false, some,
  arith, leb, ltb, ◌&&◌, Bool-cases, inl, inr,
}
use fexox_os.Png.{away, paeth, predict, left_of}

-- `d` is how far `t` lies from a + b - c.
pub record IsDistance (a b c t d : ℕ) : Type 0 where
  pub sides : (a + b ≡ c + t + d) ⊎ (c + t ≡ a + b + d)

-- Of the bytes to the left, above, and above to the left, `p` is the first that lies nearest to
-- a + b - c.
pub data IsNearest (a b c : ℕ) : (p : ℕ) → Type 0 where
  left :
      (da db dc : ℕ)
      → IsDistance a b c a da
      → IsDistance a b c b db
      → IsDistance a b c c dc
      → da ≤ db
      → da ≤ dc
      → IsNearest a b c a
  above :
      (da db dc : ℕ)
      → IsDistance a b c a da
      → IsDistance a b c b db
      → IsDistance a b c c dc
      → db < da
      → db ≤ dc
      → IsNearest a b c b
  above_left :
      (da db dc : ℕ)
      → IsDistance a b c a da
      → IsDistance a b c b db
      → IsDistance a b c c dc
      → dc < da
      → dc < db
      → IsNearest a b c c

-- what the filter of each number takes from a byte
pub data Predicts (a b c : ℕ) : (filter p : ℕ) → Type 0 where
  none_type : Predicts a b c 0 0
  sub_type : Predicts a b c 1 a
  up_type : Predicts a b c 2 b
  average_type : (p : ℕ) → 2 * p ≤ a + b → a + b ≤ 2 * p + 1 → Predicts a b c 3 p
  paeth_type : (p : ℕ) → IsNearest a b c p → Predicts a b c 4 p

away-IsDistance : (a b c t : ℕ) → IsDistance a b c t (away a b c t)
away-IsDistance a b c t = elim (Bool-cases (ltb (c + t) (a + b))) [
  | inl e ↦ record { sides = inl (ground (arith, e)) }
  | inr e ↦ record { sides = inr (ground (arith, e)) }
]

paeth-IsNearest : (a b c : ℕ) → IsNearest a b c (paeth a b c)
unfolding paeth
paeth-IsNearest a b c = elim (Bool-cases (leb pa pb && leb pa pc)) [
  | inl e ↦ rw e (left pa pb pc at_a at_b at_c (ground (arith, e)) (ground (arith, e)))
  | inr e ↦ elim (Bool-cases (leb pb pc)) [
    | inl f ↦ rw (e, f) (above pa pb pc at_a at_b at_c (ground (arith, e, f)) (ground (arith, f)))
    | inr f ↦
        rw (e, f) (above_left pa pb pc at_a at_b at_c (ground (arith, e, f)) (ground (arith, f)))
  ]
]
  where
    pa : ℕ
    pa = away a b c a

    pb : ℕ
    pb = away a b c b

    pc : ℕ
    pc = away a b c c

    at_a : IsDistance a b c a pa
    at_a = away-IsDistance a b c a

    at_b : IsDistance a b c b pb
    at_b = away-IsDistance a b c b

    at_c : IsDistance a b c c pc
    at_c = away-IsDistance a b c c

one_distance : (a b c t d : ℕ) → IsDistance a b c t d → d ≡ away a b c t
one_distance a b c t d x = let y = away-IsDistance a b c t in omega (arith, x.sides, y.sides)

both : (x y z : ℕ) → x ≤ y → x ≤ z → (leb x y && leb x z) ≡ true
both x y z h k = ground (arith, h, k)

not_first : (x y z : ℕ) → (y < x) ⊎ (z < x) → (leb x y && leb x z) ≡ false
not_first x y z h = ground (arith, h)

second_le : (x y : ℕ) → x ≤ y → leb x y ≡ true
second_le x y h = ground (arith, h)

second_gt : (x y : ℕ) → y < x → leb x y ≡ false
second_gt x y h = ground (arith, h)

IsNearest-paeth : (a b c p : ℕ) → IsNearest a b c p → paeth a b c ≡ p
unfolding paeth
IsNearest-paeth a b c _ (left da db dc ha hb hc u v) =
    let ea = one_distance a b c a da ha in
    let eb = one_distance a b c b db hb in
    let ec = one_distance a b c c dc hc in
    let first : (leb (away a b c a) (away a b c b) && leb (away a b c a) (away a b c c)) ≡ true =
      rw (sym ea, sym eb, sym ec) (both da db dc u v) in
    rw first refl
IsNearest-paeth a b c _ (above da db dc ha hb hc u v) =
    let ea = one_distance a b c a da ha in
    let eb = one_distance a b c b db hb in
    let ec = one_distance a b c c dc hc in
    let first : (leb (away a b c a) (away a b c b) && leb (away a b c a) (away a b c c)) ≡ false =
      rw (sym ea, sym eb, sym ec) (not_first da db dc (inl u)) in
    let second : leb (away a b c b) (away a b c c) ≡ true =
      rw (sym eb, sym ec) (second_le db dc v) in
    rw (first, second) refl
IsNearest-paeth a b c _ (above_left da db dc ha hb hc u v) =
    let ea = one_distance a b c a da ha in
    let eb = one_distance a b c b db hb in
    let ec = one_distance a b c c dc hc in
    let first : (leb (away a b c a) (away a b c b) && leb (away a b c a) (away a b c c)) ≡ false =
      rw (sym ea, sym eb, sym ec) (not_first da db dc (inr u)) in
    let second : leb (away a b c b) (away a b c c) ≡ false =
      rw (sym eb, sym ec) (second_gt db dc v) in
    rw (first, second) refl

-- For each of the five filters the decoder adds what the format takes away.
pub predict-Predicts :
    (filter a b c : ℕ)
    → filter ≤ 4
    → (p : ℕ) × (predict filter a b c ≡ some p) × Predicts a b c filter p
unfolding predict
predict-Predicts zero a b c h = (_, refl, none_type)
predict-Predicts (suc zero) a b c h = (_, refl, sub_type)
predict-Predicts (suc (suc zero)) a b c h = (_, refl, up_type)
predict-Predicts (suc (suc (suc zero))) a b c h =
    (_, refl, average_type ((a + b) / 2) (omega arith) (omega arith))
predict-Predicts (suc (suc (suc (suc zero)))) a b c h =
    (_, refl, paeth_type (paeth a b c) (paeth-IsNearest a b c))
predict-Predicts (suc (suc (suc (suc (suc f))))) a b c h = absurd (omega arith)

-- What the format takes away is what the decoder adds.
pub Predicts-predict :
    (filter a b c p : ℕ) → Predicts a b c filter p → predict filter a b c ≡ some p
unfolding predict
Predicts-predict _ a b c _ none_type = refl
Predicts-predict _ a b c _ sub_type = refl
Predicts-predict _ a b c _ up_type = refl
Predicts-predict _ a b c _ (average_type p lo hi) =
    let half : (a + b) / 2 ≡ p = omega (arith, lo, hi) in ap some half
Predicts-predict _ a b c _ (paeth_type p x) = ap some (IsNearest-paeth a b c p x)

-- `a` is the byte `bpp` places before `x` in the row, or 0 if there is none.
abbrev pub IsLeft : (row : ℕ → ℕ) → (bpp x a : ℕ) → Type 0
IsLeft row bpp x a = ((x < bpp) × (a ≡ 0)) ⊎ ((y : ℕ) × (y + bpp ≡ x) × (a ≡ row y))

pub left_of-IsLeft : (row : ℕ → ℕ) (bpp x : ℕ) → IsLeft row bpp x (left_of row bpp x)
left_of-IsLeft row bpp x = elim (Bool-cases (leb bpp x)) [
  | inl e ↦ rw e (inr (x - bpp, ground (arith, e), refl))
  | inr e ↦ rw e (inl (ground (arith, e), refl))
]

pub IsLeft-left_of : (row : ℕ → ℕ) (bpp x a : ℕ) → IsLeft row bpp x a → left_of row bpp x ≡ a
IsLeft-left_of row bpp x a (inl (less, z)) =
    let e : leb bpp x ≡ false = ground (arith, less) in rw e (sym z)
IsLeft-left_of row bpp x a (inr (y, at_y, same)) =
    let e : leb bpp x ≡ true = ground (arith, at_y) in
    let there : x - bpp ≡ y = omega (arith, at_y) in rw (e, there) (sym same)

-- `byte` is what the filter makes of the byte of `line` at `x`.
pub record IsCoded (line prev_line : ℕ → ℕ) (bpp filter x byte : ℕ) : Type 0 where
  pub left : ℕ
  pub corner : ℕ
  pub prediction : ℕ
  pub at_left : IsLeft line bpp x left
  pub at_corner : IsLeft prev_line bpp x corner
  pub predicted : Predicts left (prev_line x) corner filter prediction
  pub difference : byte ≡ (line x + 256 - prediction % 256) % 256
