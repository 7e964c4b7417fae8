-- ===== src/Png/Tests.antt =====
-- A row of three bytes, and the theorem on it.
use fexox_os.Base.{ℕ, ◌+◌, ◌%◌, ◌≡◌, ◌<◌, ◌≤◌, refl, some, arith}
use fexox_os.Png.{row_loop, paeth}
use fexox_os.Png.Rows.{IsCoded-row, row_loop-IsCoded}

nearest : paeth 10 20 13 ≡ 20
unfolding paeth
nearest = refl

abbrev pixels : ℕ → ℕ
pixels i = (i + 250) % 256

known : 4 ≤ 4
known = omega arith

-- the bytes less those that the fourth filter predicts
abbrev coded : ℕ → ℕ
coded i = (IsCoded-row pixels (λ j. 7) 1 4 i known).0

row_loop-IsCoded_example :
    (out : ℕ → ℕ) × (row_loop 3 coded (λ i. 7) 1 4 (λ i. 0) 0 ≡ some out)
    × ((i : ℕ) → i < 3 → out i ≡ pixels i)
row_loop-IsCoded_example =
    row_loop-IsCoded pixels (λ i. 7) coded (λ i. 0) 3 1 4 (λ i. omega arith) (omega arith)
      (λ i h. (IsCoded-row pixels (λ j. 7) 1 4 i known).1)
