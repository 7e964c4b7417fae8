-- ===== src/Png/Rows.antt =====
-- png.c, the filters of rows: the decoder undoes what the format's filters do.
use fexox_os.Base.{
  ℕ, zero, suc, ◌+◌, ◌-◌, ◌%◌, ◌≤◌, ◌<◌, ◌≡◌, refl, ◌∙◌, ap, some, arith, leb, update, Bool-cases,
  inl, inr,
}
use fexox_os.Png.{predict, left_of, row_loop}
use fexox_os.Png.Filter.{
  IsCoded, IsLeft-left_of, left_of-IsLeft, Predicts-predict, predict-Predicts,
}
use native.Mathlib.Decide.{ℕ_discrete}

row_step :
    (n : ℕ) (filt prev_line cur : ℕ → ℕ) (bpp filter x p : ℕ)
    → predict filter (left_of cur bpp x) (prev_line x) (left_of prev_line bpp x) ≡ some p
    → row_loop (suc n) filt prev_line bpp filter cur x
      ≡ row_loop n filt prev_line bpp filter (update cur x ((filt x + p) % 256)) (x + 1)
unfolding row_loop
row_step n filt prev_line cur bpp filter x p e = rw (e, row_loop) refl

undone : (x p : ℕ) → x < 256 → ((x + 256 - p % 256) % 256 + p) % 256 ≡ x
undone x p h = omega (arith, h)

-- every line has a coded row, by each of the five filters
pub IsCoded-row :
    (line prev_line : ℕ → ℕ) (bpp filter x : ℕ)
    → filter ≤ 4
    → (byte : ℕ) × IsCoded line prev_line bpp filter x byte
IsCoded-row line prev_line bpp filter x known =
    let (p, _, predicted) =
      predict-Predicts filter (left_of line bpp x) (prev_line x) (left_of prev_line bpp x) known in
    (
      (line x + 256 - p % 256) % 256,
      record {
        left = left_of line bpp x;
        corner = left_of prev_line bpp x;
        prediction = p;
        at_left = left_of-IsLeft line bpp x;
        at_corner = left_of-IsLeft prev_line bpp x;
        predicted = predicted;
        difference = refl;
      },
    )

module _ (line prev_line filt : ℕ → ℕ) (bpp filter : ℕ) (bytes : (i : ℕ) → line i < 256)
    (some_bpp : 1 ≤ bpp) where
  same_left :
      (cur : ℕ → ℕ) (x : ℕ)
      → ((i : ℕ) → i < x → cur i ≡ line i)
      → left_of cur bpp x ≡ left_of line bpp x
  same_left cur x same = elim (Bool-cases (leb bpp x)) [
    | inr e ↦ rw e refl
    | inl e ↦ rw e (same (x - bpp) (ground (arith, e, some_bpp)))
  ]

  -- the prediction of the decoder, which has the line up to `x`
  predicted_here :
      (cur : ℕ → ℕ) (x : ℕ)
      → ((i : ℕ) → i < x → cur i ≡ line i)
      → (k : IsCoded line prev_line bpp filter x (filt x))
      → predict filter (left_of cur bpp x) (prev_line x) (left_of prev_line bpp x)
        ≡ some k.prediction
  predicted_here cur x same k =
      let left = same_left cur x same ∙ IsLeft-left_of line bpp x k.left k.at_left in
      let corner = IsLeft-left_of prev_line bpp x k.corner k.at_corner in
      rw (left, corner)
        (Predicts-predict filter k.left (prev_line x) k.corner k.prediction k.predicted)

  row_loop_from :
      (n : ℕ) (cur : ℕ → ℕ) (x : ℕ)
      → ((i : ℕ) → i < x → cur i ≡ line i)
      → ((i : ℕ) → x ≤ i → i < x + n → IsCoded line prev_line bpp filter i (filt i))
      → (out : ℕ → ℕ) × (row_loop n filt prev_line bpp filter cur x ≡ some out)
        × ((i : ℕ) → i < x + n → out i ≡ line i)
  unfolding row_loop
  row_loop_from zero cur x same coded = (cur, refl, λ i h. same i (omega arith))
  row_loop_from (suc n) cur x same coded =
      let k = coded x (omega arith) (omega arith) in
      let p = k.prediction in
      let byte : (filt x + p) % 256 ≡ line x =
        ap (λ y. (y + p) % 256) k.difference ∙ undone (line x) p (bytes x) in
      let step = row_step n filt prev_line cur bpp filter x p (predicted_here cur x same k) in
      let (out, ends, all) =
        row_loop_from n (update cur x ((filt x + p) % 256)) (x + 1)
          (λ i h. elim (ℕ_discrete i x) [
            | yes s ↦ ground (arith, s, byte)
            | no ne ↦ ground (arith, ne, same i (omega arith))
          ])
          (λ i lo hi. coded i (omega arith) (omega arith)) in
      (out, step ∙ ends, λ i h. all i (omega arith))

-- If each byte of a row is what the format's filter makes of the byte of a line at its place, then
-- the decoder's loop over the row gives the line back, without an error, whatever the row above it
-- and for any number of bytes from one on to a pixel. The filter takes away nothing, the byte to the
-- left, the byte above, the half of their sum, rounded down, or the first of left, above, and above to
-- the left that lies nearest to left + above - above to the left; bytes outside count as 0.
pub row_loop-IsCoded :
    (line prev_line filt cur_line : ℕ → ℕ) (n filt_bpp filter : ℕ)
    → ((i : ℕ) → line i < 256)
    → 1 ≤ filt_bpp
    → ((i : ℕ) → i < n → IsCoded line prev_line filt_bpp filter i (filt i))
    → (out : ℕ → ℕ) × (row_loop n filt prev_line filt_bpp filter cur_line 0 ≡ some out)
      × ((i : ℕ) → i < n → out i ≡ line i)
row_loop-IsCoded line prev_line filt cur_line n bpp filter bytes some_bpp coded =
    let (out, ends, all) =
      row_loop_from line prev_line filt bpp filter bytes some_bpp n cur_line 0
        (λ i h. absurd (omega arith)) (λ i lo hi. coded i (omega (arith, hi))) in
    (out, ends, λ i h. all i (omega arith))
