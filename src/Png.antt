-- ===== src/Png.antt =====
-- png.c, the picture decoder: the bit stream of DEFLATE, and the filters of rows.
pub mod Filter
pub mod Rows
mod Tests
use fexox_os.Base.{
  ℕ, zero, suc, ◌+◌, ◌*◌, ◌-◌, ◌/◌, ◌%◌, ◌^◌, Bool, true, false, ◌&&◌, Option, none, some, ltb, leb,
  ◌==◌, if◌then◌else◌, update, u32_mod,
}

-- `bitstream_t`, with the bytes from `in` on
pub record Bitstream : Type 0 where
  pub input : ℕ → ℕ
  pub in_len : ℕ
  pub in_pos : ℕ
  pub bitbuf : ℕ
  pub bitcnt : ℕ

abbrev take_bit : Bitstream → ℕ × Bitstream
take_bit bs = (bs.bitbuf % 2, record bs { bitbuf = bs.bitbuf / 2; bitcnt = bs.bitcnt - 1 })

-- none at the end of the input
unfoldable pub bs_getbit : Bitstream → Option (ℕ × Bitstream)
bs_getbit bs =
    let next = record bs { bitbuf = bs.input bs.in_pos; bitcnt = 8; in_pos = bs.in_pos + 1 } in
    if bs.bitcnt == 0
    then (if leb bs.in_len bs.in_pos then none else some (take_bit next))
    else some (take_bit bs)

-- the `for`, `k` bits from bit `i` on; the bits of `val` from `i` on are clear, so that | adds
unfoldable pub bits_loop : (k : ℕ) → Bitstream → (i val : ℕ) → Option (ℕ × Bitstream)
unfolding bs_getbit
bits_loop zero bs i val = some (val, bs)
bits_loop (suc k) bs i val = elim (bs_getbit bs) [
  | none ↦ none
  | some (b, next) ↦ bits_loop k next (i + 1) (val + b * 2 ^ i)
]

unfoldable pub bs_getbits : Bitstream → (n : ℕ) → Option (ℕ × Bitstream)
unfolding bits_loop
bs_getbits bs n = bits_loop n bs 0 0

unfoldable pub bs_align : Bitstream → Bitstream
bs_align bs = record bs { bitbuf = 0; bitcnt = 0 }

-- the distance of `t` from p = a + b - c, which may be negative; c stands on the other side
abbrev pub away : (a b c t : ℕ) → ℕ
away a b c t = if ltb (c + t) (a + b) then a + b - (c + t) else c + t - (a + b)

unfoldable pub paeth : (a b c : ℕ) → ℕ
paeth a b c =
    let pa = away a b c a in
    let pb = away a b c b in
    let pc = away a b c c in if leb pa pb && leb pa pc then a else if leb pb pc then b else c

-- what the `switch` adds to the byte; none for the default branch
unfoldable pub predict : (filter a b c : ℕ) → Option ℕ
unfolding paeth
predict filter a b c =
    if filter == 0
    then some 0
    else if filter == 1
    then some a
    else if filter == 2
    then some b
    else if filter == 3
    then some ((a + b) / 2)
    else if filter == 4
    then some (paeth a b c)
    else none

-- the byte `filt_bpp` before `x`, or 0
abbrev pub left_of : (row : ℕ → ℕ) → (filt_bpp x : ℕ) → ℕ
left_of row filt_bpp x = if leb filt_bpp x then row (x - filt_bpp) else 0

-- the `for` over a row, `n` bytes from `x` on; none for PNG_ERR_FORMAT
unfoldable pub row_loop :
    (n : ℕ)
    → (filt prev_line : ℕ → ℕ) → (filt_bpp filter : ℕ) → (cur_line : ℕ → ℕ) → (x : ℕ)
    → Option (ℕ → ℕ)
unfolding predict
row_loop zero filt prev_line filt_bpp filter cur_line x = some cur_line
row_loop (suc n) filt prev_line filt_bpp filter cur_line x =
    let a = left_of cur_line filt_bpp x in
    let c = left_of prev_line filt_bpp x in
    elim (predict filter a (prev_line x) c) [
      | none ↦ none
      | some p ↦
          row_loop n filt prev_line filt_bpp filter (update cur_line x ((filt x + p) % 256)) (x + 1)
    ]
