-- ===== src/Fb/Setup.antt =====
-- Framebuffer.c, fb_init: the shifts of the channels and the mode that is set up.
use fexox_os.Base.{
  ℕ, zero, suc, ◌+◌, ◌*◌, ◌/◌, ◌%◌, ◌^◌, ◌≤◌, ◌<◌, ◌≡◌, ◌≢◌, ◌⊎◌, ◌∙◌, ap, refl, inl, inr, true,
  false, ◌&&◌, ◌||◌, not, Option, some, arith, ◌==◌, if◌then◌else◌, u64_mod, u32_mod, Bool-cases,
}
use native.Mathlib.Nat.{pow-suc, mod-eq-sub-mul-div, mul-div-le}
use fexox_os.Base.Bits.{half_power}
use fexox_os.Fb.{
  Fb, FbInfo, fb_mode_linear, fb_direct_map, fb_mode_vga, fb_mode_none, linear_mode, shift_loop,
  mask_to_shift, draw_buf, fb_init,
}
use fexox_os.Fb.Canvas.{IsScreen}
use fexox_os.Fb.Pixels.{IsTrueColour}

-- `s` is the place of the lowest bit of `mask` that is set.
abbrev pub LowestBit : (mask s : ℕ) → Type 0
LowestBit mask s = (mask % 2 ^ s ≡ 0) × (mask / 2 ^ s % 2 ≡ 1)

LowestBit-double : (mask t : ℕ) → mask % 2 ≡ 0 → LowestBit (mask / 2) t → LowestBit mask (suc t)
LowestBit-double mask t even (clear, set) =
    let half = half_power t mask in
    (
      omega (
        arith,
        pow-suc 2 t,
        half,
        mod-eq-sub-mul-div mask (2 ^ suc t),
        mod-eq-sub-mul-div (mask / 2) (2 ^ t),
        mul-div-le mask (2 ^ suc t),
        mul-div-le (mask / 2) (2 ^ t),
        ap (λ (q : ℕ). q * (mask / 2 / 2 ^ t)) (pow-suc 2 t),
        ap (λ (q : ℕ). 2 ^ suc t * q) half,
      ),
      omega (arith, set, ap (λ (q : ℕ). q % 2) half),
    )

shift_loop_lem :
    (k mask s : ℕ)
    → 0 < mask
    → mask < 2 ^ k
    → (t : ℕ) × (t < k) × (shift_loop k mask s ≡ some (s + t)) × LowestBit mask t
unfolding shift_loop
shift_loop_lem zero mask s h h' = absurd (omega arith)
shift_loop_lem (suc k) mask s h h' = elim (Bool-cases (mask % 2 == 0)) [
  | inr odd ↦
      let here : s + 0 ≡ s = omega arith in
      let stop : shift_loop (suc k) mask s ≡ some (s + 0) = rw (odd, here) refl in
      (0, omega arith, stop, (ground arith, ground arith))
  | inl even ↦
      let (t, small, e, low) =
        shift_loop_lem k (mask / 2) (s + 1) (ground arith) (omega (arith, pow-suc 2 k)) in
      let on : s + 1 + t ≡ s + suc t = omega arith in
      let more : shift_loop (suc k) mask s ≡ some (s + suc t) = rw even (e ∙ ap some on) in
      (suc t, omega arith, more, LowestBit-double mask t (ground arith) low)
]

-- For a 32-bit mask that is not 0, mask_to_shift ends and gives the place of its lowest bit; for 0
-- it gives 0.
pub mask_to_shift-LowestBit :
    (mask : ℕ)
    → mask < u32_mod
    → (mask ≡ 0 → mask_to_shift mask ≡ some 0)
      × (0 < mask → (s : ℕ) × (s < 32) × (mask_to_shift mask ≡ some s) × LowestBit mask s)
unfolding mask_to_shift
mask_to_shift-LowestBit mask h = (
  λ z. rw z refl,
  λ pos.
      let go : (mask == 0) ≡ false = ground arith in
      let (s, small, e, low) = shift_loop_lem 32 mask 0 pos h in
      (s, small, rw go (e ∙ ap some (omega arith)), low),
)

-- `g_fb.pitch` after the linear branch
abbrev pub pitch_of : FbInfo → ℕ
pitch_of info = if info.pitch == 0 then info.width * (info.bpp / 8) % u32_mod else info.pitch

-- A linear framebuffer of 24 or 32 bits a pixel, as the firmware describes it: its rows have room for
-- their pixels, it lies in the direct map, and the masks are missing or those of the two usual orders.
pub record IsLinear (info : FbInfo) : Type 0 where
  pub linear : info.mode ≡ fb_mode_linear
  pub address : info.phys_addr ≢ 0
  pub size : (0 < info.width) × (info.width ≤ 2 ^ 31) × (0 < info.height) × (info.height ≤ 2 ^ 31)
  pub depth : (info.bpp ≡ 24) ⊎ (info.bpp ≡ 32)
  pub rows :
      (info.width * (info.bpp / 8) < u32_mod)
      × (info.pitch < u32_mod)
      × (info.width * (info.bpp / 8) ≤ pitch_of info)
  pub inside : info.phys_addr + fb_direct_map + pitch_of info * info.height ≤ u64_mod
  pub masks :
      ((info.red_mask ≡ 0) × (info.green_mask ≡ 0) × (info.blue_mask ≡ 0))
      ⊎ ((info.red_mask ≡ 0xFF0000) × (info.green_mask ≡ 0xFF00) × (info.blue_mask ≡ 0xFF))
      ⊎ ((info.red_mask ≡ 0xFF) × (info.green_mask ≡ 0xFF00) × (info.blue_mask ≡ 0xFF0000))

-- the state with the shifts `r`, `g` and `b`
module _ (info : FbInfo) (v : IsLinear info) (r g b : ℕ) where
  linear_mode-IsScreen : IsScreen (linear_mode info r g b)
  unfolding draw_buf
  linear_mode-IsScreen = record {
    linear = refl;
    depth = ground (arith, v.depth);
    narrow = v.size.1;
    low = v.size.3;
    rows =
        let same : (if info.bpp == 0 then 32 else info.bpp) ≡ info.bpp = ground (arith, v.depth) in
        rw same v.rows.2;
    word = ground (arith, v.rows);
    inside = omega (arith, v.inside);
  }

  linear_mode-IsTrueColour :
      ((r ≡ 16) × (g ≡ 8) × (b ≡ 0)) ⊎ ((r ≡ 0) × (g ≡ 8) × (b ≡ 16))
      → IsTrueColour (linear_mode info r g b)
  linear_mode-IsTrueColour e = record { bytes = ground (arith, v.depth); channels = e }

shift_at :
    (mask value : ℕ) {s : Option ℕ}
    → mask ≡ value
    → mask_to_shift value ≡ s
    → mask_to_shift mask ≡ s
shift_at mask value e f = ap mask_to_shift e ∙ f

-- the shifts are those that the red mask says
abbrev pub InOrder : FbInfo → (r g b : ℕ) → Type 0
InOrder info r g b =
    ((info.red_mask ≡ 0) ⊎ (info.red_mask ≡ 0xFF0000) → (r ≡ 16) × (g ≡ 8) × (b ≡ 0))
    × (info.red_mask ≡ 0xFF → (r ≡ 0) × (g ≡ 8) × (b ≡ 16))

usual_order :
    (info : FbInfo)
    → IsLinear info
    → (r g b : ℕ) → InOrder info r g b
    → ((r ≡ 16) × (g ≡ 8) × (b ≡ 0)) ⊎ ((r ≡ 0) × (g ≡ 8) × (b ≡ 16))
usual_order info v r g b (high, low) = elim v.masks [
  | inl (e, _, _) ↦ inl (high (inl e))
  | inr (inl (e, _, _)) ↦ inl (high (inr e))
  | inr (inr (e, _, _)) ↦ inr (low e)
]

fb_init_linear :
    (info : FbInfo)
    → IsLinear info
    → (r : ℕ) × (g : ℕ) × (b : ℕ) × (fb_init (some info) ≡ some (linear_mode info r g b))
      × InOrder info r g b
unfolding fb_init mask_to_shift shift_loop
fb_init_linear info v =
    let not_text : (info.mode == fb_mode_vga || info.mode == fb_mode_none) ≡ false =
      ground (arith, v.linear) in
    let usable : (info.mode == fb_mode_linear
          && not (info.phys_addr == 0)
          && not (info.width == 0)
          && not (info.height == 0))
        ≡ true =
      ground (arith, v.linear, v.address, v.size) in
    elim v.masks [
      | inl (er, eg, eb) ↦ (
        16,
        8,
        0,
        let blank : (not (info.red_mask == 0)
                  || not (info.green_mask == 0)
                  || not (info.blue_mask == 0))
                ≡ false =
              ground arith in
            rw (not_text, usable, blank) refl,
        (λ e. (refl, refl, refl), λ e. absurd (ground (arith, e, er))),
      )
      | inr (inl (er, eg, eb)) ↦ (
        16,
        8,
        0,
        let given : (not (info.red_mask == 0)
                  || not (info.green_mask == 0)
                  || not (info.blue_mask == 0))
                ≡ true =
              ground arith in
            rw
              (
                not_text,
                usable,
                given,
                shift_at info.red_mask 0xFF0000 er refl,
                shift_at info.green_mask 0xFF00 eg refl,
                shift_at info.blue_mask 0xFF eb refl,
              )
              refl,
        (λ e. (refl, refl, refl), λ e. absurd (ground (arith, e, er))),
      )
      | inr (inr (er, eg, eb)) ↦ (
        0,
        8,
        16,
        let given : (not (info.red_mask == 0)
                  || not (info.green_mask == 0)
                  || not (info.blue_mask == 0))
                ≡ true =
              ground arith in
            rw
              (
                not_text,
                usable,
                given,
                shift_at info.red_mask 0xFF er refl,
                shift_at info.green_mask 0xFF00 eg refl,
                shift_at info.blue_mask 0xFF0000 eb refl,
              )
              refl,
        (λ e. absurd (ground (arith, e, er)), λ e. (refl, refl, refl)),
      )
    ]

-- A linear framebuffer of 24 or 32 bits a pixel, as the firmware describes it: its rows have room for
-- their pixels, it lies in the direct map, and the masks are missing or those of the two usual
-- orders. On it fb_init sets up a linear mode of that size whose rows do not overlap and whose buffer
-- lies in the address space, with three or four bytes a pixel. Red, green and blue are shifted by 16,
-- 8 and 0 bits where the masks are missing or the red mask is 0xFF0000, and by 0, 8 and 16 where the
-- red mask is 0xFF.
pub fb_init-IsScreen :
    (info : FbInfo)
    → IsLinear info
    → (fb : Fb) × (fb_init (some info) ≡ some fb)
      × (fb.width ≡ info.width)
      × (fb.height ≡ info.height)
      × IsScreen fb
      × IsTrueColour fb
      × InOrder info fb.r_shift fb.g_shift fb.b_shift
fb_init-IsScreen info v =
    let (r, g, b, e, order) = fb_init_linear info v in
    (
      linear_mode info r g b,
      e,
      refl,
      refl,
      linear_mode-IsScreen info v r g b,
      linear_mode-IsTrueColour info v r g b (usual_order info v r g b order),
      order,
    )
