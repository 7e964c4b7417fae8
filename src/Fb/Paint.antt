-- ===== src/Fb/Paint.antt =====
-- Framebuffer.c, fb_put_pixel: it paints one pixel of the screen; and paintings one after the other
-- are a painting.
use fexox_os.Base.{
  ℕ, ◌+◌, ◌≤◌, ◌<◌, ◌≡◌, ◌≢◌, refl, ◌∙◌, sym, inl, inr, Bool, false, ◌&&◌, ◌||◌, not, none, some,
  arith, leb, ◌==◌, if◌then◌else◌, u64_mod, Option-cases, Bool-cases,
}
use fexox_os.Klibc.{Memory}
use fexox_os.Fb.{Fb, fb_mode_linear, rgb_to_native}
use fexox_os.Fb.Canvas.{
  pixel_addr-spot, store_pixel, fb_put_pixel, IsScreen, spot, spot_inj, column_end, row_end, byte,
  Ink, over, Painted,
}

store_pixel_lem :
    (d : ℕ) (m : Memory) (a n : ℕ)
    → (1 ≤ d) × (d ≤ 4)
    → a + d ≤ u64_mod
    → ((k : ℕ) → k < d → store_pixel d m a n (a + k) ≡ byte k n)
      × ((b : ℕ) → ((k : ℕ) → k < d → b ≢ a + k) → store_pixel d m a n b ≡ m b)
unfolding store_pixel
store_pixel_lem d m a n h fits =
    (λ k p. ground arith, λ b off. ground (arith, off 0, off 1, off 2, off 3))

-- one colour where a test holds
abbrev pub where_true : (ℕ → ℕ → Bool) → ℕ → Ink
where_true test n i j = if test i j then some n else none

module _ (fb : Fb) where
  pub Painted-nothing :
      (ink : Ink) (m : Memory)
      → ((i j : ℕ) → i < fb.width → j < fb.height → ink i j ≡ none)
      → Painted fb ink m m
  Painted-nothing ink m blank = record {
    inked = λ i j k n p q r e. let z = blank i j p q in cc;
    others = λ a h. refl;
  }

  -- paintings with inks that agree on the screen
  pub Painted-ext :
      {ink ink' : Ink} {m m' : Memory}
      → ((i j : ℕ) → i < fb.width → j < fb.height → ink i j ≡ ink' i j)
      → Painted fb ink m m'
      → Painted fb ink' m m'
  Painted-ext same p = record {
    inked = λ i j k n x y z e. p.inked i j k n x y z (same i j x y ∙ e);
    others = λ a h. p.others a (λ i j k n x y z e. let s = same i j x y in h i j k n x y z cc);
  }

  module _ (s : IsScreen fb) where
    pub Painted-over :
        {a b : Ink} {m m1 m2 : Memory}
        → Painted fb a m m1
        → Painted fb b m1 m2
        → Painted fb (over b a) m m2
    Painted-over {a} {b} {m} {m1} {m2} p q = record {
      inked = λ i j k n x y z e. elim (Option-cases (b i j)) [
        | inr (c, f) ↦ let same : c ≡ n = cc in q.inked i j k n x y z cc
        | inl f ↦
            q.others (spot fb i j + k) (λ i' j' k' n' x' y' z' e' at.
              let (si, sj) = spot_inj fb s i j k i' j' k' x z x' z' at in cc)
            ∙ p.inked i j k n x y z cc
      ];
      others = λ c h.
          q.others c (λ i j k n x y z e. h i j k n x y z cc)
          ∙ p.others c (λ i j k n x y z e at. elim (Option-cases (b i j)) [
            | inl f ↦ let ink : over b a i j ≡ some n = cc in h i j k n x y z ink at
            | inr (c', f) ↦ let ink : over b a i j ≡ some c' = cc in h i j k c' x y z ink at
          ]);
    }

    -- the bytes of one pixel on the screen
    pub store_pixel-Painted :
        (m : Memory) (x y n : ℕ)
        → x < fb.width
        → y < fb.height
        → Painted fb
            (where_true (λ i j. i == x && j == y) n)
            m
            (store_pixel fb.bytes_pp m (spot fb x y) n)
    store_pixel-Painted m x y n hx hy =
        let fits : spot fb x y + fb.bytes_pp ≤ u64_mod =
          omega (arith, s.inside, column_end fb s x hx, row_end fb s y hy) in
        let (ones, rest) = store_pixel_lem fb.bytes_pp m (spot fb x y) n s.depth fits in
        record {
          inked = λ i j k n' p q r e.
              let here : i ≡ x = ground arith in
              let there : j ≡ y = ground arith in
              let same : n ≡ n' = ground arith in rw (here, there, sym same) (ones k r);
          others = λ a off. rest a (λ k p. off x y k n hx hy p (ground arith));
        }

    -- fb_put_pixel paints its pixel, if that is on the screen.
    pub fb_put_pixel-Painted :
        (m : Memory) (x y c : ℕ)
        → Painted fb
            (where_true (λ i j. i == x && j == y) (rgb_to_native fb c))
            m
            (fb_put_pixel fb m x y c)
    unfolding fb_put_pixel
    fb_put_pixel-Painted m x y c =
        let shown : not (fb.mode == fb_mode_linear) ≡ false = ground (arith, s.linear) in
        elim (Bool-cases (leb fb.width x || leb fb.height y)) [
          | inl off ↦ rw (shown, off) (Painted-nothing _ m (λ i j p q. ground arith))
          | inr on ↦
              rw (shown, on, pixel_addr-spot fb s x y (ground arith) (ground arith))
                (store_pixel-Painted m x y (rgb_to_native fb c) (ground arith) (ground arith))
        ]
