-- ===== src/Km/Classes.antt =====
-- MemoryControl.c, km_size_class.
use fexox_os.Base.{
  ℕ, zero, suc, ◌+◌, ◌*◌, ◌^◌, ◌≤◌, ◌<◌, ◌≡◌, ◌⊎◌, refl, inl, inr, arith, ltb, leb, Bool-cases,
  u64_mod,
}
use fexox_os.Pmm.{align_up}
use fexox_os.Pmm.Align.{IsAlignment, align_up-RoundsUp}
use native.Mathlib.Decide.{ℕ_discrete, dec_lt}
use fexox_os.Km.{km_class_size, km_size_class, class_loop, km_min_size}

-- `r` is the first class from `c` on that holds `a` bytes, or the last of `k` more
record IsClass (k a c r : ℕ) : Type 0 where
  from : c ≤ r
  upto : r ≤ c + k
  holds : (a ≤ km_class_size r) ⊎ (r ≡ c + k)
  least : (j : ℕ) → c ≤ j → j < r → km_class_size j < a

class_loop-IsClass : (k a c : ℕ) → IsClass k a c (class_loop k a c)
unfolding class_loop
class_loop-IsClass zero a c = record {
  from = omega arith;
  upto = omega arith;
  holds = inr (omega arith);
  least = λ j p q. absurd (omega arith);
}
class_loop-IsClass (suc k) a c =
    let r = class_loop-IsClass k a (c + 1) in
    elim (Bool-cases (ltb (km_class_size c) a)) [
      | inr e ↦ rw e (record {
        from = omega arith;
        upto = omega arith;
        holds = inl (ground (arith, e));
        least = λ j p q. absurd (omega arith);
      })
      | inl e ↦ rw e (record {
        from = omega (arith, r.from);
        upto = omega (arith, r.upto);
        holds = ground (arith, r.holds);
        least = λ j p q. elim (ℕ_discrete j c) [
          | yes s ↦ rw s (ground (arith, e))
          | no s ↦ r.least j (omega arith) q
        ];
      })
    ]

-- `c` is the class of `sz` bytes: the first whose blocks hold as much, or the last one.
pub record Class (sz c : ℕ) : Type 0 where
  pub bounded : c ≤ 11
  pub holds : (sz ≤ km_class_size c) ⊎ (c ≡ 11)
  pub least : (j : ℕ) → j < c → km_class_size j < sz

km_size_class-Class : (sz : ℕ) → sz + 16 ≤ u64_mod → Class sz (km_size_class sz)
unfolding km_size_class
km_size_class-Class sz small = elim (Bool-cases (leb sz km_min_size)) [
  | inl e ↦ rw e (record {
    bounded = omega arith;
    holds = inl (ground (arith, e));
    least = λ j l. absurd (omega arith);
  })
  | inr e ↦
      let a = align_up sz 16 in
      let v : IsAlignment 16 = record { log = 4; power = refl } in
      let up = align_up-RoundsUp sz 16 v (omega arith) small in
      let c = class_loop-IsClass 11 a 0 in
      rw e (record {
        bounded = omega (arith, c.upto);
        holds = ground (arith, c.holds, up.above);
        least =
            λ j l. rounded (2 ^ j) up.quotient a sz up.multiple (c.least j (omega arith) l) up.near;
      })
]
  where
    rounded : (p q a s : ℕ) → a ≡ q * 16 → 16 * p < a → a < s + 16 → 16 * p < s
    rounded p q a s m l n = omega (arith, m, l, n)

higher : (a b c d : ℕ) → Class a c → Class b d → a ≤ b → c ≤ d
higher a b c d x y le = elim (dec_lt d c) [
  | no h ↦ omega arith
  | yes h ↦
      let below = x.least d h in
      elim y.holds [
        | inl fits ↦ absurd (omega (arith, below, fits, le))
        | inr top ↦ absurd (omega (arith, top, h, x.bounded))
      ]
]

-- For a size that rounds up to a multiple of 16 in 64 bits, km_size_class ends within its eleven
-- rounds at one of the twelve classes, the first one whose class size is at least the size or, if
-- there is none, the last; and it gives no smaller class to a larger size, so that a search from
-- the class of a request upwards passes by no block that is large enough.
pub km_size_class-monotone :
    (a b : ℕ)
    → a ≤ b
    → b + 16 ≤ u64_mod
    → Class a (km_size_class a) × Class b (km_size_class b) × (km_size_class a ≤ km_size_class b)
km_size_class-monotone a b le small =
    let x = km_size_class-Class a (omega arith) in
    let y = km_size_class-Class b small in (x, y, higher a b _ _ x y le)
