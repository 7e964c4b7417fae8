-- ===== src/Vfs/Prefix.antt =====
-- VFS.c, vfs_find_mount: which mounts a path is below, said of the characters.
use fexox_os.Base.{
  ℕ, ◌≡◌, ◌≢◌, refl, ap, true, false, none, some, List, [], ◌∷◌, ◌++◌, ◌==◌, ◌⊎◌, arith, Bool-cases,
  Option-cases, inl, inr,
}
use mathlib.Core.Option.{some-injective, none-ne-some}
use fexox_os.Vfs.{Mount, after_prefix, ends_with_slash, at_boundary, is_above}

-- The mount has a root, the path starts with that of the mount, and what is left of it is empty or
-- starts with a slash, or the mount's path ends with a slash.
pub record Covers (m : Mount) (path : List ℕ) : Type 0 where
  pub rooted : m.root ≢ 0
  pub rest : List ℕ
  pub starts : path ≡ m.path ++ rest
  pub boundary :
      (rest ≡ []) ⊎ ((t : List ℕ) × (rest ≡ 47 ∷ t)) ⊎ ((p : List ℕ) × (m.path ≡ p ++ (47 ∷ [])))

starts_with : (p path rest : List ℕ) → after_prefix p path ≡ some rest → path ≡ p ++ rest
unfolding after_prefix
starts_with [] path rest e = some-injective path rest e
starts_with (x ∷ xs) [] rest e = absurd (none-ne-some _ e)
starts_with (x ∷ xs) (y ∷ path) rest e = elim (Bool-cases (x == y)) [
  | inr s ↦ absurd (ground (arith, e, s))
  | inl s ↦
      let same : y ≡ x = ground (arith, s) in
      rw same (ap (λ l. x ∷ l) (starts_with xs path rest (rw s at e)))
]

takes_off : (p rest : List ℕ) → after_prefix p (p ++ rest) ≡ some rest
unfolding after_prefix
takes_off [] rest = refl
takes_off (x ∷ xs) rest = let same : (x == x) ≡ true = ground arith in rw same (takes_off xs rest)

last_slash : (p : List ℕ) → ends_with_slash p ≡ true → (q : List ℕ) × (p ≡ q ++ (47 ∷ []))
unfolding ends_with_slash
last_slash [] e = absurd (ground (arith, e))
last_slash (x ∷ []) e = let same : x ≡ 47 = ground (arith, e) in ([], ap (λ y. y ∷ []) same)
last_slash (x ∷ y ∷ xs) e = let (q, s) = last_slash (y ∷ xs) e in (x ∷ q, ap (λ l. x ∷ l) s)

slash_last : (q : List ℕ) → ends_with_slash (q ++ (47 ∷ [])) ≡ true
unfolding ends_with_slash
slash_last [] = refl
slash_last (x ∷ []) = refl
slash_last (x ∷ y ∷ q) = slash_last (y ∷ q)

boundary_of :
    (m : Mount) (rest : List ℕ)
    → at_boundary m.path rest ≡ true
    → (rest ≡ []) ⊎ ((t : List ℕ) × (rest ≡ 47 ∷ t)) ⊎ ((p : List ℕ) × (m.path ≡ p ++ (47 ∷ [])))
boundary_of m [] e = inl refl
boundary_of m (c ∷ rest) e = elim (Bool-cases (ends_with_slash m.path)) [
  | inl s ↦ inr (inr (last_slash m.path s))
  | inr s ↦ let same : c ≡ 47 = ground (arith, e, s) in inr (inl (rest, ap (λ x. x ∷ rest) same))
]

none_above :
    (m : Mount) (path : List ℕ) → after_prefix m.path path ≡ none → is_above m path ≡ true → ⊥
unfolding is_above
none_above m path s e = ground (arith, rw (s, is_above) at e)

some_above :
    (m : Mount) (path rest : List ℕ)
    → after_prefix m.path path ≡ some rest
    → is_above m path ≡ true
    → (m.root ≢ 0) × (at_boundary m.path rest ≡ true)
unfolding is_above
some_above m path rest s e =
    let e' = rw (s, is_above) at e in (ground (arith, e'), ground (arith, e'))

-- A mount that the code takes for one above the path covers it.
pub is_above-Covers : (m : Mount) (path : List ℕ) → is_above m path ≡ true → Covers m path
unfolding is_above
is_above-Covers m path e = elim (Option-cases (after_prefix m.path path)) [
  | inl s ↦ absurd (none_above m path s e)
  | inr (rest, s) ↦
      let above = some_above m path rest s e in
      record {
        rooted = above.0;
        rest = rest;
        starts = starts_with m.path path rest s;
        boundary = boundary_of m rest above.1;
      }
]

at_boundary_holds :
    (m : Mount) (rest : List ℕ)
    → (rest ≡ []) ⊎ ((t : List ℕ) × (rest ≡ 47 ∷ t)) ⊎ ((p : List ℕ) × (m.path ≡ p ++ (47 ∷ [])))
    → at_boundary m.path rest ≡ true
at_boundary_holds m [] b = refl
at_boundary_holds m (c ∷ rest) (inl e) = absurd (ground (arith, e))
at_boundary_holds m (c ∷ rest) (inr (inl (t, e))) = ground (arith, e)
at_boundary_holds m (c ∷ rest) (inr (inr (p, e))) =
    let slashed : ends_with_slash m.path ≡ true = rw e (slash_last p) in ground (arith, slashed)

-- A mount that the code takes for one not above the path does not cover it.
pub not_above : (m : Mount) (path : List ℕ) → is_above m path ≡ false → Covers m path → ⊥
unfolding is_above
not_above m path e c =
    let off : after_prefix m.path path ≡ some c.rest = rw (c.starts) (takes_off m.path c.rest) in
    let e' = rw (off, is_above) at e in
    let boundary = at_boundary_holds m c.rest c.boundary in ground (arith, e', boundary, c.rooted)

pub Covers-is_above : (m : Mount) (path : List ℕ) → Covers m path → is_above m path ≡ true
Covers-is_above m path c = elim (Bool-cases (is_above m path)) [
  | inl e ↦ e
  | inr e ↦ absurd (not_above m path e c)
]
