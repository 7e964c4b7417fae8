-- ===== src/Vfs/Longest.antt =====
-- VFS.c, vfs_find_mount: the mount that a path belongs to.
use fexox_os.Base.{
  ℕ, ◌≤◌, ◌≡◌, refl, sym, ap, ◌∙◌, true, false, ◌&&◌, Option, none, some, List, [], ◌∷◌, length,
  arith, Bool-cases, inl, inr,
}
use mathlib.Core.Logic.{◌⊎◌}
use mathlib.Core.Option.{none-ne-some}
use fexox_os.Vfs.Prefix.{Covers, is_above-Covers, Covers-is_above, not_above}
use fexox_os.Vfs.{Mount, is_above, is_longer, find_loop, vfs_find_mount}

abbrev pub Among : Mount → List Mount → Type 0
Among m [] = ⊥
Among m (x ∷ mounts) = (m ≡ x) ⊎ Among m mounts

-- What the search may find for a path.
pub data Nearest (mounts : List Mount) (path : List ℕ) : Option Mount → Type 0 where
  nearest :
      (m : Mount)
      → Among m mounts
      → Covers m path
      → ((x : Mount) → Among x mounts → Covers x path → length x.path ≤ length m.path)
      → Nearest mounts path (some m)
  nowhere : ((x : Mount) → Among x mounts → ¬ Covers x path) → Nearest mounts path none

-- What the rest of the search adds to the best so far.
data Better (mounts : List Mount) (path : List ℕ) : (best found : Option Mount) → Type 0 where
  kept :
      (b : Mount)
      → ((x : Mount) → Among x mounts → is_above x path ≡ true → length x.path ≤ length b.path)
      → Better mounts path (some b) (some b)
  kept_none :
      ((x : Mount) → Among x mounts → is_above x path ≡ false) → Better mounts path none none
  raised :
      (best : Option Mount) (m : Mount)
      → is_longer m best ≡ true
      → Among m mounts
      → is_above m path ≡ true
      → ((x : Mount) → Among x mounts → is_above x path ≡ true → length x.path ≤ length m.path)
      → Better mounts path best (some m)

-- a mount that is not taken leaves the rest of the search as it is
passed_over :
    (m : Mount) (mounts : List Mount) (path : List ℕ) (best found : Option Mount)
    → (is_above m path && is_longer m best) ≡ false
    → Better mounts path best found
    → Better (m ∷ mounts) path best found
passed_over m mounts path (some b) found e (kept _ all) = kept b λ x p q. elim p [
  | inl same ↦ ground (arith, ap (λ y. is_above y path) same, ap (λ y. length y.path) same)
  | inr rest ↦ all x rest q
]
passed_over m mounts path none found e (kept_none all) = kept_none λ x p. elim p [
  | inl same ↦ ap (λ y. is_above y path) same ∙ ground arith
  | inr rest ↦ all x rest
]
passed_over m mounts path none found e (raised _ g longer among above all) =
    raised none g longer (inr among) above λ x p q. elim p [
      | inl same ↦ ground (arith, ap (λ y. is_above y path) same)
      | inr rest ↦ all x rest q
    ]
passed_over m mounts path (some b) found e (raised _ g longer among above all) =
    raised (some b) g longer (inr among) above λ x p q. elim p [
      | inl same ↦ ground (arith, ap (λ y. is_above y path) same, ap (λ y. length y.path) same)
      | inr rest ↦ all x rest q
    ]

longer_yet :
    (g m : Mount) (best : Option Mount)
    → is_longer m best ≡ true
    → is_longer g (some m) ≡ true
    → is_longer g best ≡ true
longer_yet g m none h k = refl
longer_yet g m (some b) h k = ground (arith, h, k)

taken_over :
    (m : Mount) (mounts : List Mount) (path : List ℕ) (best found : Option Mount)
    → is_above m path ≡ true
    → is_longer m best ≡ true
    → Better mounts path (some m) found
    → Better (m ∷ mounts) path best found
taken_over m mounts path best found above longer (kept _ all) =
    raised best m longer (inl refl) above λ x p q. elim p [
      | inl same ↦ let e = ap (λ y. length y.path) same in omega arith
      | inr rest ↦ all x rest q
    ]
taken_over m mounts path best found above longer (raised _ g more among above' all) =
    raised best g (longer_yet g m best longer more) (inr among) above' λ x p q. elim p [
      | inl same ↦ ground (arith, ap (λ y. length y.path) same)
      | inr rest ↦ all x rest q
    ]

loop-Better :
    (mounts : List Mount) (path : List ℕ) (best : Option Mount)
    → Better mounts path best (find_loop mounts path best)
unfolding find_loop
loop-Better [] path none = kept_none (λ x p. absurd p)
loop-Better [] path (some b) = kept b (λ x p q. absurd p)
loop-Better (m ∷ mounts) path best = elim (Bool-cases (is_above m path && is_longer m best)) [
  | inr off ↦ rw off (passed_over m mounts path best _ off (loop-Better mounts path best))
  | inl on ↦ rw on (
      taken_over m mounts path best _ (ground arith) (ground arith)
        (loop-Better mounts path (some m)))
]

-- vfs_find_mount returns a mount of the table that has a root and whose path is a prefix of the
-- given one, where a component of the given path ends: there its end or a slash is next, or the
-- prefix itself ends with a slash. No other such mount has a longer path. It returns none exactly if
-- there is no such mount.
pub vfs_find_mount-Nearest :
    (mounts : List Mount) (path : List ℕ) → Nearest mounts path (vfs_find_mount mounts path)
unfolding vfs_find_mount
vfs_find_mount-Nearest mounts path =
    elim (loop-Better mounts path none)
        as (λ best found b. best ≡ none → Nearest mounts path found) [
          | kept b all ↦ λ e. absurd (none-ne-some _ (sym e))
          | kept_none all ↦ λ e. nowhere (λ x p. not_above x path (all x p))
          | raised _ m longer among above all ↦ λ e.
              nearest m among (is_above-Covers m path above)
                (λ x p c. all x p (Covers-is_above x path c))
        ]
      refl
