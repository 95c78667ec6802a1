-- ===== src/Base/Slices.antt =====
-- Go slices: `s[lo:hi]` faults out of range, and `copy` writes as much as fits.
use Prim.Native.Nat.{ℕ, ◌+◌, ◌-◌, ◌≤◌}
use mathlib.Core.Path.{◌≡◌, refl, ap, ◌∙◌}
use mathlib.Core.Bool.{◌&&◌}
use mathlib.Core.List.{List, [], ◌∷◌, ◌++◌}
use native.Mathlib.Omega.{arith}
use mathlib.Core.Option.{Option, none, some}
use go_oam.Base.Tests.{leb, le→leb, if◌then◌else◌}
use go_oam.Base.Lists.{length, take, drop, take-all, length-append, length-take, length-drop}

module _ {ℓ} {A : Type ℓ} where
  -- `s[lo:hi]`, of a slice whose capacity is its length
  unfoldable pub slice : List A → ℕ → ℕ → Option (List A)
  slice s lo hi = if leb lo hi && leb hi (length s) then some (take (hi - lo) (drop lo s)) else none

  -- `s[lo:]`
  unfoldable pub slice_from : List A → ℕ → Option (List A)
  unfolding slice
  slice_from s lo = slice s lo (length s)

  -- `dst` after `copy(dst, src)`
  unfoldable pub copy : List A → List A → List A
  copy dst src = take (length dst) src ++ drop (length src) dst

  -- `dst` after `copy(dst[off:], src)`
  unfoldable pub copy_at : List A → ℕ → List A → Option (List A)
  unfolding copy
  copy_at dst off src =
      if leb off (length dst) then some (take off dst ++ copy (drop off dst) src) else none

  pub slice-eq :
      (s : List A) (lo hi : ℕ)
      → lo ≤ hi
      → hi ≤ length s
      → slice s lo hi ≡ some (take (hi - lo) (drop lo s))
  unfolding slice
  slice-eq s lo hi p q = rw (le→leb lo hi p, le→leb hi (length s) q)

  pub slice_from-eq :
      (s : List A) (lo : ℕ)
      → lo ≤ length s
      → slice_from s lo ≡ some (take (length s - lo) (drop lo s))
  unfolding slice_from
  slice_from-eq s lo p = slice-eq s lo (length s) p (omega arith)

  pub slice_to-eq : (s : List A) (hi : ℕ) → hi ≤ length s → slice s 0 hi ≡ some (take hi s)
  slice_to-eq s hi p =
      let whole : hi - 0 ≡ hi = omega arith in rw (slice-eq s 0 hi (omega arith) p, whole)

  pub slice_from-drop : (s : List A) (lo : ℕ) → lo ≤ length s → slice_from s lo ≡ some (drop lo s)
  slice_from-drop s lo p =
      slice_from-eq s lo p
      ∙ ap some (take-all (length s - lo) (drop lo s) (omega (arith, length-drop lo s)))

  -- A copy that fits leaves the rest of the target.
  pub copy-fits :
      (dst src : List A) → length src ≤ length dst → copy dst src ≡ src ++ drop (length src) dst
  unfolding copy
  copy-fits dst src h = rw (take-all (length dst) src h)

  pub copy-full : (dst src : List A) → length src ≡ length dst → copy dst src ≡ src
  unfolding copy
  copy-full [] [] h = refl
  copy-full [] (x ∷ src) h = absurd (omega arith)
  copy-full (y ∷ dst) [] h = absurd (omega arith)
  copy-full (y ∷ dst) (x ∷ src) h = ap (λ r. x ∷ r) (copy-full dst src (omega arith))

  pub copy-nil : (dst : List A) → copy dst [] ≡ dst
  unfolding copy
  copy-nil [] = refl
  copy-nil (y ∷ dst) = refl

  pub length-copy : (dst src : List A) → length (copy dst src) ≡ length dst
  unfolding copy
  length-copy dst src = omega (
    arith,
    length-append (take (length dst) src) (drop (length src) dst),
    length-take (length dst) src,
    length-drop (length src) dst,
  )

  copy_behind :
      (dst xs ys : List A)
      → length xs + length ys ≡ length dst
      → take (length xs) (copy dst xs) ++ copy (drop (length xs) (copy dst xs)) ys ≡ xs ++ ys
  unfolding copy
  copy_behind dst [] ys h = rw copy-nil (copy-full dst ys (omega arith))
  copy_behind [] (x ∷ xs) ys h = absurd (omega arith)
  copy_behind (y ∷ dst) (x ∷ xs) ys h = ap (λ r. x ∷ r) (copy_behind dst xs ys (omega arith))

  -- Two copies, the second behind the first, that fill the target.
  pub copy_at-copy :
      (dst xs ys : List A) (k : ℕ)
      → k ≡ length xs
      → length xs + length ys ≡ length dst
      → copy_at (copy dst xs) k ys ≡ some (xs ++ ys)
  unfolding copy_at
  copy_at-copy dst xs ys k e h =
      rw (e, le→leb (length xs) (length (copy dst xs)) (omega (arith, length-copy dst xs)))
        (ap some (copy_behind dst xs ys h))
