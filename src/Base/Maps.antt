-- ===== src/Base/Maps.antt =====
-- Go maps from strings as association lists. The order of the pairs stands for the unspecified
-- order of a `range` over the map.
use mathlib.Core.Path.{◌≡◌, refl, subst}
use mathlib.Core.Option
use mathlib.Core.Option.{Option, none, some, some-injective}
use mathlib.Core.Logic.{inl, inr}
use mathlib.Core.List.{List, [], ◌∷◌, map}
use native.Mathlib.Omega.{arith}
use go_oam.Base.Tests.{if◌then◌else◌, Bool-cases}
use go_oam.Base.Keys.{Key, key_eq, key_eq→eq, key_eq_sym, key_eq_refl}

module _ {ℓ} {V : Type ℓ} where
  abbrev pub lookup : Key → List (Key × V) → Option V
  lookup k [] = none
  lookup k ((j, v) ∷ m) = if key_eq k j then some v else lookup k m

  abbrev pub insert : Key → V → List (Key × V) → List (Key × V)
  insert k v [] = (k, v) ∷ []
  insert k v ((j, w) ∷ m) = if key_eq k j then (j, v) ∷ m else (j, w) ∷ insert k v m

  abbrev pub delete : Key → List (Key × V) → List (Key × V)
  delete k [] = []
  delete k ((j, w) ∷ m) = if key_eq k j then delete k m else (j, w) ∷ delete k m

  abbrev pub keys : List (Key × V) → List Key
  keys m = map (λ p. p.0) m

  pub lookup-insert :
      (k j : Key) (v : V) (m : List (Key × V))
      → lookup j (insert k v m) ≡ (if key_eq j k then some v else lookup j m)
  lookup-insert k j v [] = refl
  lookup-insert k j v ((i, w) ∷ m) = ground (
    arith,
    key_eq→eq k i,
    key_eq→eq j i,
    key_eq→eq j k,
    key_eq_sym j k,
    key_eq_refl k,
    key_eq_refl j,
    lookup-insert k j v m,
  )

  pub lookup-delete :
      (k j : Key) (m : List (Key × V))
      → lookup j (delete k m) ≡ (if key_eq j k then none else lookup j m)
  lookup-delete k j [] = ground arith
  lookup-delete k j ((i, w) ∷ m) = ground (
    arith,
    key_eq→eq k i,
    key_eq→eq j i,
    key_eq→eq j k,
    key_eq_sym j k,
    key_eq_refl k,
    key_eq_refl j,
    lookup-delete k j m,
  )

-- Every value changed by `f`, as a `range` loop does that writes to each value.
abbrev pub map_values {ℓ κ} : {V : Type ℓ} {W : Type κ} → (V → W) → List (Key × V) → List (Key × W)
map_values f [] = []
map_values f ((j, v) ∷ m) = (j, f v) ∷ map_values f m

pub lookup-map_values {ℓ κ} :
    {V : Type ℓ} {W : Type κ} (f : V → W) (j : Key) (m : List (Key × V))
    → lookup j (map_values f m) ≡ Option.map f (lookup j m)
lookup-map_values f j [] = refl
lookup-map_values f j ((i, v) ∷ m) = ground (arith, lookup-map_values f j m)

-- A property of every value of a map.
abbrev pub AllValues {ℓ κ} : {V : Type ℓ} → (V → Type κ) → List (Key × V) → Type κ
AllValues P [] = Unit
AllValues P ((j, v) ∷ m) = P v × AllValues P m

module _ {ℓ κ} {V : Type ℓ} (P : V → Type κ) where
  pub AllValues-lookup :
      (k : Key) (m : List (Key × V)) (v : V) → AllValues P m → lookup k m ≡ some v → P v
  AllValues-lookup k [] v a e = cc
  AllValues-lookup k ((j, w) ∷ m) v a e = elim (Bool-cases (key_eq k j)) [
    | inl here ↦ let same : w ≡ v = ground arith in subst P same a.0
    | inr there ↦ AllValues-lookup k m v a.1 (rw there at e)
  ]

  pub AllValues-insert :
      (k : Key) (v : V) (m : List (Key × V)) → P v → AllValues P m → AllValues P (insert k v m)
  AllValues-insert k v [] p a = (p, tt)
  AllValues-insert k v ((j, w) ∷ m) p a = elim (Bool-cases (key_eq k j)) [
    | inl here ↦ rw here (p, a.1)
    | inr there ↦ rw there (a.0, AllValues-insert k v m p a.1)
  ]

pub AllValues-map_values {ℓ κ λ' ρ} :
    {V : Type ℓ} {W : Type κ} (P : V → Type λ') (Q : W → Type ρ) (f : V → W)
    → ((v : V) → P v → Q (f v))
    → (m : List (Key × V)) → AllValues P m
    → AllValues Q (map_values f m)
AllValues-map_values P Q f h [] a = tt
AllValues-map_values P Q f h ((j, v) ∷ m) a = (h v a.0, AllValues-map_values P Q f h m a.1)

-- No key stands twice, as in every Go map.
abbrev pub Distinct {ℓ} : {V : Type ℓ} → List (Key × V) → Type ℓ
Distinct [] = Unit
Distinct ((j, v) ∷ m) = (lookup j m ≡ none) × Distinct m

-- `result[key] = f(value)` for each pair of a map.
abbrev pub collect {ℓ κ} :
    {V : Type ℓ} {W : Type κ} → (V → W) → List (Key × V) → List (Key × W) → List (Key × W)
collect f [] result = result
collect f ((k, v) ∷ m) result = collect f m (insert k (f v) result)

module _ {V : Type 0} where
  pub Distinct-insert :
      (k : Key) (v : V) (m : List (Key × V)) → Distinct m → Distinct (insert k v m)
  Distinct-insert k v [] d = (refl, tt)
  Distinct-insert k v ((j, w) ∷ m) d =
      ground (arith, Distinct-insert k v m, lookup-insert k j v m, key_eq_sym k j)

  -- The values collected, over what the result held before.
  pub lookup-collect {κ} :
      {W : Type κ} (f : V → W) (j : Key) (m : List (Key × V)) (result : List (Key × W))
      → Distinct m
      → lookup j (collect f m result)
        ≡ elim (lookup j m) [ none ↦ lookup j result | some v ↦ some (f v) ]
  lookup-collect f j [] result d = refl
  lookup-collect f j ((k, v) ∷ m) result d = ground (
    arith,
    lookup-collect f j m (insert k (f v) result),
    lookup-insert k j (f v) result,
    key_eq→eq j k,
  )

pub Distinct-map_values :
    {V W : Type 0} (f : V → W) (m : List (Key × V)) → Distinct m → Distinct (map_values f m)
Distinct-map_values f [] d = tt
Distinct-map_values f ((k, v) ∷ m) d =
    (rw (lookup-map_values f k m, d.0) refl, Distinct-map_values f m d.1)
