-- ===== src/Base/Sets.antt =====
-- Which keys a map has, and how many.
use Prim.Native.Nat.{suc}
use mathlib.Core.Path.{◌≡◌, refl}
use mathlib.Core.Bool.{Bool, true, false}
use mathlib.Core.Option.{Option, none, some}
use mathlib.Core.List.{List, [], ◌∷◌}
use native.Mathlib.Omega.{arith}
use go_oam.Base.Tests.{if◌then◌else◌}
use go_oam.Base.Lists.{length}
use go_oam.Base.Keys.{Key, key_eq, key_eq→eq}
use go_oam.Base.Maps.{lookup, insert, delete, lookup-delete, lookup-insert, Distinct}

abbrev pub is_some {ℓ} : {A : Type ℓ} → Option A → Bool
is_some none = false
is_some (some a) = true

abbrev pub has {ℓ} : {V : Type ℓ} → Key → List (Key × V) → Bool
has k m = is_some (lookup k m)

module _ {V : Type 0} where
  pub has-insert :
      (k j : Key) (v : V) (m : List (Key × V))
      → has j (insert k v m) ≡ (if key_eq j k then true else has j m)
  has-insert k j v m = ground (arith, lookup-insert k j v m)

  pub has-delete :
      (k j : Key) (m : List (Key × V))
      → has j (delete k m) ≡ (if key_eq j k then false else has j m)
  has-delete k j m = ground (arith, lookup-delete k j m)

  pub Distinct-delete : (k : Key) (m : List (Key × V)) → Distinct m → Distinct (delete k m)
  Distinct-delete k [] d = tt
  Distinct-delete k ((j, w) ∷ m) d = ground (arith, Distinct-delete k m, lookup-delete k j m)

  pub length-insert :
      (k : Key) (v : V) (m : List (Key × V))
      → length (insert k v m) ≡ (if has k m then length m else suc (length m))
  length-insert k v [] = refl
  length-insert k v ((j, w) ∷ m) = ground (arith, length-insert k v m)

  delete-absent : (k : Key) (m : List (Key × V)) → has k m ≡ false → delete k m ≡ m
  delete-absent k [] h = refl
  delete-absent k ((j, w) ∷ m) h = ground (arith, delete-absent k m)

  pub length-delete :
      (k : Key) (m : List (Key × V))
      → Distinct m
      → has k m ≡ true
      → suc (length (delete k m)) ≡ length m
  length-delete k [] d h = ground arith
  length-delete k ((j, w) ∷ m) d h =
      ground (arith, length-delete k m, delete-absent k m, key_eq→eq k j)
