-- ===== src/Base/Keys.antt =====
-- A Go string as the list of its bytes, and the test of two strings for equality.
use Prim.Native.Nat.{ℕ}
use mathlib.Core.Path.{◌≡◌, refl}
use mathlib.Core.Bool.{Bool, true, false, ◌&&◌}
use mathlib.Core.Logic.{◌↔◌}
use mathlib.Core.List.{List, [], ◌∷◌}
use native.Mathlib.Omega.{arith}
use go_oam.Base.Tests.{◌==◌}

abbrev pub Key : Type 0
Key = List ℕ

abbrev pub key_eq : Key → Key → Bool
key_eq [] [] = true
key_eq [] (y ∷ ys) = false
key_eq (x ∷ xs) [] = false
key_eq (x ∷ xs) (y ∷ ys) = (x == y) && key_eq xs ys

pub key_eq_refl : (k : Key) → key_eq k k ≡ true
key_eq_refl [] = refl
key_eq_refl (x ∷ xs) = ground (arith, key_eq_refl xs)

pub key_eq→eq : (k j : Key) → key_eq k j ≡ true → k ≡ j
key_eq→eq [] [] h = refl
key_eq→eq [] (y ∷ ys) h = cc
key_eq→eq (x ∷ xs) [] h = cc
key_eq→eq (x ∷ xs) (y ∷ ys) h = ground (arith, key_eq→eq xs ys)

pub key_eq_iff : (k j : Key) → (key_eq k j ≡ true) ↔ (k ≡ j)
key_eq_iff k j = (key_eq→eq k j, λ e. rw e (key_eq_refl j))

pub key_eq_sym : (k j : Key) → key_eq k j ≡ key_eq j k
key_eq_sym [] [] = refl
key_eq_sym [] (y ∷ ys) = refl
key_eq_sym (x ∷ xs) [] = refl
key_eq_sym (x ∷ xs) (y ∷ ys) = ground (arith, key_eq_sym xs ys)
