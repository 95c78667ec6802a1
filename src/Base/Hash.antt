-- ===== src/Base/Hash.antt =====
-- FNV-1a over 32 bits, as `hash/fnv` computes it and as pkg/file/internal.go writes it out.
use Prim.Native.Nat.{ℕ, ◌*◌, ◌%◌, ◌^◌, bit_xor}
use mathlib.Core.List.{[], ◌∷◌}
use go_oam.Base.Keys.{Key}

abbrev pub fnv_offset : ℕ
fnv_offset = 2166136261

-- `hash ^= uint32(b); hash *= 16777619`
unfoldable pub fnv_step : ℕ → ℕ → ℕ
fnv_step hash b = bit_xor hash b * 16777619 % 2 ^ 32

unfoldable pub fnv_from : ℕ → Key → ℕ
unfolding fnv_step
fnv_from hash [] = hash
fnv_from hash (b ∷ bs) = fnv_from (fnv_step hash b) bs

unfoldable pub fnv32 : Key → ℕ
unfolding fnv_from
fnv32 key = fnv_from fnv_offset key
