-- ===== src/Push/RingBuffer/Tests.antt =====
-- The ring buffer on concrete inputs.
use go_oam.Base.{
  ℕ, ◌≡◌, refl, some, none, [], ◌∷◌, arith, ◌>>=◌, pos, slice, slice_from, copy, copy_at,
}
use go_oam.Push.RingBuffer.{
  RingBuffer, new_ring_buffer, push, pushed, get_all, get_last, resize, refit, get_all_unsafe,
}
use go_oam.Push.RingBuffer.Invariant.{IsValid, IsValid-IsReadable}
use go_oam.Push.RingBuffer.Contents.{contents, get_last_lem}
use go_oam.Push.RingBuffer.Refine.{push_lem}
use go_oam.Push.RingBuffer.Resize.{push-resize_shrunk}

-- Three places, written 1, 2, 3, 4: the 1 is gone.
abbrev full : RingBuffer ℕ
full = record { items = 4 ∷ 2 ∷ 3 ∷ []; size = 3; head = 1; tail = 1; count = 3 }

full-IsValid : IsValid full
full-IsValid = omega arith

full_run :
    (do a ← push (new_ring_buffer 0 (pos 3)) 1; b ← push a 2; c ← push b 3; push c 4) ≡ some full
unfolding push pushed new_ring_buffer
full_run = refl

full_read : (get_all 0 full ≡ some (2 ∷ 3 ∷ 4 ∷ [])) × (get_last 0 full (pos 2) ≡ some (3 ∷ 4 ∷ []))
unfolding get_all get_last slice slice_from copy copy_at
full_read = (refl, refl)

get_last_lem_example : get_last 0 full (pos 2) ≡ some (3 ∷ 4 ∷ [])
get_last_lem_example = get_last_lem 0 full (pos 2) (IsValid-IsReadable full-IsValid)

push_lem_example :
    (rb' : RingBuffer ℕ) × (push full 5 ≡ some rb')
    × IsValid rb'
    × (rb'.size ≡ 3)
    × (contents 0 rb' ≡ 3 ∷ 4 ∷ 5 ∷ [])
push_lem_example = push_lem 0 full 5 full-IsValid

abbrev grown : RingBuffer ℕ
grown = record { items = 2 ∷ 3 ∷ 4 ∷ 0 ∷ []; size = 4; head = 0; tail = 3; count = 3 }

abbrev shrunk : RingBuffer ℕ
shrunk = record { items = 3 ∷ 4 ∷ []; size = 2; head = 0; tail = 2; count = 2 }

push-resize_shrunk_example : push shrunk 5 ≡ none
unfolding resize refit get_all_unsafe slice slice_from copy copy_at
push-resize_shrunk_example =
    push-resize_shrunk 0 full shrunk 2 5 (IsValid-IsReadable full-IsValid) (omega arith)
      (omega arith) (omega arith) refl
