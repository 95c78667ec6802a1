-- ===== src/Push/History/Tests.antt =====
-- Histories on concrete inputs.
use go_oam.Base.{ℕ, [], ◌∷◌, arith, pos, Key}
use go_oam.Push.RingBuffer.{RingBuffer}
use go_oam.Push.RingBuffer.Invariant.{IsValid, IsValid-IsReadable}
use go_oam.Push.History.{History}
use go_oam.Push.History.View.{AllReadable, AllValid}

abbrev alarm : Key
alarm = 97 ∷ 108 ∷ []

abbrev ring : RingBuffer ℕ
ring = record { items = 4 ∷ 2 ∷ 3 ∷ []; size = 3; head = 1; tail = 1; count = 3 }

abbrev used : History ℕ
used = record { buffers = (alarm, ring) ∷ []; max_size = pos 3 }

ring-IsValid : IsValid ring
ring-IsValid = omega arith

used-AllValid : AllValid used
used-AllValid = (ring-IsValid, tt)

used-AllReadable : AllReadable used
used-AllReadable = (IsValid-IsReadable ring-IsValid, tt)

abbrev resized : History ℕ
resized = record {
  buffers = (alarm, record { items = 3 ∷ 4 ∷ []; size = 2; head = 0; tail = 2; count = 2 }) ∷ [];
  max_size = pos 2;
}
