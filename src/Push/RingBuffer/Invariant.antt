-- ===== src/Push/RingBuffer/Invariant.antt =====
-- The representation invariant of the ring buffer, and what establishes and keeps it.
use go_oam.Base.{
  ◌+◌, ◌%◌, ◌≤◌, ◌<◌, ◌≡◌, ◌⊎◌, inl, some, arith, length, length-set, length-replicate, mod_step,
  mod_step_round, ℤ, pos, negsuc,
}
use go_oam.Push.RingBuffer.{RingBuffer, new_ring_buffer, push, pushed, clear}

-- A buffer that can be read: its array has its size, and its elements lie in the array.
pub record IsReadable {ℓ} {A : Type ℓ} (rb : RingBuffer A) : Type 0 where
  pub full_array : length rb.items ≡ rb.size
  pub nonempty : 0 < rb.size
  pub head_in : rb.head < rb.size
  pub count_in : rb.count ≤ rb.size
  pub tail_after :
      (rb.tail ≡ (rb.head + rb.count) % rb.size)
      ⊎ ((rb.tail ≡ rb.size) × (rb.head ≡ 0) × (rb.count ≡ rb.size))

-- A buffer that can also be written: its tail is an index.
pub record IsValid {ℓ} {A : Type ℓ} (rb : RingBuffer A) : Type 0 where
  pub full_array : length rb.items ≡ rb.size
  pub nonempty : 0 < rb.size
  pub head_in : rb.head < rb.size
  pub count_in : rb.count ≤ rb.size
  pub tail_after : rb.tail ≡ (rb.head + rb.count) % rb.size

module _ {ℓ} {A : Type ℓ} where
  pub IsValid-IsReadable : {rb : RingBuffer A} → IsValid rb → IsReadable rb
  IsValid-IsReadable v = record {
    full_array = v.full_array;
    nonempty = v.nonempty;
    head_in = v.head_in;
    count_in = v.count_in;
    tail_after = inl v.tail_after;
  }

  pub new_ring_buffer-IsValid : (z : A) (size : ℤ) → IsValid (new_ring_buffer z size)
  unfolding new_ring_buffer
  new_ring_buffer-IsValid z (pos n) = ground (arith, length-replicate n z, length-replicate 1024 z)
  new_ring_buffer-IsValid z (negsuc n) = ground (arith, length-replicate 1024 z)

  pub clear-IsValid : {rb : RingBuffer A} → IsReadable rb → IsValid (clear rb)
  unfolding clear
  clear-IsValid v = ground arith

  -- The tail of a valid buffer is an index of its array.
  pub tail_in_range : (rb : RingBuffer A) → IsValid rb → rb.tail < length rb.items
  tail_in_range rb v = omega arith

  pub pushed-IsValid : (rb : RingBuffer A) (x : A) → IsValid rb → IsValid (pushed rb x)
  unfolding pushed
  pushed-IsValid rb x v = ground (
    arith,
    length-set rb.items rb.tail x,
    mod_step rb.size rb.head rb.tail rb.count,
    mod_step_round rb.size rb.head rb.tail,
  )

  pub push-eq-pushed : (rb : RingBuffer A) (x : A) → IsValid rb → push rb x ≡ some (pushed rb x)
  unfolding push
  push-eq-pushed rb x v = ground (arith, tail_in_range rb v)

  pub size-pushed : (rb : RingBuffer A) (x : A) → (pushed rb x).size ≡ rb.size
  unfolding pushed
  size-pushed rb x = ground arith
