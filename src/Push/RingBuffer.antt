-- ===== src/Push/RingBuffer.antt =====
-- push/history/ringbuffer.go: the ring buffer of a history. The mutex makes each method one step,
-- so a method is a function of the buffer; `none` is a run-time panic (an index out of range).
-- A `size` argument is a Go `int`; indices are at least 0 and small, so they are plain numbers.
pub mod Invariant
pub mod Contents
pub mod Refine
pub mod Resize
mod Tests
use go_oam.Base.{
  ℕ, ◌+◌, ◌-◌, ◌%◌, Bool, ◌&&◌, Option, none, some, List, [], ltb, leb, ◌==◌, if◌then◌else◌, ◌>>=◌,
  length, set, drop, replicate, ℤ, pos, negsuc, is_positive, slice, slice_from, copy, copy_at,
}

-- `head` is the oldest element, `tail` the place of the next write.
pub record RingBuffer {ℓ} (A : Type ℓ) : Type ℓ where
  pub items : List A
  pub size : ℕ
  pub head : ℕ
  pub tail : ℕ
  pub count : ℕ

-- The number of `x`, where it is positive.
abbrev pub positive_or : ℕ → ℤ → ℕ
positive_or d (pos n) = if n == 0 then d else n
positive_or d (negsuc n) = d

-- Go fills what `make` allocates with the zero value of the element type.
module _ {ℓ} {A : Type ℓ} (zero_value : A) where
  unfoldable pub new_ring_buffer : ℤ → RingBuffer A
  new_ring_buffer size =
      let n = positive_or 1024 size in
      record { items = replicate n zero_value; size = n; head = 0; tail = 0; count = 0 }

  unfoldable pub get_all_unsafe : RingBuffer A → Option (List A)
  get_all_unsafe rb =
      if rb.count == 0
      then some []
      else (let result = replicate rb.count zero_value in
          if ltb rb.head rb.tail
          then (do first ← slice rb.items rb.head rb.tail; some (copy result first))
          else (do
            first ← slice_from rb.items rb.head
            second ← slice rb.items 0 rb.tail
            copy_at (copy result first) (rb.size - rb.head) second))

  -- `GetAll` takes the read lock and then does what `getAllUnsafe` does.
  unfoldable pub get_all : RingBuffer A → Option (List A)
  unfolding get_all_unsafe
  get_all rb = get_all_unsafe rb

  -- The last `n` elements, with `n` already limited to the count.
  unfoldable pub read_last : RingBuffer A → ℕ → Option (List A)
  read_last rb n =
      let result = replicate n zero_value in
      let start_idx = (rb.tail + rb.size - n) % rb.size in
      if leb (start_idx + n) rb.size
      then (do first ← slice rb.items start_idx (start_idx + n); some (copy result first))
      else (do
        first ← slice_from rb.items start_idx
        second ← slice rb.items 0 (n - (rb.size - start_idx))
        copy_at (copy result first) (rb.size - start_idx) second)

  unfoldable pub get_last : RingBuffer A → ℤ → Option (List A)
  unfolding read_last
  get_last rb (negsuc n) = some []
  get_last rb (pos n) =
      if n == 0
      then some []
      else (if rb.count == 0
          then some []
          else read_last rb (if leb rb.count n then rb.count else n))

  -- The buffer with a new array of `new_size` elements, which begins with the kept ones.
  abbrev pub reloaded : ℕ → List A → RingBuffer A
  reloaded new_size kept = record {
    items = copy (replicate new_size zero_value) kept;
    size = new_size;
    head = 0;
    tail = length kept;
    count = length kept;
  }

  -- The new array and the fields that go with it, for a size that differs.
  unfoldable pub refit : RingBuffer A → ℕ → Option (RingBuffer A)
  refit rb new_size =
      if rb.count == 0
      then some (record {
        items = replicate new_size zero_value;
        size = new_size;
        head = 0;
        tail = 0;
        count = 0;
      })
      else (do
        all ← get_all_unsafe rb
        kept ←
            (if ltb new_size (length all) then slice_from all (length all - new_size) else some all)
        some (reloaded new_size kept))

  unfoldable pub resize : RingBuffer A → ℤ → Option (RingBuffer A)
  unfolding refit
  resize rb (negsuc n) = some rb
  resize rb (pos n) = if n == 0 then some rb else (if n == rb.size then some rb else refit rb n)

module _ {ℓ} {A : Type ℓ} where
  -- What `Push` does behind the write, below the capacity and at it.
  abbrev pub appended : RingBuffer A → A → RingBuffer A
  appended rb item = record rb {
    items = set rb.items rb.tail item;
    tail = (rb.tail + 1) % rb.size;
    count = rb.count + 1;
  }

  abbrev pub overwritten : RingBuffer A → A → RingBuffer A
  overwritten rb item = record rb {
    items = set rb.items rb.tail item;
    tail = (rb.tail + 1) % rb.size;
    head = (rb.head + 1) % rb.size;
  }

  unfoldable pub pushed : RingBuffer A → A → RingBuffer A
  pushed rb item = if ltb rb.count rb.size then appended rb item else overwritten rb item

  -- `data[tail] = item` faults out of range; `x % 0` cannot be reached, since then `data` is empty.
  unfoldable pub push : RingBuffer A → A → Option (RingBuffer A)
  push rb item = if ltb rb.tail (length rb.items) then some (pushed rb item) else none

  unfoldable pub count_of : RingBuffer A → ℕ
  count_of rb = rb.count

  unfoldable pub clear : RingBuffer A → RingBuffer A
  clear rb = record rb { head = 0; tail = 0; count = 0 }
