-- ===== src/Push/History.antt =====
-- push/history/history.go: one ring buffer for each key, made when the key is first used.
-- `sync.Map` and the buffer's lock make each method one step. The receiver is not nil.
pub mod View
pub mod Laws
mod Tests
use go_oam.Base.{
  ℕ, Bool, true, false, Option, none, some, List, [], ◌∷◌, ltb, ◌==◌, if◌then◌else◌, ◌>>=◌, ℤ, pos,
  negsuc, to_int32, Key, key_eq, lookup, insert, keys,
}
use go_oam.Push.RingBuffer
use go_oam.Push.RingBuffer.{RingBuffer, positive_or, new_ring_buffer, get_all, get_last}

-- `maxSize` is an `atomic.Int32`, 0 until it is set.
pub record History {ℓ} (A : Type ℓ) : Type ℓ where
  pub buffers : List (Key × RingBuffer A)
  pub max_size : ℤ

module _ {ℓ} {A : Type ℓ} where
  unfoldable pub new_history : ℤ → History A
  new_history (negsuc n) = record { buffers = []; max_size = pos 0 }
  new_history (pos n) = record { buffers = []; max_size = if n == 0 then pos 0 else to_int32 n }

  -- The pointer to a key's buffer is shared: a method on the buffer writes it back under the key.
  abbrev pub put_buffer : History A → Key → RingBuffer A → History A
  put_buffer h key rb = record h { buffers = insert key rb h.buffers }

  unfoldable pub keys_of : History A → List Key
  keys_of h = keys h.buffers

module _ {ℓ} {A : Type ℓ} (zero_value : A) where
  -- The buffer of a key, and the history with that buffer in it.
  unfoldable pub get_buffer : History A → Key → RingBuffer A × History A
  get_buffer h key = elim (lookup key h.buffers) [
    | some rb ↦ (rb, h)
    | none ↦
        let rb = new_ring_buffer zero_value (pos (positive_or 1024 h.max_size)) in
        (rb, put_buffer h key rb)
  ]

  -- The inner `none` is the nil slice.
  unfoldable pub list : History A → Key → ℤ → Option (History A × Option (List A))
  list h key (negsuc n) = some (h, none)
  list h key (pos n) = do
    let (rb, h') = get_buffer h key
    xs ← (if n == 0 then get_all zero_value rb else get_last zero_value rb (pos n))
    some (h', some xs)

  -- The loop over all buffers.
  unfoldable pub resize_all : ℤ → List (Key × RingBuffer A) → Option (List (Key × RingBuffer A))
  resize_all n [] = some []
  resize_all n ((key, rb) ∷ m) = do
    rb' ← RingBuffer.resize zero_value rb n
    m' ← resize_all n m
    some ((key, rb') ∷ m')

  unfoldable pub set_size : History A → ℤ → Option (History A)
  set_size h (negsuc n) = some h
  set_size h (pos n) = if n == 0 then some h else (do
    buffers ← resize_all (pos n) h.buffers
    some (record { buffers = buffers; max_size = to_int32 n }))

  unfoldable pub set_size_by_key : History A → Key → ℤ → Option (History A)
  set_size_by_key h key new_size = if key_eq key [] then some h else elim new_size [
    | negsuc n ↦ some h
    | pos n ↦ if n == 0 then some h else (do
      let (rb, h') = get_buffer h key
      rb' ← RingBuffer.resize zero_value rb (pos n)
      some (put_buffer h' key rb'))
  ]

  unfoldable pub clear : History A → Key → History A
  clear h key =
      if key_eq key []
      then h
      else (let (rb, h') = get_buffer h key in put_buffer h' key (RingBuffer.clear rb))

  unfoldable pub push : History A → Key → A → Option (History A)
  push h key r = do
    let (rb, h') = get_buffer h key
    rb' ← RingBuffer.push rb r
    some (put_buffer h' key rb')
