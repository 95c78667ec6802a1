-- ===== src/File/Range.antt =====
-- pkg/file/upload.go: `ReadStream`, of a file that can be opened.
mod Tests
use go_oam.Base.{
  ℕ, zero, suc, ◌+◌, ◌-◌, ◌≤◌, ◌<◌, min, ◌≡◌, refl, sym, ap, ◌∙◌, Bool, true, false, ◌||◌, ap₂,
  List, [], ◌∷◌, ◌++◌, arith, ltb, leb, ◌==◌, if◌then◌else◌, length, take, drop, length-take,
  length-drop, take-all, take-append-drop, Key, ℤ, pos, negsuc,
}

pub record FileRange : Type 0 where
  pub content : Key
  pub start : ℕ
  pub end_at : ℤ
  pub total : ℕ

-- A start below 0 is 0, and an end of 0, below it or past the file is the last byte.
unfoldable pub first_of : ℤ → ℕ
first_of (pos n) = n
first_of (negsuc n) = 0

unfoldable pub last_of : ℤ → ℕ → ℕ
last_of (pos n) total = if (n == 0) || leb total n then total - 1 else n
last_of (negsuc n) total = total - 1

unfoldable pub read_stream : Key → ℤ → ℤ → FileRange
unfolding first_of last_of
read_stream bytes start end_at =
    let total = length bytes in
    let from = first_of start in
    let last = last_of end_at total in
    let first = if ltb last from then last else from in
    if total == 0
    then record { content = []; start = 0; end_at = negsuc 0; total = 0 }
    else (if leb total from
        then record { content = []; start = total; end_at = pos (total - 1); total = total }
        else record {
          content = take (last - first + 1) (drop first bytes);
          start = first;
          end_at = pos last;
          total = total;
        })

last_in : (z : ℤ) (n : ℕ) → 0 < n → last_of z n < n
unfolding last_of
last_in (pos k) n h = ground arith
last_in (negsuc k) n h = omega (arith, h)

-- A range of a file that is not empty, from a start within the file: what is returned lies within the
-- file, as many bytes as its first and its last place say.
pub read_stream_lem :
    (bytes : Key) (start end_at : ℤ)
    → first_of start < length bytes
    → (let r = read_stream bytes start end_at in
        (last : ℕ) × (r.end_at ≡ pos last)
        × (r.start ≤ last)
        × (last < length bytes)
        × (length r.content + r.start ≡ last + 1))
unfolding read_stream
read_stream_lem bytes start end_at h =
    let last = last_of end_at (length bytes) in
    let first = if ltb last (first_of start) then last else first_of start in
    let some_bytes : length bytes == 0 ≡ false = ground arith in
    let inside : leb (length bytes) (first_of start) ≡ false = ground arith in
    let ordered : first ≤ last = ground arith in
    let below : last < length bytes = last_in end_at (length bytes) (omega (arith, h)) in
    let size = length-take (last - first + 1) (drop first bytes) in
    let left = length-drop first bytes in
    rw (some_bytes, inside) (last, refl, ordered, below, omega (arith, size, left, ordered, below))

between :
    (bytes : Key) (start end_at : ℤ) (from last : ℕ)
    → first_of start ≡ from
    → last_of end_at (length bytes) ≡ last
    → from ≤ last
    → from < length bytes
    → (read_stream bytes start end_at).content ≡ take (last - from + 1) (drop from bytes)
unfolding read_stream
between bytes start end_at from last f l o h =
    let some_bytes : length bytes == 0 ≡ false = ground arith in
    let inside : leb (length bytes) from ≡ false = ground arith in
    let ordered : ltb last from ≡ false = ground arith in
    rw (f, l, some_bytes, inside, ordered) refl

-- A file that is read up to a place, which is not its first, and from there to its end, is read whole.
pub read_stream-halves :
    (bytes : Key) (k : ℕ)
    → 0 < k
    → suc k < length bytes
    → (read_stream bytes (pos 0) (pos k)).content
        ++ (read_stream bytes (pos (suc k)) (pos 0)).content
      ≡ bytes
unfolding first_of last_of
read_stream-halves bytes k p h =
    let rest = drop (suc k) bytes in
    let first_half : (read_stream bytes (pos 0) (pos k)).content ≡ take (suc k) bytes =
      between bytes (pos 0) (pos k) 0 k refl (ground arith) (omega arith) (omega (arith, h))
      ∙ ap (λ n. take n bytes) {y = suc k} (omega arith) in
    let second_half : (read_stream bytes (pos (suc k)) (pos 0)).content ≡ rest =
      between bytes (pos (suc k)) (pos 0) (suc k) (length bytes - 1) refl (ground arith)
        (omega (arith, h)) h
      ∙ take-all (length bytes - 1 - suc k + 1) rest
          (omega (arith, length-drop (suc k) bytes, h)) in
    ap₂ (λ x y. x ++ y) first_half second_half ∙ take-append-drop (suc k) bytes
