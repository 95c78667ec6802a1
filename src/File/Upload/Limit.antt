-- ===== src/File/Upload/Limit.antt =====
-- The limit on the size of a file.
use go_oam.Base.{
  ℕ, ◌+◌, ◌-◌, ◌%◌, ◌^◌, ◌≤◌, ◌<◌, ◌≡◌, refl, ap, ◌∙◌, inl, inr, true, false, none, some, [], arith,
  ltb, leb, if◌then◌else◌, length, take, length-take, take-all, Bool-cases, Option-cases, Option,
  Key, ℤ, pos,
}
use go_oam.File.Upload.{FileUpload, max_size_bytes, read_limited, stream, accepted}

max_size_bytes_lem : (n : ℕ) → n < 2 ^ 43 → max_size_bytes (pos n) < 2 ^ 63 - 1
unfolding max_size_bytes
max_size_bytes_lem n h = ground arith

read_limited_lem :
    (src : Key) (limit : ℕ) → limit < 2 ^ 63 - 1 → read_limited src limit ≡ take (limit + 1) src
unfolding read_limited
read_limited_lem src limit h =
    let wraps : (limit + 1) % 2 ^ 64 ≡ limit + 1 = omega (arith, h) in
    let low : leb (2 ^ 63) (limit + 1) ≡ false = ground (arith, h) in rw (wraps, low) refl

pub stream_lem :
    (src : Key) (limit : ℕ)
    → limit < 2 ^ 63 - 1
    → stream src limit ≡ (if leb (length src) limit then some src else none)
unfolding stream
stream_lem src limit h = elim (Bool-cases (leb (length src) limit)) [
  | inl fits ↦
      let whole : read_limited src limit ≡ src =
        read_limited_lem src limit h ∙ take-all (limit + 1) src (ground arith) in
      let within : ltb limit (length src) ≡ false = ground arith in rw (fits, whole, within) refl
  | inr over ↦
      let size : length (read_limited src limit) ≡ limit + 1 =
        ap (λ k. length k) (read_limited_lem src limit h)
        ∙ length-take (limit + 1) src
        ∙ ground arith in
      let past : ltb limit (length (read_limited src limit)) ≡ true = ground (arith, size) in
      rw (over, past) refl
]

-- What an upload holds: what its reader reads, or else its data.
abbrev pub held : FileUpload → Option Key
held u = elim u.reader [ some src ↦ some src | none ↦ u.bytes ]

-- Below the greatest limit, what is accepted is what the upload holds, and within the limit.
pub accepted-held :
    (max_size : ℤ) (u : FileUpload) (content : Key)
    → max_size_bytes max_size < 2 ^ 63 - 1
    → accepted max_size u ≡ some content
    → (held u ≡ some content) × (length content ≤ max_size_bytes max_size)
unfolding accepted
accepted-held max_size u content h e = elim (Option-cases u.reader) [
  | inr (src, reads) ↦ ground (arith, reads, e, stream_lem src (max_size_bytes max_size) h)
  | inl no_reader ↦ elim (Option-cases u.bytes) [
    | inl no_bytes ↦ absurd (ground (arith, no_reader, no_bytes, e))
    | inr (bytes, there) ↦ ground (arith, no_reader, there, e)
  ]
]

-- Up to a limit of 2 ^ 43 - 1 megabytes, a file is accepted from a reader just when it is accepted as
-- bytes, and with the same content: when it is no longer than the limit.
pub accepted_lem :
    (n : ℕ) (bytes : Key)
    → n < 2 ^ 43
    → (accepted (pos n) (record { reader = some bytes; bytes = none })
        ≡ accepted (pos n) (record { reader = none; bytes = some bytes }))
      × (accepted (pos n) (record { reader = some bytes; bytes = none })
          ≡ (if leb (length bytes) (max_size_bytes (pos n)) then some bytes else none))
unfolding accepted
accepted_lem n bytes h =
    let read = stream_lem bytes (max_size_bytes (pos n)) (max_size_bytes_lem n h) in
    (read ∙ ground arith, read)

greatest : (n : ℕ) → 2 ^ 43 ≤ n → max_size_bytes (pos n) ≡ 2 ^ 63 - 1
unfolding max_size_bytes
greatest n h = ground arith

nothing_read : (bytes : Key) → stream bytes (2 ^ 63 - 1) ≡ some []
unfolding stream read_limited
nothing_read bytes = refl

-- From 2 ^ 43 megabytes on the bound of the reader wraps: whatever the reader holds, an empty file is
-- accepted in its place.
pub accepted-wraps :
    (n : ℕ) (bytes : Key)
    → 2 ^ 43 ≤ n
    → accepted (pos n) (record { reader = some bytes; bytes = none }) ≡ some []
unfolding accepted
accepted-wraps n bytes h = ap (stream bytes) (greatest n h) ∙ nothing_read bytes
