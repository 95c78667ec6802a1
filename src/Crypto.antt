-- ===== src/Crypto.antt =====
-- pkg/crypto/aes.go: AES-CBC with PKCS#7 padding. The block cipher and the random source are not
-- part of the repository: they are arguments, with the laws that the packages document.
pub mod Padding
pub mod RoundTrip
mod Tests
use go_oam.Base.{
  ℕ, ◌+◌, ◌-◌, ◌%◌, ◌≡◌, Bool, true, false, not, ◌&&◌, ◌||◌, Option, none, some, List, [], ◌∷◌,
  ◌++◌, ◌⊎◌, inl, inr, ltb, ◌==◌, if◌then◌else◌, length, get_or, take, drop, replicate,
}

pub data CryptoError : Type 0 where
  new_cipher : CryptoError
  generate_iv : CryptoError
  too_short : CryptoError
  not_aligned : CryptoError
  empty_plaintext : CryptoError
  invalid_padding : CryptoError
  invalid_padding_bytes : CryptoError

-- `aes.BlockSize`
abbrev pub block_size : ℕ
block_size = 16

-- Which keys `aes.NewCipher` accepts, and `CryptBlocks` of the two modes of `crypto/cipher`.
pub record Cipher : Type 0 where
  pub accepts : List ℕ → Bool
  pub encrypt : List ℕ → List ℕ → List ℕ → List ℕ
  pub decrypt : List ℕ → List ℕ → List ℕ → List ℕ

-- On whole blocks, decryption under the same key and vector undoes encryption, which keeps the
-- length.
pub record CipherLaws (c : Cipher) : Type 0 where
  pub inverse :
      (key iv plain : List ℕ)
      → length plain % block_size ≡ 0
      → c.decrypt key iv (c.encrypt key iv plain) ≡ plain
  pub same_length :
      (key iv plain : List ℕ)
      → length plain % block_size ≡ 0
      → length (c.encrypt key iv plain) ≡ length plain

-- A byte is what is left of a number by 256.
unfoldable pub pkcs7_pad : List ℕ → ℕ → List ℕ
pkcs7_pad bytes size =
    let padding = size - length bytes % size in bytes ++ replicate padding (padding % 256)

-- The loop over the padding.
unfoldable pub all_bytes : ℕ → List ℕ → Bool
all_bytes n [] = true
all_bytes n (b ∷ rest) = (b == n) && all_bytes n rest

unfoldable pub pkcs7_unpad : List ℕ → CryptoError ⊎ List ℕ
unfolding all_bytes
pkcs7_unpad bytes =
    let pad_len = get_or bytes (length bytes - 1) 0 in
    if length bytes == 0
    then inl empty_plaintext
    else (if (pad_len == 0) || ltb block_size pad_len || ltb (length bytes) pad_len
        then inl invalid_padding
        else (if all_bytes (pad_len % 256) (drop (length bytes - pad_len) bytes)
            then inr (take (length bytes - pad_len) bytes)
            else inl invalid_padding_bytes))

-- `random` is the vector that is read, or `none` if the source fails.
unfoldable pub aes_encrypt : Cipher → Option (List ℕ) → List ℕ → List ℕ → CryptoError ⊎ List ℕ
unfolding pkcs7_pad
aes_encrypt c random plaintext key =
    if c.accepts key
    then elim random [
      | none ↦ inl generate_iv
      | some iv ↦ inr (iv ++ c.encrypt key iv (pkcs7_pad plaintext block_size))
    ]
    else inl new_cipher

unfoldable pub aes_decrypt : Cipher → List ℕ → List ℕ → CryptoError ⊎ List ℕ
unfolding pkcs7_unpad
aes_decrypt c ciphertext key =
    let iv = take block_size ciphertext in
    let blocks = drop block_size ciphertext in
    if ltb (length ciphertext) block_size
    then inl too_short
    else (if c.accepts key
        then (if (length blocks == 0) || not (length blocks % block_size == 0)
            then inl not_aligned
            else pkcs7_unpad (c.decrypt key iv blocks))
        else inl new_cipher)
