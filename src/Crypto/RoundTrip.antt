-- ===== src/Crypto/RoundTrip.antt =====
-- Decryption undoes encryption.
use go_oam.Base.{
  ℕ, ◌%◌, ◌≤◌, ◌≡◌, refl, ap, ◌∙◌, inr, true, false, not, ◌||◌, some, List, ◌++◌, arith, ltb, ◌==◌,
  length, take, drop, length-append, subst,
}
use go_oam.Crypto.{block_size, Cipher, CipherLaws, pkcs7_pad, pkcs7_unpad, aes_encrypt, aes_decrypt}
use go_oam.Crypto.Padding.{pkcs7_unpad-pkcs7_pad, take-append, drop-append, length-pkcs7_pad}

module _ (c : Cipher) (laws : CipherLaws c) where
  decrypted :
      (key iv blocks : List ℕ)
      → c.accepts key ≡ true
      → length iv ≡ block_size
      → 1 ≤ length blocks
      → length blocks % block_size ≡ 0
      → aes_decrypt c (iv ++ blocks) key ≡ pkcs7_unpad (c.decrypt key iv blocks)
  unfolding aes_decrypt
  decrypted key iv blocks ok one some_there whole =
      let front : take block_size (iv ++ blocks) ≡ iv =
        subst (λ n. take n (iv ++ blocks) ≡ iv) one (take-append iv blocks) in
      let back : drop block_size (iv ++ blocks) ≡ blocks =
        subst (λ n. drop n (iv ++ blocks) ≡ blocks) one (drop-append iv blocks) in
      let long : ltb (length (iv ++ blocks)) block_size ≡ false =
        ground (arith, length-append iv blocks) in
      let aligned : (length blocks == 0) || not (length blocks % block_size == 0) ≡ false =
        ground arith in
      rw (front, back, long, ok, aligned) refl

  -- Under a key that the cipher accepts and a vector of one block, encryption succeeds, and
  -- decryption of its result under the same key returns the plaintext.
  pub aes_decrypt-aes_encrypt :
      (plaintext key iv : List ℕ)
      → c.accepts key ≡ true
      → length iv ≡ block_size
      → (ciphertext : List ℕ) × (aes_encrypt c (some iv) plaintext key ≡ inr ciphertext)
        × (aes_decrypt c ciphertext key ≡ inr plaintext)
  unfolding aes_encrypt aes_decrypt
  aes_decrypt-aes_encrypt plaintext key iv ok one =
      let padded = pkcs7_pad plaintext block_size in
      let blocks = c.encrypt key iv padded in
      let (whole, some_there) = length-pkcs7_pad plaintext in
      let same = laws.same_length key iv padded whole in
      (
        iv ++ blocks,
        rw ok refl,
        decrypted key iv blocks ok one (omega arith) (omega arith)
            ∙ ap pkcs7_unpad (laws.inverse key iv padded whole)
            ∙ pkcs7_unpad-pkcs7_pad plaintext,
      )
