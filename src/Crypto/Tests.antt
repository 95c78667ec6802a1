-- ===== src/Crypto/Tests.antt =====
-- A cipher that leaves the blocks as they are obeys the laws.
use go_oam.Base.{ℕ, ◌≡◌, refl, inr, true, some, List, [], ◌∷◌, replicate}
use go_oam.Crypto.{Cipher, CipherLaws, aes_encrypt, aes_decrypt}
use go_oam.Crypto.RoundTrip.{aes_decrypt-aes_encrypt}

abbrev plain_cipher : Cipher
plain_cipher = record {
  accepts = λ key. true;
  encrypt = λ key iv plain. plain;
  decrypt = λ key iv blocks. blocks;
}

plain_cipher-CipherLaws : CipherLaws plain_cipher
plain_cipher-CipherLaws = record {
  inverse = λ key iv plain whole. refl;
  same_length = λ key iv plain whole. refl;
}

aes_decrypt-aes_encrypt_example :
    (ciphertext : List ℕ) × (aes_encrypt plain_cipher (some (replicate 16 7)) (1 ∷ 2 ∷ []) (5 ∷ [])
      ≡ inr ciphertext)
    × (aes_decrypt plain_cipher ciphertext (5 ∷ []) ≡ inr (1 ∷ 2 ∷ []))
aes_decrypt-aes_encrypt_example =
    aes_decrypt-aes_encrypt plain_cipher plain_cipher-CipherLaws (1 ∷ 2 ∷ []) (5 ∷ [])
      (replicate 16 7) refl refl
