-- ===== src/Server/Totp/Seal.antt =====
-- totp.rs: a sealed secret is opened with the key that sealed it.
use failsafe.Prelude.{◌≡◌, refl, String, some, ok, arith, Option-cases, inl, inr}
use failsafe.Prelude.Strings.{Unicode, Without, append, split_once-colon}
use failsafe.Server.Totp.{Bytes, Crypto, encrypt_secret, decrypt_secret}

-- What the code relies on: base64 has no colon and is read back, AES-GCM opens what it sealed, and
-- the bytes of a text are read back.
pub record CryptoLaws (crypto : Crypto) : Type 0 where
  pub base64_no_colon : (b : Bytes) → Without 58 (crypto.base64_encode b)
  pub base64_back : (b : Bytes) → crypto.base64_decode (crypto.base64_encode b) ≡ some b
  pub aes_back :
      (key nonce plain sealed : Bytes)
      → crypto.aes_encrypt key nonce plain ≡ some sealed
      → crypto.aes_decrypt key nonce sealed ≡ some plain
  pub utf8_back : (s : String) → crypto.from_utf8 (crypto.as_bytes s) ≡ some s

module _ (unicode : Unicode) (crypto : Crypto) (laws : CryptoLaws crypto) where
  -- A TOTP secret that was sealed without an error is opened again by the same key.
  pub decrypt_secret-encrypt_secret :
      (key : String) (nonce : Bytes) (plaintext stored : String)
      → encrypt_secret unicode crypto key nonce plaintext ≡ ok stored
      → decrypt_secret unicode crypto key stored ≡ ok plaintext
  unfolding encrypt_secret decrypt_secret
  decrypt_secret-encrypt_secret key nonce plaintext stored h =
      elim (Option-cases
        (crypto.aes_encrypt (crypto.sha256 key) nonce (crypto.as_bytes plaintext))) [
          | inl none_ ↦ absurd (ground (arith, none_, h))
          | inr (sealed, at) ↦
              let made : append (crypto.base64_encode nonce)
                    (append ":" (crypto.base64_encode sealed))
                  ≡ stored =
                ground (arith, at, h) in
              let cut =
                split_once-colon (crypto.base64_encode nonce) (crypto.base64_encode sealed)
                  (laws.base64_no_colon nonce) in
              rw (← made) (
                rw cut (
                  rw (laws.base64_back nonce) (
                    rw (laws.base64_back sealed) (
                      rw
                        (laws.aes_back (crypto.sha256 key) nonce (crypto.as_bytes plaintext) sealed
                          at)
                        (rw (laws.utf8_back plaintext) refl)))))
        ]
