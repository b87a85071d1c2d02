-- ===== src/ProviderService/Encryption.antt =====
-- internal/service/provider/encryption.go. The cipher and the encoding are the environment's; the
-- bytes are the nonce, of 12 bytes, and what Seal appends to it.
pub mod RoundTrip
use goauth_server.Prelude.{
  ℕ, String, Bool, true, false, ◌||◌, ◌==◌, ltb, Option, none, some, List, ◌++◌, if◌then◌else◌,
}
use goauth_server.Environment.{Environment}
use goauth_server.Exec.{
  Error, Result, ok, err, M, failure, wrap, ◌>>=◌, ◌>>◌, pure, guard, lift_option, map_error, ask,
}
use goauth_server.Repository.Pages.{count, take, drop}

-- the lengths of a key that aes.NewCipher takes
abbrev pub valid_key : List ℕ → Bool
valid_key key = count key == 16 || count key == 24 || count key == 32

module _ (e : Environment) (key : List ℕ) where
  unfoldable pub encrypt : String → M String
  encrypt plaintext = do
    guard (valid_key key) (failure "creating cipher")
    drawn ← ask e λ n. e.random n 12
    nonce ← lift_option (failure "generating nonce") drawn
    pure (e.base64_url_encode (nonce ++ e.gcm_seal key nonce plaintext))

  abbrev pub open_bytes : List ℕ → Option String
  open_bytes data_ = e.gcm_open key (take 12 data_) (drop 12 data_)

  abbrev pub opened : Option String → Result String
  opened none = err (failure "decrypting ciphertext")
  opened (some plaintext) = ok plaintext

  abbrev pub decrypt_bytes : Option (List ℕ) → Result String
  decrypt_bytes none = err (failure "decoding ciphertext")
  decrypt_bytes (some bytes) =
      if valid_key key
      then if ltb (count bytes) 12
        then err (failure "ciphertext too short")
        else opened (open_bytes bytes)
      else err (failure "creating cipher")

  unfoldable pub decrypt : String → Result String
  decrypt ciphertext = decrypt_bytes (e.base64_url_decode ciphertext)
