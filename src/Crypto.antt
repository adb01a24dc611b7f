-- ===== src/Crypto.antt =====
-- internal/crypto/encrypt.go: passwords encrypted with AES-GCM, the nonce before the sealed text, in
-- base64. The packages aes, cipher, base64 and hex and the random numbers are parameters.
pub mod RoundTrip
pub mod Tests
use calbridge.Common.{
  ℕ, Text, ◌++◌, Option, none, some, Bool, true, false, ltb, eqb, not, length, take, drop,
  if◌then◌else◌,
}

-- cipher.AEAD: Seal with the nonce and the plaintext, and Open with the nonce and the sealed text.
pub record Gcm : Type 0 where
  pub seal : Text → Text → Text
  pub unseal : Text → Text → Option Text

-- aes.NewCipher with cipher.NewGCM, and the two codings.
pub record Library : Type 0 where
  pub new_gcm : Text → Option Gcm
  pub encode : Text → Text
  pub decode : Text → Option Text
  pub encode_hex : Text → Text

pub data Failure : Type 0 where
  invalid_key_size no_cipher no_random invalid_ciphertext decryption_failed : Failure

pub data Result : Type 0 where
  done : Text → Result
  refused : Failure → Result

abbrev pub key_size : ℕ
key_size = 32

abbrev pub nonce_size : ℕ
nonce_size = 12

pub data NewResult : Type 0 where
  encryptor : Gcm → NewResult
  not_made : Failure → NewResult

pub new_encryptor : Library → Text → NewResult
new_encryptor lib key =
    if not (eqb (length key) key_size)
    then not_made invalid_key_size
    else elim (lib.new_gcm key) [ none ↦ not_made no_cipher | some gcm ↦ encryptor gcm ]

-- `random` is what rand.Reader gives for the nonce, or `none` if it fails.
pub encrypt : Library → Gcm → Option Text → Text → Result
encrypt lib gcm none plaintext = refused no_random
encrypt lib gcm (some nonce) plaintext = done (lib.encode (nonce ++ gcm.seal nonce plaintext))

unfoldable pub opened : Option Text → Result
opened none = refused decryption_failed
opened (some plaintext) = done plaintext

-- Decrypt after base64.
unfoldable pub decrypt_bytes : Gcm → Option Text → Result
unfolding opened
decrypt_bytes gcm none = refused invalid_ciphertext
decrypt_bytes gcm (some ciphertext) =
    if ltb (length ciphertext) nonce_size
    then refused invalid_ciphertext
    else opened (gcm.unseal (take nonce_size ciphertext) (drop nonce_size ciphertext))

unfoldable pub decrypt : Library → Gcm → Text → Result
unfolding decrypt_bytes
decrypt lib gcm encoded = decrypt_bytes gcm (lib.decode encoded)

pub generate_key : Option Text → Result
generate_key none = refused no_random
generate_key (some key) = done key

-- Go on with the text, or stop with the error.
abbrev pub and_then : Result → (Text → Result) → Result
and_then (done t) f = f t
and_then (refused e) f = refused e

pub generate_key_hex : Library → Option Text → Result
unfolding generate_key
generate_key_hex lib random = and_then (generate_key random) (λ key. done (lib.encode_hex key))
