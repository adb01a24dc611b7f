-- ===== src/Crypto/Tests.antt =====
-- Encryption with a cipher that only marks the text.
use calbridge.Common.{◌≡◌, refl, Text, codes, [], ◌∷◌, Option, none, some}
use calbridge.Crypto.{Gcm, Library, done, encrypt, decrypt, decrypt_bytes, opened, and_then}
use calbridge.Crypto.RoundTrip.{Documented, decrypt-encrypt, Opens, decrypt-Opens}

abbrev pub unmark : Text → Text → Option Text
unmark nonce [] = none
unmark nonce (m ∷ t) = some t

abbrev pub marking : Gcm
marking = record { seal = λ nonce t. 7 ∷ t; unseal = unmark }

abbrev pub library : Library
library = record {
  new_gcm = λ key. some marking;
  encode = λ t. t;
  decode = λ t. some t;
  encode_hex = λ t. t;
}

marking-Documented : Documented library marking
marking-Documented = record { unseal_seal = λ n p. refl; decode_encode = λ t. refl }

decrypt-encrypt_example :
    and_then
      (encrypt library marking (some (codes "abcdefghijkl")) (codes "secret"))
      (decrypt library marking)
    ≡ done (codes "secret")
decrypt-encrypt_example =
    decrypt-encrypt library marking (codes "abcdefghijkl") (codes "secret") marking-Documented refl

decrypt-Opens_example : Opens library marking (codes "abcdefghijkl7hi") (codes "hi")
unfolding decrypt decrypt_bytes opened
decrypt-Opens_example = decrypt-Opens library marking (codes "abcdefghijkl7hi") (codes "hi") refl
