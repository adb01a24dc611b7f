-- ===== src/Crypto/RoundTrip.antt =====
-- Encrypt and Decrypt of internal/crypto/encrypt.go undo each other.
use calbridge.Common.{
  ◌≡◌, refl, ap, sym, ◌∙◌, subst, inl, inr, Text, [], ◌∷◌, ◌++◌, Option, none, some, false, ltb,
  length, length-take, length-append, take, drop, take-append-drop, arith, Bool-cases, Option-cases,
}
use calbridge.Crypto.{
  Gcm, Library, done, refused, invalid_ciphertext, encrypt, opened, decrypt_bytes, decrypt,
  and_then,
}

-- What the packages document: what is sealed is opened with the same nonce, and what is encoded decodes.
pub record Documented (lib : Library) (gcm : Gcm) : Type 0 where
  pub unseal_seal :
      (nonce plaintext : Text) → gcm.unseal nonce (gcm.seal nonce plaintext) ≡ some plaintext
  pub decode_encode : (t : Text) → lib.decode (lib.encode t) ≡ some t

take-append : (n s : Text) → take (length n) (n ++ s) ≡ n
take-append [] s = refl
take-append (c ∷ n) s = ap (◌∷◌ c) (take-append n s)

drop-append : (n s : Text) → drop (length n) (n ++ s) ≡ s
drop-append [] s = refl
drop-append (c ∷ n) s = drop-append n s

decrypt_bytes-append :
    (gcm : Gcm) (n s : Text)
    → length n ≡ 12
    → decrypt_bytes gcm (some (n ++ s)) ≡ opened (gcm.unseal n s)
unfolding decrypt_bytes
decrypt_bytes-append gcm n s h =
    let long : ltb (length (n ++ s)) 12 ≡ false = ground (arith, length-append n s, h) in
    let front : take 12 (n ++ s) ≡ n = subst (λ k. take k (n ++ s) ≡ n) h (take-append n s) in
    let back : drop 12 (n ++ s) ≡ s = subst (λ k. drop k (n ++ s) ≡ s) h (drop-append n s) in
    rw (long, front, back) refl

-- If sealing and the coding can be undone as their packages document, then for a nonce of 12 bytes
-- Encrypt gives a text, and Decrypt of that text gives the plaintext back.
pub decrypt-encrypt :
    (lib : Library) (gcm : Gcm) (nonce plaintext : Text)
    → Documented lib gcm
    → length nonce ≡ 12
    → and_then (encrypt lib gcm (some nonce) plaintext) (decrypt lib gcm) ≡ done plaintext
unfolding encrypt decrypt opened
decrypt-encrypt lib gcm nonce plaintext d h =
    rw
      (
        d.decode_encode (nonce ++ gcm.seal nonce plaintext),
        decrypt_bytes-append gcm nonce (gcm.seal nonce plaintext) h,
        d.unseal_seal nonce plaintext,
      )
      refl

-- The text decodes to a nonce of 12 bytes and a sealed text, which opens to the plaintext.
pub record Opens (lib : Library) (gcm : Gcm) (encoded plaintext : Text) : Type 0 where
  pub nonce : Text
  pub sealed : Text
  pub decodes : lib.decode encoded ≡ some (nonce ++ sealed)
  pub nonce_length : length nonce ≡ 12
  pub unseals : gcm.unseal nonce sealed ≡ some plaintext

opened-done : (o : Option Text) (p : Text) → opened o ≡ done p → o ≡ some p
unfolding opened
opened-done none p h = cc
opened-done (some t) p h = cc

from_bytes :
    (lib : Library) (gcm : Gcm) (encoded plaintext c : Text)
    → lib.decode encoded ≡ some c
    → decrypt_bytes gcm (some c) ≡ done plaintext
    → Opens lib gcm encoded plaintext
unfolding decrypt_bytes
from_bytes lib gcm encoded plaintext c e h = elim (Bool-cases (ltb (length c) 12)) [
  | inl short ↦ let bad : refused invalid_ciphertext ≡ done plaintext = rw short at h in cc
  | inr long ↦
      let g : opened (gcm.unseal (take 12 c) (drop 12 c)) ≡ done plaintext = rw long at h in
      record {
        nonce = take 12 c;
        sealed = drop 12 c;
        decodes = e ∙ ap some (sym (take-append-drop 12 c));
        nonce_length = ground (arith, length-take 12 c, long);
        unseals = opened-done (gcm.unseal (take 12 c) (drop 12 c)) plaintext g;
      }
]

-- If Decrypt gives a plaintext, then the text decodes to a nonce of 12 bytes followed by a sealed text,
-- and opening that with the nonce gives this plaintext: no text that fails to open is ever decrypted.
pub decrypt-Opens :
    (lib : Library) (gcm : Gcm) (encoded plaintext : Text)
    → decrypt lib gcm encoded ≡ done plaintext
    → Opens lib gcm encoded plaintext
unfolding decrypt decrypt_bytes
decrypt-Opens lib gcm encoded plaintext h = elim (Option-cases (lib.decode encoded)) [
  | inl e ↦
      let bad : refused invalid_ciphertext ≡ done plaintext =
        subst (λ o. decrypt_bytes gcm o ≡ done plaintext) e h in
      cc
  | inr (c, e) ↦
      from_bytes lib gcm encoded plaintext c e
        (subst (λ o. decrypt_bytes gcm o ≡ done plaintext) e h)
]
