-- ===== src/Notify/Email.antt =====
-- The emails of internal/notify/notify.go: sanitizeForEmail, and the message that sendEmail builds.
use calbridge.Common.{
  ℕ, zero, suc, ◌≤◌, ◌≡◌, ◌≢◌, refl, inl, inr, Text, codes, List, [], ◌∷◌, ◌++◌, Bool, true, false,
  ltb, eqb, length, take, length-take, All, All-append, replace_byte, arith, if◌then◌else◌,
  Bool-cases,
}
use calbridge.Notify.{Alert, AlertType, alert_stale, alert_recovery, alert_error, Config, Details}

abbrev pub carriage_return : ℕ
carriage_return = 13

abbrev pub line_feed : ℕ
line_feed = 10

pub sanitize_for_email : Text → Text
sanitize_for_email s =
    let t = replace_byte line_feed (codes " ") (replace_byte carriage_return [] s) in
    if ltb 200 (length t) then take 200 t else t

unfoldable pub type_name : AlertType → Text
type_name alert_stale = codes "stale"
type_name alert_recovery = codes "recovery"
type_name alert_error = codes "error"

-- strings.Join(recipients, ", "): 44 is the comma and 32 the space.
unfoldable pub join_recipients : List Text → Text
join_recipients [] = []
join_recipients (r ∷ []) = r
join_recipients (r ∷ q ∷ rest) = r ++ (44 ∷ 32 ∷ join_recipients (q ∷ rest))

-- The headers of the message, one text each, and the lines of its body. `show` prints the details
-- and `date` the time of the alert.
pub record Email : Type 0 where
  pub headers : List Text
  pub body : List Text

pub build_email : (Details → Text) → (ℕ → Text) → Config → Alert → List Text → Email
unfolding sanitize_for_email type_name join_recipients
build_email show date cfg a recipients =
    let message = sanitize_for_email a.message in
    record {
      headers =
          (codes "From: " ++ cfg.smtp_from)
          ∷ (codes "To: " ++ join_recipients recipients)
          ∷ (codes "Subject: [CalBridgeSync] " ++ message)
          ∷ codes "MIME-Version: 1.0"
          ∷ codes "Content-Type: text/plain; charset=UTF-8"
          ∷ [];
      body =
          (codes "Alert Type: " ++ type_name a.alert_type)
          ∷ (codes "Source: " ++ sanitize_for_email a.source_name)
          ∷ (codes "Source ID: " ++ a.source_id)
          ∷ (codes "Time: " ++ date a.timestamp)
          ∷ []
          ∷ (codes "Message: " ++ message)
          ∷ (codes "Details: " ++ sanitize_for_email (show a.details))
          ∷ [];
    }

-- Neither CR nor LF.
abbrev pub IsOneLine : Text → Type 0
IsOneLine = All (λ c. (c ≢ 13) × (c ≢ 10))

module _ (P : ℕ → Type 0) where
  All-take : (n : ℕ) (s : Text) → All P s → All P (take n s)
  All-take zero s h = tt
  All-take (suc n) [] h = tt
  All-take (suc n) (c ∷ s) h = (h.0, All-take n s h.1)

  -- What is written for a byte satisfies `P`, and so do the other bytes.
  All-replace_byte :
      (c : ℕ) (t s : Text)
      → All P t
      → All (λ x. (eqb x c ≡ false) → P x) s
      → All P (replace_byte c t s)
  unfolding replace_byte
  All-replace_byte c t [] ht hs = tt
  All-replace_byte c t (x ∷ xs) ht hs = elim (Bool-cases (eqb x c)) [
    | inl e ↦ rw e (All-append P t (replace_byte c t xs) ht (All-replace_byte c t xs ht hs.1))
    | inr e ↦ rw e (hs.0 e, All-replace_byte c t xs ht hs.1)
  ]

All-any : (P : ℕ → Type 0) (s : Text) → ((c : ℕ) → P c) → All P s
All-any P [] h = tt
All-any P (c ∷ s) h = (h c, All-any P s h)

All-map : (P Q : ℕ → Type 0) (s : Text) → All P s → ((c : ℕ) → P c → Q c) → All Q s
All-map P Q [] h k = tt
All-map P Q (c ∷ s) h k = (k c h.0, All-map P Q s h.1 k)

sanitize_for_email-IsOneLine : (s : Text) → IsOneLine (sanitize_for_email s)
unfolding sanitize_for_email
sanitize_for_email-IsOneLine s =
    let no_cr : All (λ c. c ≢ 13) (replace_byte 13 [] s) =
      All-replace_byte (λ c. c ≢ 13) 13 [] s tt (All-any _ s (λ c e. ground (arith, e))) in
    let clean : IsOneLine (replace_byte 10 (codes " ") (replace_byte 13 [] s)) =
      All-replace_byte (λ c. (c ≢ 13) × (c ≢ 10)) 10 (codes " ") (replace_byte 13 [] s)
        ((omega arith, omega arith), tt)
        (All-map _ _ (replace_byte 13 [] s) no_cr (λ c n e. (n, ground (arith, e)))) in
    elim (Bool-cases (ltb 200 (length (replace_byte 10 (codes " ") (replace_byte 13 [] s))))) [
      | inl e ↦ rw e (All-take _ 200 (replace_byte 10 (codes " ") (replace_byte 13 [] s)) clean)
      | inr e ↦ rw e clean
    ]

join_recipients-IsOneLine : (rs : List Text) → All IsOneLine rs → IsOneLine (join_recipients rs)
unfolding join_recipients
join_recipients-IsOneLine [] h = tt
join_recipients-IsOneLine (r ∷ []) h = h.0
join_recipients-IsOneLine (r ∷ q ∷ rest) h =
    All-append _ r (44 ∷ 32 ∷ join_recipients (q ∷ rest)) h.0 (
      (omega arith, omega arith),
      ((omega arith, omega arith), join_recipients-IsOneLine (q ∷ rest) h.1),
    )

length-sanitize_for_email : (s : Text) → length (sanitize_for_email s) ≤ 200
unfolding sanitize_for_email
length-sanitize_for_email s =
    let t = replace_byte 10 (codes " ") (replace_byte 13 [] s) in
    elim (Bool-cases (ltb 200 (length t))) [
      | inl e ↦ rw e (omega (arith, length-take 200 t))
      | inr e ↦ rw e (ground (arith, e))
    ]

-- Printable texts, tested byte by byte.
unfoldable pub is_printable : Text → Bool
is_printable [] = true
is_printable (c ∷ t) = let rest = is_printable t in if ltb 13 c then rest else false

pub is_printable-IsOneLine : (t : Text) → is_printable t ≡ true → IsOneLine t
unfolding is_printable
is_printable-IsOneLine [] h = tt
is_printable-IsOneLine (c ∷ t) h = elim (Bool-cases (ltb 13 c)) [
  | inl e ↦
      ((ground (arith, e), ground (arith, e)), is_printable-IsOneLine t (ground (arith, h, e)))
  | inr e ↦ let bad : false ≡ true = rw e at h in cc
]

-- If the sender's address and the recipients have no line break, then no header of an email has one,
-- whatever the name of the source and the message of the alert are, and the sanitized message has at
-- most 200 bytes.
pub build_email-IsOneLine :
    (show : Details → Text) (date : ℕ → Text) (cfg : Config) (a : Alert) (recipients : List Text)
    → IsOneLine cfg.smtp_from
    → All IsOneLine recipients
    → All IsOneLine (build_email show date cfg a recipients).headers
      × (length (sanitize_for_email a.message) ≤ 200)
unfolding build_email is_printable
build_email-IsOneLine show date cfg a recipients f r = (
  (
    All-append _ (codes "From: ") cfg.smtp_from (is_printable-IsOneLine (codes "From: ") refl) f,
    (
      All-append _ (codes "To: ") (join_recipients recipients)
          (is_printable-IsOneLine (codes "To: ") refl) (join_recipients-IsOneLine recipients r),
      (
        All-append _ (codes "Subject: [CalBridgeSync] ") (sanitize_for_email a.message)
            (is_printable-IsOneLine (codes "Subject: [CalBridgeSync] ") refl)
            (sanitize_for_email-IsOneLine a.message),
        (
          (is_printable-IsOneLine (codes "MIME-Version: 1.0") refl),
          ((is_printable-IsOneLine (codes "Content-Type: text/plain; charset=UTF-8") refl), tt),
        ),
      ),
    ),
  ),
  length-sanitize_for_email a.message,
)
