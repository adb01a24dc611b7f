-- ===== src/Caldav/Webdav.antt =====
-- internal/caldav/webdavsync.go: the text of the report that is asked for, and what is read of the answer.
-- Package encoding/xml is a parameter: an answer is taken as it is decoded.
use calbridge.Common.{
  ℕ, ◌≡◌, refl, sym, subst, ap, ◌∙◌, inl, inr, Text, codes, List, [], ◌∷◌, ◌++◌, Option, none, some,
  false, eqb, eqb_iff, contains, replace_byte, if◌then◌else◌, Bool-cases,
}

pub record SyncItem : Type 0 where
  pub path : Text
  pub etag : Text
  pub content : Text

pub record SyncResponse : Type 0 where
  pub sync_token : Text
  pub changed : List SyncItem
  pub deleted : List Text

pub record Propstat : Type 0 where
  pub etag : Text
  pub calendar_data : Text
  pub status : Text

pub record Response : Type 0 where
  pub href : Text
  pub prop_stat : Option Propstat
  pub status : Text

pub record Multistatus : Type 0 where
  pub responses : List Response
  pub sync_token : Text

-- The bytes & < > ' and ".
abbrev pub amp : ℕ
amp = 38

abbrev pub lt : ℕ
lt = 60

abbrev pub gt : ℕ
gt = 62

abbrev pub apos : ℕ
apos = 39

abbrev pub quot : ℕ
quot = 34

unfoldable pub xml_escape : Text → Text
unfolding replace_byte
xml_escape s₀ =
    let s₁ = replace_byte amp (codes "&amp;") s₀ in
    let s₂ = replace_byte lt (codes "&lt;") s₁ in
    let s₃ = replace_byte gt (codes "&gt;") s₂ in
    let s₄ = replace_byte apos (codes "&apos;") s₃ in replace_byte quot (codes "&quot;") s₄

unfoldable pub token_element : Text → Text
unfolding xml_escape
token_element [] = codes "<D:sync-token/>"
token_element (c ∷ cs) = codes "<D:sync-token>" ++ (xml_escape (c ∷ cs) ++ codes "</D:sync-token>")

unfoldable pub build_sync_collection_request : Text → Text
unfolding token_element
build_sync_collection_request sync_token =
    codes
      "<?xml version=\"1.0\" encoding=\"utf-8\" ?>\n<D:sync-collection xmlns:D=\"DAV:\" xmlns:C=\"urn:ietf:params:xml:ns:caldav\">\n  "
    ++ (token_element sync_token
        ++ codes
            "\n  <D:sync-level>1</D:sync-level>\n  <D:prop>\n    <D:getetag/>\n    <C:calendar-data/>\n  </D:prop>\n</D:sync-collection>")

-- A response that has no good properties changes nothing.
unfoldable pub add_changed : Text → Option Propstat → SyncResponse → SyncResponse
add_changed href none r = r
add_changed href (some p) r =
    if contains p.status (codes "200")
    then record r {
      changed = record { path = href; etag = p.etag; content = p.calendar_data } ∷ r.changed;
    }
    else r

unfoldable pub read_responses : Text → List Response → SyncResponse
unfolding add_changed
read_responses token [] = record { sync_token = token; changed = []; deleted = [] }
read_responses token (p ∷ ps) =
    let rest = read_responses token ps in
    if contains p.status (codes "404")
    then record rest { deleted = p.href ∷ rest.deleted }
    else add_changed p.href p.prop_stat rest

unfoldable pub parse_sync_response : Option Multistatus → Option SyncResponse
unfolding read_responses
parse_sync_response none = none
parse_sync_response (some ms) = some (read_responses ms.sync_token ms.responses)

-- What a byte stands as in the text of an element or of an attribute, by the rules of XML.
unfoldable pub entity : ℕ → Text
entity c =
    if eqb c amp
    then codes "&amp;"
    else if eqb c lt
    then codes "&lt;"
    else if eqb c gt
    then codes "&gt;"
    else if eqb c apos
    then codes "&apos;"
    else if eqb c quot
    then codes "&quot;"
    else c ∷ []

unfoldable pub escape_each : Text → Text
unfolding entity
escape_each [] = []
escape_each (c ∷ cs) = entity c ++ escape_each cs

append_assoc : (xs ys zs : Text) → (xs ++ ys) ++ zs ≡ xs ++ (ys ++ zs)
append_assoc [] ys zs = refl
append_assoc (x ∷ xs) ys zs = ap (◌∷◌ x) (append_assoc xs ys zs)

replace_byte-append :
    (c : ℕ) (t xs ys : Text)
    → replace_byte c t (xs ++ ys) ≡ replace_byte c t xs ++ replace_byte c t ys
unfolding replace_byte
replace_byte-append c t [] ys = refl
replace_byte-append c t (x ∷ xs) ys =
    let head = if eqb x c then t else x ∷ [] in
    ap (λ r. head ++ r) (replace_byte-append c t xs ys)
    ∙ sym (append_assoc head (replace_byte c t xs) (replace_byte c t ys))

xml_escape-append : (xs ys : Text) → xml_escape (xs ++ ys) ≡ xml_escape xs ++ xml_escape ys
unfolding xml_escape
xml_escape-append xs ys =
    let f₁ = λ (t : Text). replace_byte amp (codes "&amp;") t in
    let f₂ = λ (t : Text). replace_byte lt (codes "&lt;") (f₁ t) in
    let f₃ = λ (t : Text). replace_byte gt (codes "&gt;") (f₂ t) in
    let f₄ = λ (t : Text). replace_byte apos (codes "&apos;") (f₃ t) in
    rw
      (
        replace_byte-append amp (codes "&amp;") xs ys,
        replace_byte-append lt (codes "&lt;") (f₁ xs) (f₁ ys),
        replace_byte-append gt (codes "&gt;") (f₂ xs) (f₂ ys),
        replace_byte-append apos (codes "&apos;") (f₃ xs) (f₃ ys),
      )
      (replace_byte-append quot (codes "&quot;") (f₄ xs) (f₄ ys))

-- A case of the five bytes, or of another one.
by_byte :
    (P : ℕ → Type 0)
    → P amp
    → P lt
    → P gt
    → P apos
    → P quot
    → ((c : ℕ)
        → eqb c amp ≡ false
        → eqb c lt ≡ false
        → eqb c gt ≡ false
        → eqb c apos ≡ false
        → eqb c quot ≡ false
        → P c)
    → (c : ℕ) → P c
by_byte P a l g q d other c = elim (Bool-cases (eqb c amp)) [
  | inl e ↦ subst P (sym ((eqb_iff c amp).0 e)) a
  | inr e₁ ↦ elim (Bool-cases (eqb c lt)) [
    | inl e ↦ subst P (sym ((eqb_iff c lt).0 e)) l
    | inr e₂ ↦ elim (Bool-cases (eqb c gt)) [
      | inl e ↦ subst P (sym ((eqb_iff c gt).0 e)) g
      | inr e₃ ↦ elim (Bool-cases (eqb c apos)) [
        | inl e ↦ subst P (sym ((eqb_iff c apos).0 e)) q
        | inr e₄ ↦ elim (Bool-cases (eqb c quot)) [
          | inl e ↦ subst P (sym ((eqb_iff c quot).0 e)) d
          | inr e₅ ↦ other c e₁ e₂ e₃ e₄ e₅
        ]
      ]
    ]
  ]
]

xml_escape-byte : (c : ℕ) → xml_escape (c ∷ []) ≡ entity c
unfolding xml_escape replace_byte entity
xml_escape-byte =
    by_byte (λ c. xml_escape (c ∷ []) ≡ entity c) refl refl refl refl refl
      (λ c e₁ e₂ e₃ e₄ e₅. rw (e₁, e₂, e₃, e₄, e₅) refl)

-- The five replacements, each over the text that the earlier ones made, are together one pass that puts
-- for each byte of the token what XML writes it as: no entity is escaped again.
pub xml_escape-escape_each : (s : Text) → xml_escape s ≡ escape_each s
unfolding xml_escape escape_each replace_byte
xml_escape-escape_each [] = refl
xml_escape-escape_each (c ∷ cs) =
    xml_escape-append (c ∷ []) cs
    ∙ ap (λ t. t ++ xml_escape cs) (xml_escape-byte c)
    ∙ ap (λ t. entity c ++ t) (xml_escape-escape_each cs)
