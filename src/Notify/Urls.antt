-- ===== src/Notify/Urls.antt =====
-- validateWebhookURL and ValidateConfig of internal/notify/notify.go.
use calbridge.Common.{
  ◌≡◌, refl, subst, inl, inr, Text, codes, List, [], ◌∷◌, Option, none, some, Bool, true, false,
  ltb, ◌||◌, not, if◌then◌else◌, ◌==◌, has_prefix, has_suffix, Bool-cases, Option-cases,
}
use calbridge.Notify.{Config, Library, minute, is_blank}

pub data UrlError : Type 0 where
  invalid_url not_https localhost internal_host private_address : UrlError

abbrev pub private_prefixes : List Text
private_prefixes =
    codes "10."
    ∷ codes "192.168."
    ∷ codes "172.16."
    ∷ codes "172.17."
    ∷ codes "172.18."
    ∷ codes "172.19."
    ∷ codes "172.20."
    ∷ codes "172.21."
    ∷ codes "172.22."
    ∷ codes "172.23."
    ∷ codes "172.24."
    ∷ codes "172.25."
    ∷ codes "172.26."
    ∷ codes "172.27."
    ∷ codes "172.28."
    ∷ codes "172.29."
    ∷ codes "172.30."
    ∷ codes "172.31."
    ∷ []

unfoldable pub has_any_prefix : Text → List Text → Bool
has_any_prefix host [] = false
has_any_prefix host (p ∷ ps) = has_prefix host p || has_any_prefix host ps

unfoldable pub is_localhost : Text → Bool
is_localhost host = host == codes "localhost" || (host == codes "127.0.0.1" || host == codes "::1")

unfoldable pub is_internal : Text → Bool
is_internal host = has_suffix host (codes ".local") || has_suffix host (codes ".internal")

-- The checks of the host, in the order of the code.
unfoldable pub check_host : Text → Option UrlError
unfolding is_localhost is_internal has_any_prefix
check_host host =
    if is_localhost host
    then some localhost
    else if is_internal host
    then some internal_host
    else if has_any_prefix host private_prefixes
    then some private_address
    else none

unfoldable pub check_parsed : Library → Option (Text × Text) → Option UrlError
unfolding check_host
check_parsed lib none = some invalid_url
check_parsed lib (some (scheme, hostname)) =
    if not (scheme == codes "https") then some not_https else check_host (lib.to_lower hostname)

unfoldable pub validate_webhook_url : Library → Text → Option UrlError
unfolding check_parsed
validate_webhook_url lib url = check_parsed lib (lib.parse url)

pub data ConfigError : Type 0 where
  url_required : ConfigError
  bad_url : UrlError → ConfigError
  host_required bad_port from_required bad_from : ConfigError
  bad_recipient : Text → ConfigError
  short_cooldown : ConfigError

-- The first error, if the first check has one.
infixr 4 ◌or_else◌
abbrev pub ◌or_else◌ : Option ConfigError → Option ConfigError → Option ConfigError
none or_else o = o
some e or_else o = some e

unfoldable pub validate_webhook : Library → Config → Option ConfigError
unfolding validate_webhook_url is_blank
validate_webhook lib cfg =
    if not cfg.webhook_enabled
    then none
    else if is_blank cfg.webhook_url
    then some url_required
    else elim (validate_webhook_url lib cfg.webhook_url) [ none ↦ none | some e ↦ some (bad_url e) ]

unfoldable pub validate_recipients : Library → List Text → Option ConfigError
validate_recipients lib [] = none
validate_recipients lib (to ∷ rest) =
    let others = validate_recipients lib rest in
    if not (lib.matches_email to) then some (bad_recipient to) else others

unfoldable pub validate_email : Library → Config → Option ConfigError
unfolding validate_recipients is_blank
validate_email lib cfg =
    if not cfg.email_enabled
    then none
    else if is_blank cfg.smtp_host
    then some host_required
    else if ltb cfg.smtp_port 1 || ltb 65535 cfg.smtp_port
    then some bad_port
    else if is_blank cfg.smtp_from
    then some from_required
    else if not (lib.matches_email cfg.smtp_from)
    then some bad_from
    else validate_recipients lib cfg.smtp_to

unfoldable pub validate_cooldown : Config → Option ConfigError
validate_cooldown cfg = if ltb cfg.cooldown_period minute then some short_cooldown else none

unfoldable pub validate_config : Library → Config → Option ConfigError
unfolding validate_webhook validate_email validate_cooldown
validate_config lib cfg =
    validate_webhook lib cfg or_else validate_email lib cfg or_else validate_cooldown cfg

-- An https URL to a host that none of the checks refuses.
pub record PassesHostChecks (lib : Library) (url : Text) : Type 0 where
  pub scheme_host : Text × Text
  pub parses : lib.parse url ≡ some scheme_host
  pub is_https : (scheme_host.0 == codes "https") ≡ true
  pub not_localhost : is_localhost (lib.to_lower scheme_host.1) ≡ false
  pub not_internal : is_internal (lib.to_lower scheme_host.1) ≡ false
  pub not_private : has_any_prefix (lib.to_lower scheme_host.1) private_prefixes ≡ false

split :
    (a b c : Bool)
    → (if a
        then some localhost
        else if b
        then some internal_host
        else if c
        then some private_address
        else none)
      ≡ none
    → (a ≡ false) × (b ≡ false) × (c ≡ false)
split true b c h = cc
split false true c h = cc
split false false true h = cc
split false false false h = (refl, refl, refl)

-- What check_host lets through.
check_host-none :
    (host : Text)
    → check_host host ≡ none
    → (is_localhost host ≡ false)
      × (is_internal host ≡ false)
      × (has_any_prefix host private_prefixes ≡ false)
unfolding check_host
check_host-none host h =
    split (is_localhost host) (is_internal host) (has_any_prefix host private_prefixes) h

check_parsed-none :
    (lib : Library) (scheme host : Text)
    → check_parsed lib (some (scheme, host)) ≡ none
    → ((scheme == codes "https") ≡ true) × (check_host (lib.to_lower host) ≡ none)
unfolding check_parsed
check_parsed-none lib scheme host h = elim (Bool-cases (scheme == codes "https")) [
  | inl a ↦ (a, rw a at h)
  | inr a ↦ let bad : some not_https ≡ none = rw a at h in cc
]

-- A webhook URL that the check accepts is an https URL that the library parses, whose host in lower
-- case is no name of the local host, ends in none of the internal suffixes, and starts with none of
-- the private prefixes.
pub validate_webhook_url-PassesHostChecks :
    (lib : Library) (url : Text) → validate_webhook_url lib url ≡ none → PassesHostChecks lib url
unfolding validate_webhook_url check_parsed
validate_webhook_url-PassesHostChecks lib url h = elim (Option-cases (lib.parse url)) [
  | inl e ↦ let bad : some invalid_url ≡ none = rw (e, check_parsed) at h in cc
  | inr ((scheme, host), e) ↦
      let p = check_parsed-none lib scheme host (subst (λ o. check_parsed lib o ≡ none) e h) in
      let q = check_host-none (lib.to_lower host) p.1 in
      record {
        scheme_host = (scheme, host);
        parses = e;
        is_https = p.0;
        not_localhost = q.0;
        not_internal = q.1;
        not_private = q.2;
      }
]

-- With webhooks disabled the URL is not read.
pub validate_config-disabled :
    (lib : Library) (cfg : Config) (url : Text)
    → cfg.webhook_enabled ≡ false
    → validate_config lib (record cfg { webhook_url = url }) ≡ validate_config lib cfg
unfolding validate_config validate_webhook validate_email validate_cooldown
validate_config-disabled lib cfg url d = rw d refl
