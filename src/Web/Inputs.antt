-- ===== src/Web/Inputs.antt =====
-- validateSourceInput, categorizeConnectionError and the clamps of internal/web/api_handlers.go, with the
-- valid values of internal/db/models.go. A negative number is read as 0, from which no test tells it.
use calbridge.Common.{
  ℕ, Text, codes, List, [], ◌∷◌, Option, none, some, Bool, true, false, not, ◌||◌, ◌&&◌, ◌==◌, eqb,
  ltb, length, contains, if◌then◌else◌,
}

unfoldable pub is_empty : Text → Bool
is_empty [] = true
is_empty (c ∷ cs) = false

unfoldable pub is_one_of : Text → List Text → Bool
is_one_of t [] = false
is_one_of t (v ∷ vs) = t == v || is_one_of t vs

abbrev pub valid_source_types : List Text
valid_source_types =
    codes "icloud"
    ∷ codes "google"
    ∷ codes "fastmail"
    ∷ codes "nextcloud"
    ∷ codes "custom"
    ∷ codes "caldav"
    ∷ codes "outlook"
    ∷ []

abbrev pub valid_conflict_strategies : List Text
valid_conflict_strategies = codes "source_wins" ∷ codes "dest_wins" ∷ codes "latest_wins" ∷ []

abbrev pub valid_sync_directions : List Text
valid_sync_directions = codes "one_way" ∷ codes "two_way" ∷ []

-- The fields of a request that are checked.
pub record Fields : Type 0 where
  pub name : Text
  pub source_type : Text
  pub sync_direction : Text
  pub conflict_strategy : Text
  pub source_url : Text
  pub dest_url : Text
  pub source_username : Text
  pub dest_username : Text

abbrev pub max_name_length : ℕ
max_name_length = 100

abbrev pub max_url_length : ℕ
max_url_length = 500

abbrev pub max_username_length : ℕ
max_username_length = 100

abbrev pub max_password_length : ℕ
max_password_length = 500

-- The first check that fails.
abbrev pub check : Bool → Text → Option Text → Option Text
check fails why later = if fails then some why else later

unfoldable pub is_too_long : ℕ → Text → Bool
is_too_long most t = ltb most (length t)

-- A value that is set, and is not one of the valid ones.
unfoldable pub is_invalid : Text → List Text → Bool
unfolding is_empty is_one_of
is_invalid t values = not (is_empty t) && not (is_one_of t values)

unfoldable pub validate_source_input : Fields → Option Text
unfolding is_too_long is_invalid
validate_source_input f =
    check (is_too_long max_name_length f.name) (codes "Name is too long (max 100 characters)") (
      check (is_too_long max_url_length f.source_url)
        (codes "Source URL is too long (max 500 characters)")
        (check (is_too_long max_url_length f.dest_url)
          (codes "Destination URL is too long (max 500 characters)")
          (check (is_too_long max_username_length f.source_username)
            (codes "Source username is too long (max 100 characters)")
            (check (is_too_long max_username_length f.dest_username)
              (codes "Destination username is too long (max 100 characters)")
              (check (is_invalid f.source_type valid_source_types) (codes "Invalid source type") (
                check (is_invalid f.sync_direction valid_sync_directions)
                  (codes "Invalid sync direction")
                  (check (is_invalid f.conflict_strategy valid_conflict_strategies)
                    (codes "Invalid conflict strategy") none)))))))

unfoldable pub check_passwords : Text → Text → Option Text
unfolding is_too_long
check_passwords source dest =
    check (is_too_long max_password_length source) (codes "Source password is too long")
      (check (is_too_long max_password_length dest) (codes "Destination password is too long") none)

-- The cases in their order; the text is in lower case.
unfoldable pub categorize_connection_error : Text → Text
categorize_connection_error e =
    if contains e (codes "no such host") || contains e (codes "lookup")
    then codes "Server not found. Please check the URL."
    else if contains e (codes "connection refused")
    then codes "Connection refused. Please verify the server is running."
    else if contains e (codes "timeout") || contains e (codes "deadline")
    then codes "Connection timed out. Please try again."
    else if contains e (codes "401") || contains e (codes "unauthorized")
    then codes "Authentication failed. Please check your credentials."
    else if contains e (codes "403") || contains e (codes "forbidden")
    then codes "Access denied. Please check your permissions."
    else if contains e (codes "404") || contains e (codes "not found")
    then codes "Calendar not found. Please check the URL."
    else if contains e (codes "certificate") || contains e (codes "tls")
    then codes "SSL/TLS error. Please verify the server certificate."
    else codes "Connection failed. Please check your settings."

-- The interval of a new source, in seconds.
unfoldable pub clamp_interval : ℕ → ℕ → ℕ → ℕ
clamp_interval least most asked = if ltb asked least || ltb most asked then least else asked

unfoldable pub default_days : ℕ → ℕ
default_days asked = if eqb asked 0 then 30 else asked

-- What an update keeps where none is given.
unfoldable pub or_kept : ℕ → ℕ → ℕ
or_kept kept asked = if eqb asked 0 then kept else asked
