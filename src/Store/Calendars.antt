-- ===== src/Store/Calendars.antt =====
-- The column `selected_calendars` of internal/db/queries.go: JSON in the new format, an array of
-- objects, or in the old one, an array of texts. Package encoding/json is a parameter.
use calbridge.Common.{
  Text, List, [], ◌∷◌, map, Option, none, some, Bool, true, false, if◌then◌else◌,
}
use calbridge.Store.{CalendarConfig}

-- json.Marshal of the configurations, which does not fail, and json.Unmarshal into each of the two types.
pub record Json : Type 0 where
  pub encode : List CalendarConfig → Text
  pub decode_configs : Text → Option (List CalendarConfig)
  pub decode_paths : Text → Option (List Text)

-- NULL where no calendar is selected.
unfoldable pub calendars_column : Json → List CalendarConfig → Option Text
calendars_column json [] = none
calendars_column json (c ∷ cs) = some (json.encode (c ∷ cs))

unfoldable pub is_set : Text → Bool
is_set [] = false
is_set (c ∷ cs) = true

-- len(configs) > 0 && configs[0].Path != ""
unfoldable pub is_new_format : List CalendarConfig → Bool
unfolding is_set
is_new_format [] = false
is_new_format (c ∷ cs) = is_set c.path

unfoldable pub from_paths : Option (List Text) → List CalendarConfig
from_paths none = []
from_paths (some paths) = map (λ p. record { path = p; sync_direction = [] }) paths

unfoldable pub from_configs : Json → Text → Option (List CalendarConfig) → List CalendarConfig
unfolding is_new_format from_paths
from_configs json s none = from_paths (json.decode_paths s)
from_configs json s (some configs) =
    if is_new_format configs then configs else from_paths (json.decode_paths s)

unfoldable pub parse_selected_calendars : Json → Text → List CalendarConfig
unfolding from_configs
parse_selected_calendars json [] = []
parse_selected_calendars json (c ∷ cs) = from_configs json (c ∷ cs) (json.decode_configs (c ∷ cs))

-- What the scan of a row makes of the column.
unfoldable pub read_calendars : Json → Option Text → List CalendarConfig
unfolding parse_selected_calendars
read_calendars json none = []
read_calendars json (some s) = parse_selected_calendars json s
