-- ===== src/Caldav/Put.antt =====
-- Client.PutEvent of internal/caldav/client.go, up to the request. The iCalendar library is the
-- parameter `parse`: it gives the UID texts of the calendar's events, one that cannot be read as
-- `none`, or `none` where the data is no calendar.
use calbridge.Common.{
  Text, List, [], ◌∷◌, ◌++◌, Option, none, some, not, ◌||◌, codes, ◌==◌, has_prefix, trim_suffix,
  if◌then◌else◌,
}
use calbridge.Caldav.{Event}

pub data Plan : Type 0 where
  skip : Plan
  unparsable : Plan
  send : Text → Plan

-- The first UID that can be read.
unfoldable pub first_uid : List (Option Text) → Text
first_uid [] = []
first_uid (none ∷ us) = first_uid us
first_uid (some u ∷ us) = u

-- The event's UID, or where it has none, the calendar data's.
unfoldable pub uid_or_first : Text → List (Option Text) → Text
unfolding first_uid
uid_or_first [] uids = first_uid uids
uid_or_first (c ∷ cs) uids = c ∷ cs

unfoldable pub path_for : Text → Text → Plan
path_for calendar_path [] = skip
path_for calendar_path (c ∷ cs) =
    send (trim_suffix calendar_path (codes "/") ++ codes "/" ++ (c ∷ cs) ++ codes ".ics")

unfoldable pub plan_parsed : Text → Event → Option (List (Option Text)) → Plan
unfolding path_for uid_or_first
plan_parsed calendar_path e none = unparsable
plan_parsed calendar_path e (some uids) =
    if e.path == [] || not (has_prefix e.path calendar_path)
    then path_for calendar_path (uid_or_first e.uid uids)
    else send e.path

unfoldable pub plan_put : (Text → Option (List (Option Text))) → Text → Event → Plan
unfolding plan_parsed
plan_put parse calendar_path e =
    if e.ical == [] then skip else plan_parsed calendar_path e (parse e.ical)
