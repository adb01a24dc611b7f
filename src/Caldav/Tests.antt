-- ===== src/Caldav/Tests.antt =====
-- A database that is busy twice, and a token that has to be escaped.
use calbridge.Common.{ℕ, zero, suc, ◌≡◌, Text, codes, Option, none, some}
use calbridge.Caldav.Retry.{IsBounded, retry_db_operation, retry_db_operation-IsBounded}
use calbridge.Caldav.Webdav.{xml_escape, escape_each, xml_escape-escape_each}

-- The state is the number of times that the database will still be busy.
abbrev operation : ℕ → Option Text × ℕ
operation zero = (none, zero)
operation (suc n) = (some (codes "database is locked"), n)

retry_db_operation-IsBounded_example : IsBounded 5 (retry_db_operation operation 5 2)
retry_db_operation-IsBounded_example = retry_db_operation-IsBounded operation 5 2

xml_escape-escape_each_example :
    xml_escape (codes "a<b & 'c'&amp;") ≡ escape_each (codes "a<b & 'c'&amp;")
xml_escape-escape_each_example = xml_escape-escape_each (codes "a<b & 'c'&amp;")
