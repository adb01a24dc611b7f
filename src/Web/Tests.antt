-- ===== src/Web/Tests.antt =====
-- The handlers on a database with two users, of whom each has a source, and a scheduler with one job.
use calbridge.Common.{
  ℕ, zero, suc, ◌≤◌, ◌≡◌, refl, codes, List, [], ◌∷◌, none, some, true, false, ◌==◌, length, arith,
}
use calbridge.Common.Dict.{get}
use calbridge.Store.{first_conn, rest_conns, Source, exec, query, found, affected, read_clock}
use calbridge.Store.Rows.{exists, first, count}
use calbridge.Store.Calendars.{read_calendars}
use calbridge.Store.Sources.{
  get_source_by_id_for_user, update_source, scan_source, or_one_way, as_updated, update_sources,
}
use calbridge.Store.Consistency.Tables.{Distinct}
use calbridge.Store.Tests.{json, source_of, database}
use calbridge.Scheduler.{Job, Scheduler, member}
use calbridge.Scheduler.Panics.{IsSound}
use calbridge.Scheduler.Runs.{fetch}
use calbridge.Crypto.Tests.{library, marking}
use calbridge.Notify.Tests
use calbridge.Web.{World, Session, Config, Outside}
use calbridge.Web.Inputs.{validate_source_input, is_too_long, is_invalid, is_empty, is_one_of}
use calbridge.Web.Sources.{
  SourceRequest, fields, changed_source, api_create_source, api_update_source,
}
use calbridge.Web.Logs.{paginate, total_pages}
use calbridge.Web.Requests.{serve, delete_source}
use calbridge.Web.Isolation.Handlers.{IsLeft, serve-IsLeft}
use calbridge.Web.Created.{IsServed, api_create_source-IsServed}
use calbridge.Web.Overflow.{IsStuck, api_update_source-IsStuck}
use calbridge.Web.Pages.{all_pages, paginate-all_pages}

abbrev job : Job
job = record { source_id = codes "s"; interval = 300; stop_ch = 0; next_sync_at = 5 }

abbrev scheduler : Scheduler
scheduler = record {
  jobs = (codes "s", job) ∷ [];
  sync_locks = [];
  closed = [];
  running = [];
  waiting = [];
  next_id = 1;
  routines = [];
  notices = [];
  has_notifier = false;
  started = true;
  cancelled = false;
  mu = false;
}

abbrev world : World
world = record { db = database; scheduler = scheduler; triggered = [] }

abbrev ann : Session
ann = record { user_id = codes "ann"; email = codes "ann"; name = codes "ann"; picture = [] }

abbrev config : Config
config = record { min_interval = 30; max_interval = 3600 }

abbrev outside : Outside
outside = record {
  json = json;
  crypto = library;
  gcm = marking;
  notify = calbridge.Notify.Tests.library;
  test_connection = λ url name password. none;
  to_lower = λ t. t;
  random = some (codes "abcdefghijkl");
  later_random = some (codes "abcdefghijkm");
}

abbrev request : SourceRequest
request = record {
  name = codes "home";
  source_type = codes "custom";
  source_url = codes "https://a";
  source_username = codes "a";
  source_password = codes "p";
  dest_url = codes "https://b";
  dest_username = codes "b";
  dest_password = codes "q";
  sync_interval = 1;
  sync_days_past = 0;
  sync_direction = codes "two_way";
  conflict_strategy = codes "dest_wins";
  selected_calendars = [];
}

scheduler-IsSound : IsSound scheduler
unfolding member
scheduler-IsSound = record { mu_free = refl; live = (omega arith, refl, tt, tt); used = tt }

serve-IsLeft_example :
    IsLeft (codes "bob") world (serve outside config (some ann) (delete_source (codes "t")) world)
unfolding Distinct exists ◌==◌
serve-IsLeft_example =
    serve-IsLeft outside config ann (codes "bob") (delete_source (codes "t")) world refl
      (refl, (refl, tt))

api_create_source-IsServed_example :
    IsServed config (api_create_source outside config (some ann) (some request) world)
api_create_source-IsServed_example =
    api_create_source-IsServed outside config (some ann) (some request) world (omega arith)
      (omega arith) (omega arith) scheduler-IsSound

-- Three centuries, without new passwords.
abbrev long : SourceRequest
long = record request { sync_interval = 10_000_000_000; source_password = []; dest_password = [] }

abbrev stored : Source
stored = source_of (codes "s") (codes "ann")

abbrev changed : Source
changed = changed_source long stored stored.source_password stored.dest_password

api_update_source-IsStuck_example :
    IsStuck (fetch (codes "t")) (api_update_source outside (some ann) (codes "s") (some long) world)
unfolding get ◌==◌ get_source_by_id_for_user query first_conn rest_conns found first scan_source
    read_calendars or_one_way update_source read_clock exec update_sources count affected
    changed_source as_updated fields validate_source_input is_too_long is_invalid is_empty is_one_of
api_update_source-IsStuck_example =
    api_update_source-IsStuck outside (fetch (codes "t")) ann (codes "s") long stored
      (as_updated changed 5) database job world refl refl refl refl refl (omega arith) (omega arith)
      scheduler-IsSound refl tt

abbrev numbers : ℕ → List ℕ
numbers zero = []
numbers (suc n) = n ∷ numbers n

paginate-all_pages_example :
    ((ys : List ℕ) × (paginate 2 (numbers 25) ≡ some ys) × (length ys ≤ 20))
    × (all_pages (total_pages (length (numbers 25))) 1 (numbers 25) ≡ some (numbers 25))
paginate-all_pages_example = paginate-all_pages (numbers 25) 2 (omega arith) (omega arith)

-- The first page of which the request panics.
paginate_far : paginate 461168601842738793 (numbers 25) ≡ none
unfolding paginate
paginate_far = refl
