-- ===== src/Tests/Payload.antt =====
-- Tests of the payload, the download and the scanner's start.
use dirpc.Prelude.{
  ℕ, String, Bool, true, false, Bytes, codes, Option, none, some, List, [], ◌∷◌, take, ◌==◌, nat_eq,
  ◌≡◌, ◌≢◌, inl, inr, refl, All,
}
use dirpc.Prelude.Int.{ℤ}
use dirpc.Json.{Value, null, string, array, object, nil, cons, end, field}
use dirpc.Server.State.{new}
use dirpc.Detect.{DetectableEntry}
use dirpc.Detect.Payload.{Entries, Reader, parse_entries_from_value, compact_whitespace_preview}
use dirpc.Detect.Payload.Found.{FindsIn, Succeeds, parse_entries_from_value_lem}
use dirpc.Detect.Samples.{sample_entries}
use dirpc.Detect.Fetch.{Response, cache_dir, cache_db_path}
use dirpc.Scanner.Startup.{Net, Round, State, scan_loop, start_process_scanner}
use dirpc.Detect.Db.{empty_db}
use dirpc.Scanner.Startup.Idle.{beside, start_process_scanner-304}
use dirpc.Scanner.Startup.Keeps.{ComesFrom, scan_loop-ComesFrom}
use dirpc.Tests.{integers, fixed_text}
use dirpc.Tests.Detect.{plain_rkyv, sample_db}
use dirpc.Tests.Scanner.{processes, shown_text, noon}

abbrev nameless : DetectableEntry
nameless = record { id = codes "1"; name = []; executables = [] }

-- A text is an entry.
abbrev deserialize : Value ℤ → Option DetectableEntry
deserialize (string t) = some nameless
deserialize _ = none

-- The entries stand in an object below another key than the three.
abbrev payload : Value ℤ
payload = object (
    field "data" (array (cons null nil))
      (field "page" (object (field "items" (array (cons null (cons (string "x") nil))) end)) end))

found_below : parse_entries_from_value deserialize payload ≡ some (nameless ∷ [])
unfolding parse_entries_from_value dirpc.Detect.Payload.parse_entries_from_array
    dirpc.Detect.Payload.entries_of dirpc.Detect.Payload.pick dirpc.Prelude.Assoc.get
found_below = refl

parse_entries_from_value_lem_example :
    ((es : Entries)
      → parse_entries_from_value deserialize payload ≡ some es
      → FindsIn deserialize payload es)
    × ((es : Entries)
        → FindsIn deserialize payload es
        → Succeeds (parse_entries_from_value deserialize payload))
parse_entries_from_value_lem_example = parse_entries_from_value_lem deserialize payload

preview_test : compact_whitespace_preview (codes "  one\n two ") 6 ≡ codes "one tw"
unfolding compact_whitespace_preview dirpc.Detect.Payload.preview_tokens dirpc.Text.split_whitespace
    dirpc.Detect.Payload.push_chars
preview_test = refl

abbrev pub no_news : Response
no_news = record { status = 304; etag = none; body = none }

home_cache : cache_db_path none (some "/home/me") ≡ "/home/me/.cache/dirpc/detectable.redb"
unfolding cache_db_path cache_dir
home_cache = refl

-- The server answers 304 to every request.
abbrev pub unchanged : Net
unchanged = record { send = λ tag. some no_news; etag_failure = none; create_ok = true }

abbrev pub reader : Reader ℤ
reader = record {
  as_list = λ b. some sample_entries;
  as_wrapped = λ b. none;
  as_value = λ b. none;
  deserialize = deserialize;
  from_utf8_lossy = λ b. b;
  debug_text = λ s. "";
  debug_keys = λ keys. "";
}

abbrev pub week_later : List Round
week_later =
    record { now = 700000; later = 700001; net = unchanged; processes = processes; times = noon }
    ∷ []

start_process_scanner-304_example :
    (last : ℕ) × (start_process_scanner reader plain_rkyv integers shown_text fixed_text unchanged
        none
        (some "v1")
        0
        week_later
        new
      ≡ some
          (record { store = beside "v1" empty_db; last_refresh = last; server = new; active = [] }))
start_process_scanner-304_example =
    start_process_scanner-304 reader plain_rkyv "v1" integers shown_text fixed_text unchanged none 0
      week_later new refl refl (no_news, refl, refl) ((no_news, refl, refl), tt)

-- The server has a new list.
abbrev changed : Net
changed = record {
  send = λ tag. some (record { status = 200; etag = some "v2"; body = some (codes "[]") });
  etag_failure = none;
  create_ok = true;
}

abbrev running : State ℤ
running = record {
  store = record { db = sample_db; etag = some "v1" };
  last_refresh = 0;
  server = new;
  active = [];
}

abbrev refreshed : List Round
refreshed =
    record { now = 700000; later = 700001; net = changed; processes = []; times = noon } ∷ []

scan_loop-ComesFrom_example :
    ComesFrom plain_rkyv sample_db
      (scan_loop reader plain_rkyv integers shown_text fixed_text refreshed running).store.db
scan_loop-ComesFrom_example =
    scan_loop-ComesFrom reader plain_rkyv integers shown_text fixed_text refreshed running
