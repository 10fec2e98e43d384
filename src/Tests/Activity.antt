-- ===== src/Tests/Activity.antt =====
-- Tests of the activity that is broadcast and of the data of a response.
use dirpc.Prelude.{◌≡◌, some, refl}
use dirpc.Prelude.Int.{ℤ, pos}
use dirpc.Json.{Value, Fields, lookup, string, number, object, field, end}
use dirpc.Server.Activity.{translate_timestamps}
use dirpc.Server.Time.{maybe_to_ms, digit_count}
use dirpc.Tests.{integers, playing}

abbrev today : ℤ
today = pos 1700000000000

-- seconds become milliseconds
scaled_test :
    lookup "timestamps" (translate_timestamps integers today today playing)
    ≡ some (object (field "start" (number (pos 1700000000000)) end))
unfolding lookup dirpc.Json.insert translate_timestamps maybe_to_ms digit_count
scaled_test = refl
