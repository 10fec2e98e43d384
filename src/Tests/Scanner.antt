-- ===== src/Tests/Scanner.antt =====
-- Tests of a scan of the processes.
use dirpc.Prelude.{ℕ, String, Bytes, List, [], ◌∷◌, ◌≡◌, refl, codes, nat_eq}
use dirpc.Prelude.Int.{pos}
use dirpc.Prelude.Assoc.{Assoc, get}
use dirpc.Server.State.{new}
use dirpc.Scanner.{ProcessInfo, Times, scan_once}
use dirpc.Scanner.Tracked.{last_match, get-scan_once}
use dirpc.Scanner.Again.{scan_once-scan_once}
use dirpc.Tests.{integers, fixed_text}
use dirpc.Tests.Detect.{plain_rkyv, sample_db, game_path}

-- a game and another program; a game that is no longer there was tracked
abbrev pub processes : List ProcessInfo
processes =
    record { pid = 7; path = game_path; args = [] }
    ∷ record { pid = 8; path = codes "/bin/sh"; args = [] }
    ∷ []

abbrev tracked : Assoc ℕ Bytes
tracked = (9, codes "1") ∷ []

abbrev pub shown_text : Bytes → String
shown_text b = "2"

abbrev pub noon : ℕ → Times
noon pid = record {
  shown = pos 1700000000000;
  first = pos 1700000000001;
  second = pos 1700000000001;
}

get-scan_once_example :
    get 7
      (scan_once integers shown_text fixed_text noon plain_rkyv sample_db processes new tracked).1
    ≡ last_match plain_rkyv sample_db 7 processes
get-scan_once_example =
    get-scan_once plain_rkyv sample_db integers shown_text fixed_text noon 7 processes new tracked

scan_once-scan_once_example :
    (scan_once integers shown_text fixed_text noon plain_rkyv sample_db processes
      (scan_once integers shown_text fixed_text noon plain_rkyv sample_db processes new tracked).0
      (scan_once integers shown_text fixed_text noon plain_rkyv sample_db processes new
        tracked).1).0
    ≡ (scan_once integers shown_text fixed_text noon plain_rkyv sample_db processes new tracked).0
scan_once-scan_once_example =
    scan_once-scan_once plain_rkyv sample_db integers shown_text fixed_text noon noon processes new
      tracked ((refl, tt), (tt, tt))
