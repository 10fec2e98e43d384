-- ===== src/Tests/Files.antt =====
-- Tests of the database's files.
use dirpc.Prelude.{
  ℕ, All, arith, Bool, true, false, Bytes, bytes_key, codes, Option, none, some, is_some, List, [],
  ◌∷◌, ◌++◌, ◌≡◌, ◌≢◌, refl, nat_eq,
}
use dirpc.Prelude.Assoc.{get, insert}
use dirpc.Prelude.Sort.{sort}
use dirpc.Detect.{DetectableEntry}
use dirpc.Detect.Db
use dirpc.Detect.Db.{DetectableDb, Rkyv, empty_db, exe_to_ids, keys, match_process}
use dirpc.Detect.Db.Open.{absent_file, valid_file}
use dirpc.Detect.Db.Writing.{Steps}
use dirpc.Detect.Db.Writing.InOrder.{Works}
use dirpc.Detect.Files.{Files, Txn, removed, transaction, rebuild_with_fst}
use dirpc.Detect.Files.Opening.{open_with_fst}
use dirpc.Detect.Files.Commit.{in_order}
use dirpc.Detect.Files.Rebuilds.{after, Holds, rebuild_with_fst-some}
use dirpc.Detect.Files.Succeeds.{no_failures, mapped, rebuild_with_fst-succeeds}
use dirpc.Detect.Files.Opening.Reopens.{clean}
use dirpc.Detect.Files.Opening.RoundTrip.{open_with_fst-rebuild_with_fst}
use dirpc.Detect.Files.Killed.{Restarts, rebuild_with_fst-Restarts}
use dirpc.Detect.Files.Opening.Interrupted.{stale_index}
use dirpc.Server.State.{new}
use dirpc.Scanner.Startup.{start_process_scanner}
use dirpc.Scanner.Startup.Idle.{idle}
use dirpc.Scanner.Startup.Interrupted.{start_process_scanner-interrupted}
use dirpc.Tests.{integers, fixed_text}
use dirpc.Tests.Scanner.{shown_text}
use dirpc.Tests.Payload.{reader, unchanged, week_later, no_news}
use dirpc.Tests.Detect.{entries, sample_db, plain_rkyv}

abbrev pub working : Steps
working = record {
  dir_ok = true;
  create_ok = true;
  builder_ok = true;
  insert_ok = λ before key. true;
  finish_ok = true;
  flush_ok = true;
  rename_ok = true;
}

working-Works : Works working
working-Works = record {
  dir = refl;
  create = refl;
  builder = refl;
  finish = refl;
  flush = refl;
  renames = refl;
  in_order = λ before key h. refl;
}

-- An old database beside its FST.
abbrev pub old_files : Files
old_files = record {
  redb = some (record { apps = []; exes = some [] });
  index = record { target = valid_file (codes "old" ∷ []); tmp = absent_file };
}

rebuilt_test :
    (rebuild_with_fst plain_rkyv no_failures working mapped true true entries old_files).0
    ≡ some (in_order sample_db)
unfolding rebuild_with_fst transaction dirpc.Detect.Db.Writing.write_fst_file
    dirpc.Detect.Files.target_after dirpc.Detect.Files.load_mmap_fst Db.ingest_entries Db.write_apps
    exe_to_ids Db.push_id get insert keys Db.fill_index Db.write_exes Db.join_lines sort
    dirpc.Prelude.Sort.bytes_leb
rebuilt_test = refl

rebuild_with_fst-some_example :
    (d : DetectableDb) × (Db.ingest_entries plain_rkyv entries empty_db ≡ some d)
    × ((path : Bytes) (args : List Bytes)
        → match_process plain_rkyv path args (in_order sample_db)
          ≡ match_process plain_rkyv path args d)
    × ((in_order sample_db).fst ≡ sort d.fst)
    × Holds (in_order sample_db) (
        after old_files
          (rebuild_with_fst plain_rkyv no_failures working mapped true true entries old_files).1)
rebuild_with_fst-some_example =
    rebuild_with_fst-some plain_rkyv no_failures working mapped true true entries old_files
      (in_order sample_db) refl rebuilt_test

rebuild_with_fst-succeeds_example :
    is_some (rebuild_with_fst plain_rkyv no_failures working mapped true true entries old_files).0
    ≡ true
rebuild_with_fst-succeeds_example =
    rebuild_with_fst-succeeds plain_rkyv working true entries old_files working-Works
      (refl, (refl, tt))

-- The transaction does not commit.
abbrev pub no_commit : Txn
no_commit = record no_failures { commit_ok = false }

no_tables_written : transaction plain_rkyv no_commit entries empty_db ≡ none
unfolding transaction exe_to_ids Db.push_id insert
no_tables_written = refl

two_names : keys (exe_to_ids entries []) ≢ []
unfolding keys exe_to_ids Db.push_id get insert
two_names e = cc e

rebuild_with_fst-Restarts_example :
    All
      (Restarts plain_rkyv working working-Works entries)
      (rebuild_with_fst plain_rkyv no_failures working mapped true true entries old_files).1
unfolding keys exe_to_ids Db.push_id get insert sort dirpc.Prelude.Sort.bytes_leb
rebuild_with_fst-Restarts_example =
    rebuild_with_fst-Restarts plain_rkyv working working-Works entries
      ((refl, tt), ((refl, tt), tt)) two_names no_failures working mapped true true old_files refl
      (λ e. absurd (omega (arith, e)))

start_process_scanner-interrupted_example :
    ((rebuild_with_fst plain_rkyv no_commit working mapped true true entries old_files).0 ≡ none)
    × (last : ℕ) × (start_process_scanner reader plain_rkyv integers shown_text fixed_text unchanged
          (open_with_fst working clean (
            after old_files
              (rebuild_with_fst plain_rkyv no_commit working mapped true true entries
                old_files).1)).0
          (some "v1")
          0
          week_later
          new
        ≡ some (
            idle reader plain_rkyv "v1" integers shown_text fixed_text
              (stale_index (codes "old" ∷ []))
              new
              last))
start_process_scanner-interrupted_example =
    start_process_scanner-interrupted reader plain_rkyv "v1" integers shown_text fixed_text
      unchanged 0 week_later new no_commit working working mapped true entries old_files
      (codes "old") [] refl refl no_tables_written ((no_news, refl, refl), tt)

open_with_fst-rebuild_with_fst_example :
    open_with_fst working clean (
      after old_files
        (rebuild_with_fst plain_rkyv no_failures working mapped true true entries old_files).1)
    ≡ (some (in_order sample_db), [])
open_with_fst-rebuild_with_fst_example =
    open_with_fst-rebuild_with_fst plain_rkyv no_failures working working mapped true true entries
      old_files (in_order sample_db) ((refl, tt), ((refl, tt), tt)) refl rebuilt_test
