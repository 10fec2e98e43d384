-- ===== src/Detect/Files/Opening/RoundTrip.antt =====
-- A database that was rebuilt is opened as it was.
use dirpc.Prelude.{
  Bool, Bytes, bytes_key, Option, none, some, List, [], length, nat_eq, ==_refl, ◌≡◌, ◌∙◌, refl,
  sym, ap, subst, All,
}
use dirpc.Prelude.Sort.{sort, length-sort}
use dirpc.Detect.{DetectableEntry}
use dirpc.Detect.Db
use dirpc.Detect.Db.{Rkyv, DetectableDb, empty_db}
use dirpc.Detect.Db.Open.{FstFile, valid_file}
use dirpc.Detect.Db.Open.Rows.{IsLine}
use dirpc.Detect.Db.Writing.{Steps, Disk}
use dirpc.Detect.Files.{Files, Txn, Mapping, removed, handle, load_mmap_fst, rebuild_with_fst}
use dirpc.Detect.Files.Opening.{
  mapped_or_rebuilt, load_fst, opened, on_table, on_file, open_with_fst,
}
use dirpc.Detect.Files.Commit.{in_order}
use dirpc.Detect.Files.Rebuilds.{after, Holds, rebuild_with_fst-in_order}
use dirpc.Detect.Files.Opening.Reopens.{clean, readable-clean, rows-filled}
use dirpc.Detect.Files.Succeeds.{mapped}

load-sorted :
    (steps : Steps) (names : List Bytes) (d : Disk)
    → mapped_or_rebuilt steps clean names d (load_mmap_fst mapped (valid_file (sort names)))
      ≡ (some (sort names), [])
unfolding mapped_or_rebuilt load_mmap_fst
load-sorted steps names d = rw (length-sort names, ==_refl (length names)) refl

-- The files are read, and not written.
open-Holds :
    (rkyv : Rkyv) (steps : Steps) (es : List DetectableEntry) (d : DetectableDb) (f : Files)
    → All (λ e. IsLine e.id) es
    → Db.ingest_entries rkyv es empty_db ≡ some d
    → Holds (in_order d) f
    → open_with_fst steps clean f ≡ (some (in_order d), [])
unfolding open_with_fst on_table load_fst
open-Holds rkyv steps es d f lines filled (tables, index) =
    let (names, ids) = rows-filled rkyv es d lines filled in
    let choose : FstFile → Option DetectableDb × List Files = λ file.
      opened steps clean (handle (record { apps = d.apps; exes = some d.exes })) d.exe_index f
        (mapped_or_rebuilt steps clean d.fst f.index (load_mmap_fst mapped file)) in
    ap (λ o. on_file steps clean o f) tables
    ∙ rw (readable-clean d.exes, names, ids)
        (ap choose index ∙ rw (load-sorted steps d.fst f.index) refl)

-- Where a rebuild succeeds, with the old database out of the way and no line break in an id, the next
-- start reads back exactly its database, and writes nothing.
pub open_with_fst-rebuild_with_fst :
    (rkyv : Rkyv) (txn : Txn) (steps repair : Steps) (m : Mapping) (remove_ok create_ok : Bool)
    (es : List DetectableEntry) (f : Files) (db : DetectableDb)
    → All (λ e. IsLine e.id) es
    → (removed remove_ok f).redb ≡ none
    → (rebuild_with_fst rkyv txn steps m remove_ok create_ok es f).0 ≡ some db
    → open_with_fst repair clean
        (after f (rebuild_with_fst rkyv txn steps m remove_ok create_ok es f).1)
      ≡ (some db, [])
open_with_fst-rebuild_with_fst rkyv txn steps repair m remove_ok create_ok es f db lines gone h =
    let f' = after f (rebuild_with_fst rkyv txn steps m remove_ok create_ok es f).1 in
    let (d, filled, same, holds) =
      rebuild_with_fst-in_order rkyv txn steps m remove_ok create_ok es f db gone h in
    open-Holds rkyv repair es d f' lines filled (subst (λ b. Holds b f') (sym same) holds)
    ∙ ap (λ b. (some b, [])) same
