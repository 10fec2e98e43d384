-- ===== src/Detect/Db/Reads.antt =====
-- `DetectableDb::match_process` of src/process/detectable.rs where reads of redb fail: the start of the
-- transaction, the opening of the table, the read of a row.
use dirpc.Prelude.{
  Bool, true, false, Bytes, bytes_key, Option, none, some, List, [], any, not, if◌then◌else◌, ◌≡◌,
  ◌∙◌, refl, ap, sym, subst, Bool-cases, inl, inr,
}
use dirpc.Prelude.Assoc.{get}
use dirpc.Detect.{DetectableEntry}
use dirpc.Detect.Db
use dirpc.Detect.Db.{
  Rkyv, DetectableDb, empty_db, ingest_entries, walk_names, candidates, contains, try_app,
}
use dirpc.Detect.Db.Walk.{
  first_of, first_of-ext, all_ids, all_ids-none, walk_names_lem, match_process-first_of,
}
use dirpc.Detect.Db.Refines.{attempt, declared_ids, all_ids_lem, built, ingested, tried}

-- Which reads succeed; `get_ok` by the id of the row.
pub record Reads : Type 0 where
  pub begin_read : Bool
  pub open_table : Bool
  pub get_ok : Bytes → Bool

module _ (rkyv : Rkyv) (reads : Reads) (path : Bytes) (args : List Bytes) where
  -- a row that cannot be read is passed over
  abbrev pub read_app : DetectableDb → Bytes → Option (Bytes × Bytes)
  read_app db app_id = if reads.get_ok app_id then try_app rkyv path args db app_id else none

  unfoldable pub match_process : DetectableDb → Option (Bytes × Bytes)
  unfolding walk_names
  match_process db =
      if not (any (contains db) (candidates path))
      then none
      else if not reads.begin_read
      then none
      else if not reads.open_table
      then none
      else walk_names (read_app db) (contains db) (λ name. get name db.exe_index) (candidates path)
          []

  abbrev named_ids : DetectableDb → List Bytes
  named_ids db = all_ids (contains db) (λ name. get name db.exe_index) (candidates path)

  -- the reads that come before any row
  abbrev pub can_read : Bool
  can_read = if reads.begin_read then reads.open_table else false

  match_process-read_app :
      (db : DetectableDb)
      → match_process db ≡ (if can_read then first_of (read_app db) (named_ids db) else none)
  unfolding match_process
  match_process-read_app db = elim (Bool-cases (any (contains db) (candidates path))) [
    | inl e ↦ elim (Bool-cases reads.begin_read) [
      | inl b ↦ elim (Bool-cases reads.open_table) [
        | inl t ↦
            rw (e, b, t)
              (walk_names_lem (read_app db) (contains db) (λ name. get name db.exe_index)
                (candidates path) [] tt)
        | inr t ↦ rw (e, b, t) refl
      ]
      | inr b ↦ rw (e, b) refl
    ]
    | inr e ↦ elim (Bool-cases can_read) [
      | inl b ↦
          rw (e, b, all_ids-none (contains db) (λ name. get name db.exe_index) (candidates path) e)
            (unfold first_of in refl)
      | inr b ↦ rw (e, b) refl
    ]
  ]

  -- Where no read fails, it is the lookup without failures.
  match_process_ok :
      (db : DetectableDb)
      → can_read ≡ true
      → ((id : Bytes) → reads.get_ok id ≡ true)
      → match_process db ≡ Db.match_process rkyv path args db
  match_process_ok db begun all_ok =
      match_process-read_app db
      ∙ rw begun (
          first_of-ext (read_app db) (try_app rkyv path args db) (named_ids db)
            (λ i. rw (all_ok i) refl))
      ∙ sym (match_process-first_of rkyv path args db)

  -- the test of an id by the entries, where its row can be read
  abbrev pub readable_attempt : List DetectableEntry → Bytes → Option (Bytes × Bytes)
  readable_attempt es id = if reads.get_ok id then attempt es path args id else none

  -- Whatever reads of the database fail, a lookup after the entries were ingested yields exactly this:
  -- nothing, where the transaction or the table cannot be opened; else the first of the ids that the
  -- entries declare for the candidate names whose row can be read and whose last entry is accepted.
  pub match_process-readable :
      (es : List DetectableEntry) (db : DetectableDb)
      → ingest_entries rkyv es empty_db ≡ some db
      → match_process db ≡ (
          if can_read
          then first_of (readable_attempt es) (declared_ids (candidates path) es)
          else none)
  match_process-readable es db filled =
      let (apps, written, same) = ingested es rkyv db filled in
      subst
        (λ d. match_process d ≡ (
          if can_read
          then first_of (readable_attempt es) (declared_ids (candidates path) es)
          else none))
        same
        (match_process-read_app (built es apps)
          ∙ rw (all_ids_lem es (candidates path)) (
              ap (λ r. if can_read then r else none)
                (first_of-ext (read_app (built es apps)) (readable_attempt es) _
                  (λ i. rw (tried es path args rkyv apps written i) refl))))
