-- ===== src/Detect/Files/Killed.antt =====
-- A rebuild that stops at any point, by an error or because the process is killed, and the next start.
use dirpc.Prelude.{
  Bool, true, false, Bytes, bytes_key, Option, none, some, List, [], ◌∷◌, map, ◌≡◌, ◌≢◌, ◌⊎◌, ◌∙◌,
  refl, sym, ap, subst, All, inl, inr,
}
use dirpc.Prelude.Sort.{sort}
use dirpc.Detect.{DetectableEntry}
use dirpc.Detect.Db
use dirpc.Detect.Db.{Rkyv, DetectableDb, empty_db, exe_to_ids, keys, match_process}
use dirpc.Detect.Db.Open.{FstFile}
use dirpc.Detect.Db.Open.Rows.{IsLine}
use dirpc.Detect.Db.Writing.{Steps, Disk, Atomic, write_fst_file, write_fst_file-Atomic}
use dirpc.Detect.Db.Writing.InOrder.{Works}
use dirpc.Detect.Db.Writing.Recovery.{IsHonest}
use dirpc.Detect.Files.{
  Tables, Files, Txn, Mapping, no_tables, handle, names_of, tables_or_none, removed, with_index,
  transaction, committed, ingest_entries, rebuild_with_fst,
}
use dirpc.Detect.Files.Opening.{open_with_fst}
use dirpc.Detect.Files.Commit.{in_order, match_process-in_order, transaction-some, transaction-exes}
use dirpc.Detect.Files.Opening.Reopens.{clean, open_with_fst-filled}

-- Every file on the way is the old one or the new one.
each-IsHonest :
    (names : List Bytes) (old : FstFile) (r : Bool × List Disk)
    → IsHonest names old
    → Atomic old names r
    → All (λ s. IsHonest names s.target) r.1
each-IsHonest names old (false, []) h a = tt
each-IsHonest names old (false, s ∷ states) h (e, a) =
    (subst (IsHonest names) (sym e) h, each-IsHonest names old (false, states) h a)
each-IsHonest names old (true, []) h a = absurd a
each-IsHonest names old (true, s ∷ []) h a = (subst (IsHonest names) (sym a) (λ same. refl), tt)
each-IsHonest names old (true, s ∷ t ∷ rest) h (e, a) =
    (subst (IsHonest names) (sym e) h, each-IsHonest names old (true, t ∷ rest) h a)

module _ (rkyv : Rkyv) (repair : Steps) (w : Works repair) (es : List DetectableEntry) where
  -- The next start opens a database whose lookups are those of the filled one.
  abbrev pub Found : Files → Type 0
  Found s =
      (d : DetectableDb) × (d' : DetectableDb) × (Db.ingest_entries rkyv es empty_db ≡ some d)
      × ((open_with_fst repair clean s).0 ≡ some d')
      × ((path : Bytes) (args : List Bytes)
          → match_process rkyv path args d' ≡ match_process rkyv path args d)

  -- There is no database, or one without tables, or the whole new one.
  abbrev pub Restarts : Files → Type 0
  Restarts s = (s.redb ≡ none) ⊎ ((s.redb ≡ some no_tables) ⊎ Found s)

  module _ (lines : All (λ e. IsLine e.id) es) (some_names : keys (exe_to_ids es []) ≢ []) where
    found :
        (t : Tables) (f : Files) (d : DetectableDb)
        → Db.ingest_entries rkyv es empty_db ≡ some d
        → d.fst ≡ keys (exe_to_ids es [])
        → some t ≡ some (record { apps = d.apps; exes = some d.exes })
        → f.redb ≡ some t
        → IsHonest (names_of es) f.index.target
        → Found f
    found t f d filled e tables same honest = (
      d,
      in_order d,
      filled,
      open_with_fst-filled repair w rkyv es d f lines filled (λ n. some_names (sym e ∙ n))
          (same ∙ tables) (subst (λ l. IsHonest (sort l) f.index.target) (sym e) honest),
      λ path args. match_process-in_order rkyv path args d,
    )

    all-found :
        (t : Tables) (f : Files) (d : DetectableDb) (states : List Disk)
        → Db.ingest_entries rkyv es empty_db ≡ some d
        → d.fst ≡ keys (exe_to_ids es [])
        → some t ≡ some (record { apps = d.apps; exes = some d.exes })
        → f.redb ≡ some t
        → All (λ s. IsHonest (names_of es) s.target) states
        → All Restarts (map (with_index f) states)
    all-found t f d [] filled e tables same h = tt
    all-found t f d (s ∷ states) filled e tables same (h, hs) = (
      inr (inr (found t (with_index f s) d filled e tables same h)),
      all-found t f d states filled e tables same hs,
    )

    module _ (txn : Txn) (steps : Steps) (m : Mapping) where
      committed-Restarts :
          (o : Option Tables) (f : Files)
          → transaction rkyv txn es empty_db ≡ o
          → IsHonest (names_of es) f.index.target
          → All Restarts (committed rkyv txn steps m es empty_db o f).1
      unfolding committed
      committed-Restarts none f e honest = tt
      committed-Restarts (some t) f e honest =
          let filled = transaction-some rkyv txn es empty_db e in
          let tables =
            ap (λ o. some (record t { exes = o })) (transaction-exes rkyv txn es empty_db e) in
          let f' : Files = record f { redb = some t } in
          (
            inr (inr (found t f' _ filled refl tables refl honest)),
            all-found t f' _ (write_fst_file steps (names_of es) f.index).1 filled refl tables refl
                (each-IsHonest (names_of es) f.index.target
                  (write_fst_file steps (names_of es) f.index) honest
                  (write_fst_file-Atomic steps (names_of es) f.index)),
          )

      ingested-Restarts :
          (o : Option Tables) (f : Files)
          → o ≡ none
          → IsHonest (names_of es) f.index.target
          → All Restarts (ingest_entries rkyv txn steps m es (handle (tables_or_none o)) f).1
      unfolding ingest_entries
      ingested-Restarts none f e honest =
          committed-Restarts (transaction rkyv txn es empty_db) f refl honest
      ingested-Restarts (some t) f e honest = cc

      -- Wherever a rebuild of entries with names stops, after the old database was removed: a next start
      -- that meets no failure finds no database, or one without tables, or opens one with the lookups of
      -- the new entries, provided that no id holds a line break, and that the old file of the FST is not
      -- one of as many names that differ from the new ones.
      pub rebuild_with_fst-Restarts :
          (remove_ok create_ok : Bool) (f : Files)
          → (removed remove_ok f).redb ≡ none
          → IsHonest (names_of es) (removed remove_ok f).index.target
          → All Restarts (rebuild_with_fst rkyv txn steps m remove_ok create_ok es f).1
      unfolding rebuild_with_fst
      rebuild_with_fst-Restarts remove_ok false f gone honest = (inl gone, tt)
      rebuild_with_fst-Restarts remove_ok true f gone honest = (
        inl gone,
        (
          inr (inl (ap (λ o. some (tables_or_none o)) gone)),
          ingested-Restarts (removed remove_ok f).redb _ gone honest,
        ),
      )
