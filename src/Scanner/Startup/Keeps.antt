-- ===== src/Scanner/Startup/Keeps.antt =====
-- The scanner's loop gives up a database only for one with entries.
use dirpc.Prelude.{
  ℕ, ◌*◌, ◌-◌, String, Bool, true, false, Bytes, Option, none, some, List, [], ◌∷◌, ltb, ◌≡◌, ◌⊎◌,
  ◌∙◌, refl, sym, ap, Bool-cases, inl, inr,
}
use dirpc.Json.{Numbers, Value}
use dirpc.Detect.{DetectableEntry}
use dirpc.Detect.Db.{Rkyv, DetectableDb, empty_db, ingest_entries}
use dirpc.Detect.Payload.{Entries, Reader}
use dirpc.Detect.Fetch.{load_detectable_entries}
use dirpc.Scanner.Startup.{rebuild, Net, Store, kept, replaced, Round, refresh, State, scan_loop}

-- `new` is `old`, or filled from a list of entries that is not empty.
abbrev pub ComesFrom : Rkyv → DetectableDb → DetectableDb → Type 0
ComesFrom rkyv old new =
    (new ≡ old)
    ⊎ ((e : DetectableEntry) × (es : Entries) × (ingest_entries rkyv (e ∷ es) empty_db ≡ some new))

ComesFrom-trans :
    (rkyv : Rkyv) (a b c : DetectableDb)
    → ComesFrom rkyv a b
    → ComesFrom rkyv b c
    → ComesFrom rkyv a c
ComesFrom-trans rkyv a b c h (inr filled) = inr filled
ComesFrom-trans rkyv a b c (inl p) (inl q) = inl (q ∙ p)
ComesFrom-trans rkyv a b c (inr (e, es, p)) (inl q) = inr (e, es, p ∙ ap some (sym q))

module _ {M : Type 0} (reader : Reader M) (rkyv : Rkyv) where
  replaced-ComesFrom :
      (db : DetectableDb) (e : DetectableEntry) (es : Entries) (o : Option DetectableDb)
      → (o ≡ none) ⊎ (o ≡ ingest_entries rkyv (e ∷ es) empty_db)
      → ComesFrom rkyv db (replaced reader rkyv db o)
  replaced-ComesFrom db e es none h = inl refl
  replaced-ComesFrom db e es (some new) (inl h) = absurd (cc)
  replaced-ComesFrom db e es (some new) (inr h) = inr (e, es, sym h)

  rebuild-cases :
      (ok : Bool) (es : Entries)
      → (rebuild rkyv ok es ≡ none) ⊎ (rebuild rkyv ok es ≡ ingest_entries rkyv es empty_db)
  unfolding rebuild
  rebuild-cases true es = inr refl
  rebuild-cases false es = inl refl

  kept-ComesFrom :
      (net : Net) (db : DetectableDb) (es : Entries)
      → ComesFrom rkyv db (kept reader rkyv net db es)
  kept-ComesFrom net db [] = inl refl
  kept-ComesFrom net db (e ∷ es) =
      replaced-ComesFrom db e es (rebuild rkyv net.create_ok (e ∷ es))
        (rebuild-cases net.create_ok (e ∷ es))

  refresh-ComesFrom :
      (r : Round) (s : Store) (last : ℕ)
      → ComesFrom rkyv s.db (refresh reader rkyv r (s, last)).0.db
  unfolding refresh
  refresh-ComesFrom r s last = elim (Bool-cases (ltb (7 * 24 * 3600) (r.now - last))) [
    | inl y ↦ rw y (
        kept-ComesFrom r.net s.db
          (load_detectable_entries reader r.net.send r.net.etag_failure s.etag).0)
    | inr n ↦ rw n (inl refl)
  ]

  module _ (num : Numbers) (text : Bytes → String)
      (to_string : Value num.Number → Option String) where
    -- Whatever the refreshes meet, a 304, an error, a list without entries or a failed rebuild, the
    -- scanner's database is at the end the one at the start, or filled from a list with entries.
    pub scan_loop-ComesFrom :
        (rs : List Round) (s : State num.Number)
        → ComesFrom rkyv s.store.db (scan_loop reader rkyv num text to_string rs s).store.db
    unfolding scan_loop
    scan_loop-ComesFrom [] s = inl refl
    scan_loop-ComesFrom (r ∷ rs) s =
        ComesFrom-trans rkyv _ _ _ (refresh-ComesFrom r s.store s.last_refresh)
          (scan_loop-ComesFrom rs _)
