-- ===== src/Detect/Db/Writing.antt =====
-- `write_fst_file` of src/process/detectable.rs: the file of the FST is written beside the old one and
-- renamed over it. Each step may fail; the list holds what the disk shows after each step that did
-- something, in order.
pub mod Recovery
pub mod InOrder
use dirpc.Prelude.{
  Bool, true, false, ◌&&◌, Bytes, List, [], ◌∷◌, ◌++◌, if◌then◌else◌, ◌≡◌, refl, All, Bool-cases,
  inl, inr,
}
use dirpc.Detect.Db.Open.{FstFile, absent_file, corrupt_file, valid_file}

-- Which steps succeed; `insert_ok` depends on the keys that are there.
pub record Steps : Type 0 where
  pub dir_ok : Bool
  pub create_ok : Bool
  pub builder_ok : Bool
  pub insert_ok : List Bytes → Bytes → Bool
  pub finish_ok : Bool
  pub flush_ok : Bool
  pub rename_ok : Bool

-- The file and the temporary file beside it.
pub record Disk : Type 0 where
  pub target : FstFile
  pub tmp : FstFile

abbrev then_show : Disk → Bool × List Disk → Bool × List Disk
then_show d (ok, states) = (ok, d ∷ states)

-- The old file all the time where the write fails; where it succeeds, the old file in each state
-- but the last, which has the new one.
abbrev pub Atomic : FstFile → List Bytes → Bool × List Disk → Type 0
Atomic old keys (true, []) = ⊥
Atomic old keys (true, s ∷ []) = s.target ≡ valid_file keys
Atomic old keys (true, s ∷ t ∷ rest) = (s.target ≡ old) × Atomic old keys (true, t ∷ rest)
Atomic old keys (false, states) = All (λ s. s.target ≡ old) states

show-Atomic :
    (s : Disk) (old : FstFile) (keys : List Bytes) (r : Bool × List Disk)
    → s.target ≡ old
    → Atomic old keys r
    → Atomic old keys (then_show s r)
show-Atomic s old keys (true, []) e h = absurd h
show-Atomic s old keys (true, t ∷ rest) e h = (e, h)
show-Atomic s old keys (false, states) e h = (e, h)

module _ (steps : Steps) where
  -- Whether all keys are inserted.
  insert_all : List Bytes → List Bytes → Bool
  insert_all before [] = true
  insert_all before (key ∷ keys) =
      steps.insert_ok before key && insert_all (before ++ key ∷ []) keys

  rename : List Bytes → Disk → Bool × List Disk
  rename keys d =
      if steps.rename_ok
      then (true, record { target = d.tmp; tmp = absent_file } ∷ [])
      else (false, [])

  -- `finish` and `flush` complete the temporary file.
  completed : List Bytes → Disk → Bool × List Disk
  completed keys d =
      let whole : Disk = record d { tmp = valid_file keys } in
      if steps.finish_ok && steps.flush_ok then then_show whole (rename keys whole) else (false, [])

  -- The keys are written through a buffer: up to the end the temporary file is no FST.
  filled : List Bytes → Disk → Bool × List Disk
  filled keys d =
      let partial : Disk = record d { tmp = corrupt_file } in
      if steps.builder_ok
      then then_show partial (if insert_all [] keys then completed keys partial else (false, []))
      else (false, [])

  unfoldable pub write_fst_file : List Bytes → Disk → Bool × List Disk
  unfolding insert_all rename completed filled
  write_fst_file keys d =
      let created : Disk = record d { tmp = absent_file } in
      if steps.dir_ok && steps.create_ok
      then then_show created (filled keys created)
      else (false, [])

  rename-Atomic :
      (keys : List Bytes) (d : Disk)
      → d.tmp ≡ valid_file keys
      → Atomic d.target keys (rename keys d)
  unfolding rename
  rename-Atomic keys d whole = elim (Bool-cases steps.rename_ok) [
    | inl y ↦ rw y whole
    | inr n ↦ rw n tt
  ]

  completed-Atomic : (keys : List Bytes) (d : Disk) → Atomic d.target keys (completed keys d)
  unfolding completed
  completed-Atomic keys d = elim (Bool-cases (steps.finish_ok && steps.flush_ok)) [
    | inl y ↦
        let whole : Disk = record d { tmp = valid_file keys } in
        rw y
          (show-Atomic whole d.target keys (rename keys whole) refl (rename-Atomic keys whole refl))
    | inr n ↦ rw n tt
  ]

  filled-Atomic : (keys : List Bytes) (d : Disk) → Atomic d.target keys (filled keys d)
  unfolding filled insert_all completed rename
  filled-Atomic keys d = elim (Bool-cases steps.builder_ok) [
    | inl y ↦
        let partial : Disk = record d { tmp = corrupt_file } in
        elim (Bool-cases (insert_all [] keys)) [
          | inl z ↦
              rw (z, y)
                (show-Atomic partial d.target keys (completed keys partial) refl
                  (completed-Atomic keys partial))
          | inr z ↦ rw (z, y) (refl, tt)
        ]
    | inr n ↦ rw n tt
  ]

  -- The write of an FST file is all or nothing: where any step fails, the file is the old one in every
  -- state on the way and at the end; where it succeeds, it is the old one up to the last state and
  -- then holds exactly the keys.
  pub write_fst_file-Atomic :
      (keys : List Bytes) (d : Disk) → Atomic d.target keys (write_fst_file keys d)
  unfolding write_fst_file
  write_fst_file-Atomic keys d = elim (Bool-cases (steps.dir_ok && steps.create_ok)) [
    | inl y ↦
        let created : Disk = record d { tmp = absent_file } in
        rw y (
          show-Atomic created d.target keys (filled keys created) refl (filled-Atomic keys created))
    | inr n ↦ rw n tt
  ]
