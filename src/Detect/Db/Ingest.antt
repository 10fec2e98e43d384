-- ===== src/Detect/Db/Ingest.antt =====
-- What a database holds after `ingest_entries`.
use dirpc.Prelude.{
  Bytes, bytes_key, bytes_eq, bytes_eq_iff, Option, none, some, is_some, List, [], ◌∷◌, ◌++◌, any,
  append_assoc, append-nil, if◌then◌else◌, ◌==◌, ==_iff, ◌≡◌, ◌∙◌, refl, sym, ap, arith, Bool-cases,
  Option-cases, inl, inr, ◌>>=◌,
}
use dirpc.Prelude.Assoc.{Assoc, get, insert, get-insert, IsMap, IsMap-insert}
use dirpc.Detect.{or_rest_assoc, Executable, DetectableEntry, or_rest}
use dirpc.Detect.Db.{
  Rkyv, or_empty, push_id, push_executables, exe_to_ids, fill_index, keys, write_apps,
}

-- An id for each executable of a name, in the order of the entries.
unfoldable pub declared : Bytes → Bytes → List Executable → List Bytes
declared name id [] = []
declared name id (exe ∷ exes) = (if exe.name == name then id ∷ [] else []) ++ declared name id exes

unfoldable pub ids_of : Bytes → List DetectableEntry → List Bytes
ids_of name [] = []
ids_of name (e ∷ es) = declared name e.id e.executables ++ ids_of name es

-- The entry that an id names: the last one.
unfoldable pub last_with : Bytes → List DetectableEntry → Option DetectableEntry
last_with id [] = none
last_with id (e ∷ es) = or_rest (last_with id es) (if e.id == id then some e else none)

push_id_lem :
    (name n id : Bytes) (m : Assoc Bytes (List Bytes))
    → or_empty (get n (push_id name id m))
      ≡ or_empty (get n m) ++ (if name == n then id ∷ [] else [])
unfolding push_id
push_id_lem name n id m = elim (Bool-cases (name == n)) [
  | inl e ↦ rw (get-insert, e) (ap (λ x. or_empty (get x m) ++ id ∷ []) ((==_iff name n).0 e))
  | inr e ↦ rw (get-insert, e) (sym (append-nil _))
]

push_executables_lem :
    (n id : Bytes) (exes : List Executable) (m : Assoc Bytes (List Bytes))
    → or_empty (get n (push_executables id exes m)) ≡ or_empty (get n m) ++ declared n id exes
unfolding push_executables declared
push_executables_lem n id [] m = sym (append-nil _)
push_executables_lem n id (exe ∷ exes) m =
    push_executables_lem n id exes (push_id exe.name id m)
    ∙ ap (λ x. x ++ declared n id exes) (push_id_lem exe.name n id m)
    ∙ append_assoc (or_empty (get n m)) _ (declared n id exes)

pub exe_to_ids_lem :
    (n : Bytes) (es : List DetectableEntry) (m : Assoc Bytes (List Bytes))
    → or_empty (get n (exe_to_ids es m)) ≡ or_empty (get n m) ++ ids_of n es
unfolding exe_to_ids ids_of
exe_to_ids_lem n [] m = sym (append-nil _)
exe_to_ids_lem n (e ∷ es) m =
    exe_to_ids_lem n es (push_executables e.id e.executables m)
    ∙ ap (λ x. x ++ ids_of n es) (push_executables_lem n e.id e.executables m)
    ∙ append_assoc (or_empty (get n m)) _ (ids_of n es)

IsMap-push_executables :
    (id : Bytes) (exes : List Executable) (m : Assoc Bytes (List Bytes))
    → IsMap m
    → IsMap (push_executables id exes m)
unfolding push_executables push_id
IsMap-push_executables id [] m h = h
IsMap-push_executables id (exe ∷ exes) m h =
    IsMap-push_executables id exes (push_id exe.name id m) (IsMap-insert exe.name _ m h)

pub IsMap-exe_to_ids :
    (es : List DetectableEntry) (m : Assoc Bytes (List Bytes)) → IsMap m → IsMap (exe_to_ids es m)
unfolding exe_to_ids
IsMap-exe_to_ids [] m h = h
IsMap-exe_to_ids (e ∷ es) m h =
    IsMap-exe_to_ids es _ (IsMap-push_executables e.id e.executables m h)

pub get-fill_index :
    (n : Bytes) (m index : Assoc Bytes (List Bytes))
    → IsMap m
    → get n (fill_index m index) ≡ or_rest (get n m) (get n index)
unfolding fill_index get
get-fill_index n [] index h = refl
get-fill_index n ((k, v) ∷ m) index (fresh, h) = ground (
  arith,
  get-fill_index n m (insert k v index) h,
  get-insert k n v index,
  bytes_eq_iff k n,
  fresh,
)

pub any-keys :
    (n : Bytes) (m : Assoc Bytes (List Bytes))
    → any (λ key. bytes_eq key n) (keys m) ≡ is_some (get n m)
unfolding keys get
any-keys n [] = refl
any-keys n ((k, v) ∷ m) = ground (arith, any-keys n m)

module _ (rkyv : Rkyv) where
  -- the row that one entry writes, read back
  row :
      (id : Bytes) (e : DetectableEntry) (b : Bytes) (apps : Assoc Bytes Bytes)
      → rkyv.to_bytes e ≡ some b
      → (get id (insert e.id b apps) >>= rkyv.access)
        ≡ or_rest (if e.id == id then some e else none) (get id apps >>= rkyv.access)
  row id e b apps f = elim (Bool-cases (e.id == id)) [
    | inl same ↦ rw (get-insert, same) (rkyv.access-to_bytes e b f)
    | inr other ↦ rw (get-insert, other) refl
  ]

  pub write_apps_lem :
      (id : Bytes) (es : List DetectableEntry) (apps apps' : Assoc Bytes Bytes)
      → write_apps rkyv es apps ≡ some apps'
      → (get id apps' >>= rkyv.access) ≡ or_rest (last_with id es) (get id apps >>= rkyv.access)
  unfolding write_apps last_with
  write_apps_lem id [] apps apps' h = cc
  write_apps_lem id (e ∷ es) apps apps' h = elim (Option-cases (rkyv.to_bytes e)) [
    | inl f ↦ cc (rw f at h)
    | inr (b, f) ↦
        write_apps_lem id es (insert e.id b apps) apps' (rw f at h)
        ∙ ap (or_rest (last_with id es)) (row id e b apps f)
        ∙ or_rest_assoc (last_with id es) _ _
  ]
