-- ===== src/Detect/Db/Open/Rows.antt =====
-- The rows of the EXES table, written and read back.
use dirpc.Prelude.{
  true, false, Bytes, bytes_key, none, is_some, List, [], ◌∷◌, ◌++◌, append_assoc, append-nil, ◌==◌,
  ==_iff, ==_refl, nat_eq, ◌≡◌, ◌≢◌, ◌∙◌, refl, sym, ap, All, Bool-cases, inl, inr,
}
use dirpc.Prelude.Assoc.{Assoc, get, insert, IsMap}
use dirpc.Detect.Db.{join_lines, write_exes, fill_index, keys}
use dirpc.Detect.Db.Open.{split_lines, read_rows, row_names}

-- A line holds no line break.
abbrev pub IsLine : Bytes → Type 0
IsLine l = All (λ c. (c == b'\n') ≡ false) l

abbrev pub IsIds : List Bytes → Type 0
IsIds ids = (ids ≢ []) × All IsLine ids

split_lines-append : (l s : Bytes) → IsLine l → split_lines (l ++ b'\n' ∷ s) ≡ l ∷ split_lines s
unfolding split_lines
split_lines-append [] s h = refl
split_lines-append (c ∷ l) s (e, h) = rw (e, split_lines-append l s h) refl

split_lines-line : (l : Bytes) → IsLine l → split_lines l ≡ l ∷ []
unfolding split_lines
split_lines-line [] h = refl
split_lines-line (c ∷ l) (e, h) = rw (e, split_lines-line l h) refl

split_lines-join_lines : (ids : List Bytes) → IsIds ids → split_lines (join_lines ids) ≡ ids
unfolding join_lines
split_lines-join_lines [] (ne, h) = absurd (ne refl)
split_lines-join_lines (l ∷ []) (ne, (h, _)) = split_lines-line l h
split_lines-join_lines (l ∷ m ∷ ids) (ne, (h, hs)) =
    split_lines-append l (join_lines (m ∷ ids)) h
    ∙ ap (λ t. l ∷ t) (split_lines-join_lines (m ∷ ids) ((λ e. cc e), hs))

-- the table's rows
unfoldable pub joined : Assoc Bytes (List Bytes) → Assoc Bytes Bytes
joined [] = []
joined ((n, ids) ∷ m) = (n, join_lines ids) ∷ joined m

insert-fresh :
    (k v : Bytes) (m : Assoc Bytes Bytes) → get k m ≡ none → insert k v m ≡ m ++ (k, v) ∷ []
unfolding insert get
insert-fresh k v [] e = refl
insert-fresh k v ((j, w) ∷ m) e = elim (Bool-cases (j == k)) [
  | inl same ↦ cc (rw same at e)
  | inr other ↦ rw (other, insert-fresh k v m (rw other at e)) refl
]

get-fresh :
    (j k v : Bytes) (m : Assoc Bytes Bytes)
    → get j m ≡ none
    → (k == j) ≡ false
    → get j (m ++ (k, v) ∷ []) ≡ none
unfolding get
get-fresh j k v [] e other = rw other refl
get-fresh j k v ((i, w) ∷ m) e other = elim (Bool-cases (i == j)) [
  | inl same ↦ cc (rw same at e)
  | inr apart ↦ rw apart (get-fresh j k v m (rw apart at e) other)
]

in_head :
    (k : Bytes) (ids : List Bytes) (m : Assoc Bytes (List Bytes))
    → is_some (get k ((k, ids) ∷ m)) ≡ true
unfolding get
in_head k ids m = rw (==_refl k) refl

in_tail :
    (k j : Bytes) (ids : List Bytes) (m : Assoc Bytes (List Bytes))
    → get k m ≡ none
    → is_some (get j m) ≡ true
    → ((k == j) ≡ false) × (is_some (get j ((k, ids) ∷ m)) ≡ true)
unfolding get
in_tail k j ids m fresh e = elim (Bool-cases (k == j)) [
  | inl same ↦ cc (ap (λ t. is_some (get t m)) ((==_iff k j).0 same), fresh, e)
  | inr other ↦ (other, rw other e)
]

write_exes_lem :
    (m : Assoc Bytes (List Bytes)) (exes : Assoc Bytes Bytes)
    → IsMap m
    → ((j : Bytes) → is_some (get j m) ≡ true → get j exes ≡ none)
    → write_exes m exes ≡ exes ++ joined m
unfolding write_exes joined
write_exes_lem [] exes h d = sym (append-nil exes)
write_exes_lem ((k, ids) ∷ m) exes (fresh, h) d =
    ap (write_exes m) (insert-fresh k (join_lines ids) exes (d k (in_head k ids m)))
    ∙ write_exes_lem m (exes ++ (k, join_lines ids) ∷ []) h (λ j e.
      let (other, there) = in_tail k j ids m fresh e in
      get-fresh j k (join_lines ids) exes (d j there) other)
    ∙ append_assoc exes _ (joined m)

pub write_exes-joined : (m : Assoc Bytes (List Bytes)) → IsMap m → write_exes m [] ≡ joined m
unfolding get
write_exes-joined m h = write_exes_lem m [] h (λ j e. refl)

pub row_names-joined : (m : Assoc Bytes (List Bytes)) → row_names (joined m) ≡ keys m
unfolding row_names joined keys
row_names-joined [] = refl
row_names-joined ((n, ids) ∷ m) = ap (λ t. n ∷ t) (row_names-joined m)

pub read_rows-joined :
    (m index : Assoc Bytes (List Bytes))
    → All (λ p. IsIds p.1) m
    → read_rows (joined m) index ≡ fill_index m index
unfolding read_rows joined fill_index
read_rows-joined [] index h = refl
read_rows-joined ((n, ids) ∷ m) index (ok, h) =
    ap (λ t. read_rows (joined m) (insert n t index)) (split_lines-join_lines ids ok)
    ∙ read_rows-joined m (insert n ids index) h
