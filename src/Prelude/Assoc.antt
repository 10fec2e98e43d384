-- ===== src/Prelude/Assoc.antt =====
-- Maps as association lists without order: the program's hash maps and JSON objects. `insert`
-- overwrites in place, and a new key goes to the end.
use mathlib.Core.Path.{◌≡◌, refl}
use mathlib.Core.Bool.{false}
use mathlib.Core.Option.{Option, none, some}
use mathlib.Core.List.{List, [], ◌∷◌}
use native.Mathlib.Omega.{arith}
use mathlib.Core.Logic.{inl, inr}
use dirpc.Prelude.Tests.{if◌then◌else◌, Bool-cases}
use dirpc.Prelude.Keys.{Eq, ◌==◌, ==_iff}

abbrev pub Assoc {ℓ κ} : Type ℓ → Type κ → Type (ℓ ⊔ κ)
Assoc K V = List (K × V)

module _ {ℓ κ} {K : Type ℓ} {V : Type κ} ⦃e : Eq K⦄ where
  unfoldable pub get : K → Assoc K V → Option V
  get k [] = none
  get k ((j, v) ∷ m) = if j == k then some v else get k m

  unfoldable pub insert : K → V → Assoc K V → Assoc K V
  insert k v [] = (k, v) ∷ []
  insert k v ((j, w) ∷ m) = if j == k then (j, v) ∷ m else (j, w) ∷ insert k v m

  unfoldable pub remove : K → Assoc K V → Assoc K V
  remove k [] = []
  remove k ((j, w) ∷ m) = let rest = remove k m in if j == k then rest else (j, w) ∷ rest

  pub get-insert :
      (k j : K) (v : V) (m : Assoc K V)
      → get j (insert k v m) ≡ (if k == j then some v else get j m)
  unfolding get insert
  get-insert k j v [] = refl
  get-insert k j v ((i, w) ∷ m) =
      ground (arith, ==_iff k j, ==_iff i k, ==_iff i j, get-insert k j v m)

  pub get-remove :
      (k j : K) (m : Assoc K V) → get j (remove k m) ≡ (if k == j then none else get j m)
  unfolding get remove
  get-remove k j [] = ground arith
  get-remove k j ((i, w) ∷ m) = ground (arith, ==_iff k j, ==_iff i k, ==_iff i j, get-remove k j m)

  -- No key stands twice.
  abbrev pub IsMap : Assoc K V → Type κ
  IsMap [] = Unit
  IsMap ((k, v) ∷ m) = (get k m ≡ none) × IsMap m

  absent-insert :
      (k j : K) (v : V) (m : Assoc K V)
      → (j == k) ≡ false
      → get j m ≡ none
      → get j (insert k v m) ≡ none
  absent-insert k j v m e h = ground (arith, get-insert k j v m, ==_iff k j, ==_iff j k)

  pub IsMap-insert : (k : K) (v : V) (m : Assoc K V) → IsMap m → IsMap (insert k v m)
  unfolding insert
  IsMap-insert k v [] h = (unfold get in refl, tt)
  IsMap-insert k v ((j, w) ∷ m) (fresh, h) = elim (Bool-cases (j == k)) [
    | inl e ↦ rw e (fresh, h)
    | inr e ↦ rw e (absent-insert k j v m e fresh, IsMap-insert k v m h)
  ]

  absent-remove : (k j : K) (m : Assoc K V) → get j m ≡ none → get j (remove k m) ≡ none
  absent-remove k j m h = ground (arith, get-remove k j m)

  pub IsMap-remove : (k : K) (m : Assoc K V) → IsMap m → IsMap (remove k m)
  unfolding remove
  IsMap-remove k [] h = tt
  IsMap-remove k ((j, w) ∷ m) (fresh, h) = elim (Bool-cases (j == k)) [
    | inl e ↦ rw e (IsMap-remove k m h)
    | inr e ↦ rw e (absent-remove k j m fresh, IsMap-remove k m h)
  ]
