-- ===== src/Json/Maps.antt =====
-- Laws of JSON maps.
use dirpc.Prelude.{
  String, Option, none, some, ◌≡◌, refl, ◌∙◌, arith, if◌then◌else◌, ◌==◌, string_eq, ==_iff,
  Bool-cases, inl, inr, false,
}
use dirpc.Json.{Value, Fields, end, field, lookup, insert}

module _ {N : Type 0} where
  pub lookup-insert :
      (k j : String) (v : Value N) (m : Fields N)
      → lookup j (insert k v m) ≡ (if k == j then some v else lookup j m)
  unfolding lookup insert
  lookup-insert k j v end = refl
  lookup-insert k j v (field i w m) =
      ground (arith, ==_iff k j, ==_iff i k, ==_iff i j, lookup-insert k j v m)

  -- `for (k, v) in &from { into.insert(k, v) }`
  unfoldable pub extend : Fields N → Fields N → Fields N
  extend into end = into
  extend into (field k v m) = extend (insert k v into) m

  -- No key stands twice: a `Map` guarantees it.
  abbrev pub IsMap : Fields N → Type 0
  IsMap end = Unit
  IsMap (field k v m) = (lookup k m ≡ none) × IsMap m

  abbrev pub or_else : Option (Value N) → Option (Value N) → Option (Value N)
  or_else none o = o
  or_else (some v) o = some v

  -- The fields of `from` win.
  pub lookup-extend :
      (into from : Fields N) (k : String)
      → IsMap from
      → lookup k (extend into from) ≡ or_else (lookup k from) (lookup k into)
  unfolding extend lookup
  lookup-extend into end k h = refl
  lookup-extend into (field j v m) k (fresh, h) = elim (Bool-cases (j == k)) [
    | inl e ↦
        rw (lookup-extend (insert j v into) m k h, lookup-insert j k v into, e)
          (let q : j ≡ k = (==_iff j k).0 e in let f : lookup k m ≡ none = rw q at fresh in rw f)
    | inr e ↦ rw (lookup-extend (insert j v into) m k h, lookup-insert j k v into, e)
  ]

  fresh_at :
      (k j : String) (v : Value N) (m : Fields N)
      → (j == k) ≡ false
      → lookup j m ≡ none
      → (if k == j then some v else lookup j m) ≡ none
  fresh_at k j v m e fresh = ground (arith, ==_iff k j, ==_iff j k)

  pub IsMap-insert : (k : String) (v : Value N) (m : Fields N) → IsMap m → IsMap (insert k v m)
  unfolding insert
  IsMap-insert k v end h = (unfold lookup in refl, tt)
  IsMap-insert k v (field j w m) (fresh, h) = elim (Bool-cases (j == k)) [
    | inl e ↦ rw e (fresh, h)
    | inr e ↦ rw e (lookup-insert k j v m ∙ fresh_at k j v m e fresh, IsMap-insert k v m h)
  ]
