-- ===== src/Detect/Db/Search.antt =====
-- What trying ids in order, and naming an entry by its id, find.
use dirpc.Prelude.{
  Bool, true, Bytes, bytes_key, bytes_eq, bytes_eq_iff, Option, some, is_some, List, [], ◌∷◌, any,
  ◌==◌, ==_iff, ◌≡◌, ◌∙◌, refl, ap, arith, Bool-cases, Option-cases, inl, inr, nat_eq,
}
use dirpc.Detect.{DetectableEntry}
use dirpc.Detect.Linear.{first}
use dirpc.Detect.Db.Walk.{first_of}
use dirpc.Detect.Db.Ingest.{last_with}

-- The ids hold one.
abbrev pub has : Bytes → List Bytes → Bool
has i is = any (λ j. bytes_eq j i) is

-- an attempt that succeeds on one of the ids succeeds on the first such
pub first_of-has :
    {R : Type 0} (f : Bytes → Option R) (i : Bytes) (is : List Bytes)
    → has i is ≡ true
    → is_some (f i) ≡ true
    → is_some (first_of f is) ≡ true
unfolding first_of
first_of-has f i [] h s = cc
first_of-has f i (j ∷ js) h s = elim (Option-cases (f j)) [
  | inl e ↦ elim (Bool-cases (bytes_eq j i)) [
    | inl same ↦ cc (ap f ((bytes_eq_iff j i).0 same), e, s)
    | inr other ↦ rw e (first_of-has f i js (rw other at h) s)
  ]
  | inr (r, e) ↦ rw e refl
]

pub first_of-some :
    {R : Type 0} (f : Bytes → Option R) (is : List Bytes) (r : R)
    → first_of f is ≡ some r
    → (i : Bytes) × (f i ≡ some r)
unfolding first_of
first_of-some f [] r h = cc
first_of-some f (i ∷ is) r h = elim (Option-cases (f i)) [
  | inl e ↦ first_of-some f is r (rw e at h)
  | inr (q, e) ↦ (i, e ∙ (rw e at h))
]

pub last_with-id :
    (i : Bytes) (es : List DetectableEntry) (e : DetectableEntry)
    → last_with i es ≡ some e
    → e.id ≡ i
unfolding last_with
last_with-id i [] e h = cc
last_with-id i (d ∷ es) e h = elim (Option-cases (last_with i es)) [
  | inl q ↦ let k = rw q at h in ground (arith, ==_iff d.id i)
  | inr (x, q) ↦ last_with-id i es e (q ∙ (rw q at h))
]

pub last_with-first :
    (p : DetectableEntry → Bool) (i : Bytes) (es : List DetectableEntry) (e : DetectableEntry)
    → last_with i es ≡ some e
    → p e ≡ true
    → is_some (first p es) ≡ true
unfolding last_with first
last_with-first p i [] e h t = cc
last_with-first p i (d ∷ es) e h t = elim (Bool-cases (p d)) [
  | inl u ↦ rw u refl
  | inr u ↦ elim (Option-cases (last_with i es)) [
    | inl q ↦ elim (Bool-cases (d.id == i)) [
      | inl same ↦ cc (rw (q, same) at h, t, u)
      | inr other ↦ cc (rw (q, other) at h)
    ]
    | inr (x, q) ↦ rw u (last_with-first p i es e (q ∙ (rw q at h)) t)
  ]
]
