-- ===== src/Paths/Split.antt =====
-- Laws of `split` and `parts`: the components of a path.
use dirpc.Prelude.{
  ◌≡◌, ◌≢◌, refl, true, false, not, Bool-cases, inl, inr, Bytes, List, [], ◌∷◌, ◌++◌, arith, All,
  filter, if◌then◌else◌, All-append, ℕ, ap,
}
use dirpc.Paths.{is_sep, is_empty, cons_head, split, parts}

abbrev pub IsSep : ℕ → Type 0
IsSep c = is_sep c ≡ true

abbrev pub IsPlain : ℕ → Type 0
IsPlain c = is_sep c ≡ false

-- A component: not empty, and with no separator.
abbrev pub IsPart : Bytes → Type 0
IsPart p = (p ≢ []) × All IsPlain p

split-cons : (c : ℕ) (s : Bytes) → IsPlain c → split (c ∷ s) ≡ cons_head c (split s)
unfolding split
split-cons c s h = rw h

split-sep : (c : ℕ) (s : Bytes) → IsSep c → split (c ∷ s) ≡ [] ∷ split s
unfolding split
split-sep c s h = rw h

split-ne-nil : (s : Bytes) → split s ≢ []
unfolding split
split-ne-nil [] = cc
split-ne-nil (c ∷ s) = ground (arith, split-ne-nil s)

cons_head-append :
    (c : ℕ) (ps qs : List Bytes) → ps ≢ [] → cons_head c (ps ++ qs) ≡ cons_head c ps ++ qs
cons_head-append c [] qs h = absurd (h refl)
cons_head-append c (p ∷ ps) qs h = refl

-- A separator ends the split of what is in front of it.
split-append : (s : Bytes) (c : ℕ) (t : Bytes) → IsSep c → split (s ++ c ∷ t) ≡ split s ++ split t
split-append [] c t h = rw (split-sep c t h) (unfold split in refl)
split-append (d ∷ s) c t h = elim (Bool-cases (is_sep d)) [
  | inl p ↦ rw (split-sep d (s ++ c ∷ t) p, split-sep d s p, split-append s c t h)
  | inr p ↦
      rw (split-cons d (s ++ c ∷ t) p, split-cons d s p, split-append s c t h)
        (cons_head-append d (split s) (split t) (split-ne-nil s))
]

filter-append {ℓ} :
    {A : Type ℓ} (p : A → dirpc.Prelude.Bool) (xs ys : List A)
    → filter p (xs ++ ys) ≡ filter p xs ++ filter p ys
filter-append p [] ys = refl
filter-append p (x ∷ xs) ys = elim (Bool-cases (p x)) [
  | inl h ↦ rw (h, filter-append p xs ys)
  | inr h ↦ rw (h, filter-append p xs ys)
]

pub parts-append :
    (s : Bytes) (c : ℕ) (t : Bytes) → IsSep c → parts (s ++ c ∷ t) ≡ parts s ++ parts t
unfolding parts
parts-append s c t h = rw (split-append s c t h) (filter-append _ (split s) (split t))

split_plain : (w : Bytes) → All IsPlain w → split w ≡ w ∷ []
split_plain [] h = unfold split in refl
split_plain (c ∷ w) (hc, hw) = rw (split-cons c w hc, split_plain w hw)

pub parts_plain : (w : Bytes) → IsPart w → parts w ≡ w ∷ []
unfolding parts
parts_plain [] (h, k) = absurd (h refl)
parts_plain (c ∷ w) (h, k) = rw (split_plain (c ∷ w) k)

parts-nil : parts [] ≡ []
unfolding parts
parts-nil = refl

pub parts_seps : (z : Bytes) → All IsSep z → parts z ≡ []
parts_seps [] h = parts-nil
parts_seps (c ∷ z) (hc, hz) = rw (parts-append [] c z hc, parts-nil) (parts_seps z hz)

-- every part of a split is free of separators
split-All : (s : Bytes) → All (All IsPlain) (split s)
unfolding split
split-All [] = (tt, tt)
split-All (c ∷ s) = elim (Bool-cases (is_sep c)) [
  | inl p ↦ rw p (tt, split-All s)
  | inr p ↦ rw p (cons_head-All c (split s) p (split-All s))
]
  where
    cons_head-All :
        (c : ℕ) (ps : List Bytes)
        → IsPlain c
        → All (All IsPlain) ps
        → All (All IsPlain) (cons_head c ps)
    cons_head-All c [] h k = ((h, tt), tt)
    cons_head-All c (p ∷ ps) h (k, ks) = ((h, k), ks)

filter_parts :
    (ps : List Bytes) → All (All IsPlain) ps → All IsPart (filter (λ s. not (is_empty s)) ps)
filter_parts [] h = tt
filter_parts ([] ∷ ps) (h, hs) = filter_parts ps hs
filter_parts ((c ∷ p) ∷ ps) (h, hs) = ((cc, h), filter_parts ps hs)

-- The components of a path are not empty and hold no separator.
pub parts-IsPart : (s : Bytes) → All IsPart (parts s)
unfolding parts
parts-IsPart s = filter_parts (split s) (split-All s)
