-- ===== src/Paths/Contents.antt =====
-- How many variants a path has, and that its file name is one of them.
use dirpc.Prelude.{
  ℕ, ◌*◌, ◌-◌, ◌≤◌, ◌≡◌, ◌≢◌, refl, true, ◌||◌, Bytes, List, [], ◌∷◌, ◌++◌, arith, length, drop,
  length-append, length-drop, any, bytes_eq, bytes_eq_iff, Bool, zero, suc, ap, ◌∙◌,
}
use dirpc.Paths.{join, parts, path_variants, path_filename}
use dirpc.Paths.Filename.{last_or_empty, path_filename-parts}
use dirpc.Paths.Variants.{
  suffixes, with_cleaned, all_variants, all_variants-cons, last_four, path_variants_lem,
}

length-with_cleaned : (s : Bytes) → length (with_cleaned s) ≤ 2
unfolding with_cleaned
length-with_cleaned s = ground arith

length-all_variants : (ps : List Bytes) → length (all_variants ps) ≤ 2 * length ps
length-all_variants [] = unfold all_variants suffixes in omega arith
length-all_variants (p ∷ ps) = rw all_variants-cons (
    omega (
      arith,
      length-append (with_cleaned (join (p ∷ ps))) (all_variants ps),
      length-with_cleaned (join (p ∷ ps)),
      length-all_variants ps,
    ))

-- A path has at most eight variants, so they fit the inline buffer.
length-path_variants : (path : Bytes) → length (path_variants path) ≤ 8
length-path_variants path = rw path_variants_lem (
    omega (
      arith,
      length-all_variants (last_four (parts path)),
      length-drop (length (parts path) - 4) (parts path),
    ))

pub any-append {ℓ} :
    {A : Type ℓ} (p : A → Bool) (xs ys : List A) → any p (xs ++ ys) ≡ (any p xs || any p ys)
any-append p [] ys = refl
any-append p (x ∷ xs) ys = ground (arith, any-append p xs ys)

any-with_cleaned :
    (v s : Bytes) → bytes_eq s v ≡ true → any (λ w. bytes_eq w v) (with_cleaned s) ≡ true
unfolding with_cleaned
any-with_cleaned v s h = ground arith

last-all_variants :
    (ps : List Bytes) → ps ≢ [] → any (λ w. bytes_eq w (last_or_empty ps)) (all_variants ps) ≡ true
last-all_variants [] h = absurd (h refl)
last-all_variants (p ∷ []) h =
    rw (all_variants-cons p [], any-append)
      (unfold join in ground (arith, any-with_cleaned p p ((bytes_eq_iff p p).1 refl)))
last-all_variants (p ∷ q ∷ ps) h =
    rw (all_variants-cons p (q ∷ ps), any-append) (ground (arith, last-all_variants (q ∷ ps) (cc)))

last-drop :
    (ps : List Bytes) (n : ℕ) → suc n ≤ length ps → last_or_empty (drop n ps) ≡ last_or_empty ps
last-drop ps zero h = refl
last-drop [] (suc n) h = absurd (omega arith)
last-drop (p ∷ []) (suc n) h = absurd (omega arith)
last-drop (p ∷ q ∷ ps) (suc n) h = last-drop (q ∷ ps) n (omega arith)

last_four-last :
    (ps : List Bytes)
    → ps ≢ []
    → (last_or_empty (last_four ps) ≡ last_or_empty ps) × (last_four ps ≢ [])
last_four-last [] h = absurd (h refl)
last_four-last (p ∷ ps) h = (
  last-drop (p ∷ ps) (length (p ∷ ps) - 4) (omega arith),
  λ e. omega (arith, length-drop (length (p ∷ ps) - 4) (p ∷ ps), ap length e),
)

-- The file name of a path is one of its variants, if it is not empty.
path_filename-any :
    (path : Bytes)
    → path_filename path ≢ []
    → any (λ v. bytes_eq v (path_filename path)) (path_variants path) ≡ true
path_filename-any path h =
    let some_part : parts path ≢ [] = λ e. h (path_filename-parts path ∙ ap last_or_empty e) in
    let (last, kept) = last_four-last (parts path) some_part in
    rw (path_variants_lem, path_filename-parts path, ← last)
      (last-all_variants (last_four (parts path)) kept)
