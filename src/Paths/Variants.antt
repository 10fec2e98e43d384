-- ===== src/Paths/Variants.antt =====
-- `path_variants`, which cuts the suffixes from one text, against its plain definition.
use mathlib.Core.List.{flat_map}
use dirpc.Prelude.{
  ℕ, zero, suc, ◌+◌, ◌-◌, ◌≡◌, refl, sym, ap, Bool-cases, inl, inr, Bytes, codes, List, [], ◌∷◌,
  ◌++◌, arith, All, none, some, length, drop, drop-drop, append_assoc, append-nil, if◌then◌else◌,
  ltb, drop-append, length-drop, leb,
}
use dirpc.Paths.{
  parts, join, find_slash, ends_with, strip_64_suffix, pushed, advance, suffix_loop, path_variants,
}
use dirpc.Paths.Strip.{strip_64_suffix-kept}
use dirpc.Paths.Split.{IsPlain, IsPart, parts-IsPart}

-- The specification: each suffix of the last four components, joined anew, with its stripped form
-- behind it where that is shorter.
unfoldable pub suffixes : List Bytes → List Bytes
suffixes [] = []
suffixes (p ∷ ps) = join (p ∷ ps) ∷ suffixes ps

unfoldable pub with_cleaned : Bytes → List Bytes
with_cleaned s =
    let cleaned = strip_64_suffix s in
    if ltb (length cleaned) (length s) then s ∷ cleaned ∷ [] else s ∷ []

unfoldable pub all_variants : List Bytes → List Bytes
unfolding flat_map
all_variants ps = flat_map with_cleaned (suffixes ps)

abbrev pub last_four : List Bytes → List Bytes
last_four ps = drop (length ps - 4) ps

-- the test for "64" skips only what would not have been shorter
pushed-with_cleaned : (s : Bytes) → pushed s ≡ with_cleaned s
unfolding pushed with_cleaned
pushed-with_cleaned s = elim (Bool-cases (ends_with (codes "64") s)) [
  | inl h ↦ rw h
  | inr h ↦ rw (h, strip_64_suffix-kept s h) (ground arith)
]

find_slash_plain : (p : Bytes) → All IsPlain p → find_slash p ≡ none
unfolding find_slash
find_slash_plain [] h = refl
find_slash_plain (c ∷ p) (hc, hp) = ground (arith, find_slash_plain p hp)

find_slash-append : (p s : Bytes) → All IsPlain p → find_slash (p ++ b'/' ∷ s) ≡ some (length p)
unfolding find_slash
find_slash-append [] s h = refl
find_slash-append (c ∷ p) s (hc, hp) = ground (arith, find_slash-append p s hp)

-- behind the first '/' of the current suffix the next one begins
next_suffix :
    (p q : Bytes) (ps : List Bytes) (full : Bytes) (offset : ℕ)
    → All IsPlain p
    → drop offset full ≡ join (p ∷ q ∷ ps)
    → drop (advance offset (find_slash (drop offset full))) full ≡ join (q ∷ ps)
unfolding advance join
next_suffix p q ps full offset h e = rw (
  e,
  find_slash-append p (join (q ∷ ps)) h,
  ← drop-drop full offset (length p + 1),
  e,
  ← drop-drop _ (length p) 1,
  drop-append,
)

suffix_loop-suc :
    (rounds : ℕ) (full : Bytes) (offset : ℕ) (vs : List Bytes)
    → suffix_loop (suc rounds) full offset vs
      ≡ suffix_loop rounds full
          (advance offset (find_slash (drop offset full)))
          (vs ++ with_cleaned (drop offset full))
unfolding suffix_loop
suffix_loop-suc rounds full offset vs = rw (← pushed-with_cleaned (drop offset full))

pub all_variants-cons :
    (p : Bytes) (ps : List Bytes)
    → all_variants (p ∷ ps) ≡ with_cleaned (join (p ∷ ps)) ++ all_variants ps
unfolding all_variants suffixes
all_variants-cons p ps = refl

loop_lem :
    (ps : List Bytes) (full : Bytes) (offset : ℕ) (vs : List Bytes)
    → All IsPart ps
    → drop offset full ≡ join ps
    → suffix_loop (length ps) full offset vs ≡ vs ++ all_variants ps
loop_lem [] full offset vs h e = unfold suffix_loop all_variants suffixes in sym (append-nil vs)
loop_lem (p ∷ []) full offset vs h e =
    rw (suffix_loop-suc 0 full offset vs, e, all_variants-cons p [])
      (unfold suffix_loop all_variants suffixes in ap (λ t. vs ++ t) (sym (append-nil _)))
loop_lem (p ∷ q ∷ ps) full offset vs ((_, plain), h) e =
    rw
      (
        suffix_loop-suc (length (q ∷ ps)) full offset vs,
        loop_lem (q ∷ ps) full _ _ h (next_suffix p q ps full offset plain e),
        e,
        all_variants-cons p (q ∷ ps),
      )
      (append_assoc vs _ _)

All-drop {ℓ κ} : {A : Type ℓ} (P : A → Type κ) (n : ℕ) (xs : List A) → All P xs → All P (drop n xs)
All-drop P zero xs h = h
All-drop P (suc n) [] h = h
All-drop P (suc n) (x ∷ xs) (_, h) = All-drop P n xs h

-- the first component that is used
abbrev start_of : ℕ → ℕ
start_of len = if ltb 4 len then len - 4 else 0

start_of_lem : (len : ℕ) → start_of len ≡ len - 4
start_of_lem len = ground arith

-- the early return, for a path with no component
no_parts :
    (ps : List Bytes)
    → (if leb (length ps) (length ps - 4) then [] else all_variants (last_four ps))
      ≡ all_variants (last_four ps)
unfolding all_variants suffixes
no_parts [] = refl
no_parts (p ∷ ps) = ground arith

-- The variants of a path are those of the specification, in its order.
pub path_variants_lem : (path : Bytes) → path_variants path ≡ all_variants (last_four (parts path))
unfolding path_variants
path_variants_lem path =
    let ps = parts path in
    let n = length ps in
    let h = All-drop IsPart (n - 4) ps (parts-IsPart path) in
    let e : n - (n - 4) ≡ length (drop (n - 4) ps) = omega (arith, length-drop (n - 4) ps) in
    rw (start_of_lem n, e, loop_lem (drop (n - 4) ps) _ 0 [] h refl) (no_parts ps)
