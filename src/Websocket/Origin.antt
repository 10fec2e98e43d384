-- ===== src/Websocket/Origin.antt =====
-- When `extract_origin` of src/transports/websocket.rs panics.
use dirpc.Prelude.{
  ◌<◌, true, false, Option, none, some, Bytes, codes, List, [], ◌∷◌, ◌++◌, ltb, Run, done, panic,
  nat_eq, ◌≡◌, ◌↔◌, subst, refl, ap, arith, ◌⊎◌, Bool-cases, inl, inr, All,
}
use dirpc.Text.{Chars, from_utf8, byte_length, slice_to, lines, eq_ignore_ascii_case}
use dirpc.Text.Slice.{Straddles, slice_to-panic}
use dirpc.Websocket.{found_line, find_origin, header_value, origin_of, extract_origin}

-- A line that the search passes over: too short, or cut at byte 7 into something else.
abbrev pub IsPassed : Chars → Type 0
IsPassed l =
    7 < byte_length l
    → (start : Chars) × (slice_to 7 l ≡ done start)
      × (eq_ignore_ascii_case start (codes "origin:") ≡ false)

-- A line whose byte 7 lies inside a character stands behind lines that are passed over.
abbrev pub ReachesCut : List Chars → Type 0
ReachesCut ls =
    (before : List Chars) × (l : Chars) × (after : List Chars) × (ls ≡ before ++ l ∷ after)
    × All IsPassed before
    × (7 < byte_length l)
    × Straddles 7 l

reaches-later : (l : Chars) (ls : List Chars) → IsPassed l → ReachesCut ls → ReachesCut (l ∷ ls)
reaches-later l ls p (before, c, after, e, all, long, cut) =
    (l ∷ before, c, after, ap (λ t. l ∷ t) e, (p, all), long, cut)

-- The line that is cut is the first one, or the first one is passed over.
first-or-later :
    (l : Chars) (ls : List Chars)
    → ReachesCut (l ∷ ls)
    → ((7 < byte_length l) × Straddles 7 l) ⊎ (IsPassed l × ReachesCut ls)
first-or-later l ls ([], c, after, e, all, long, cut) =
    let q : c ≡ l = cc in
    inl (subst (λ x. 7 < byte_length x) q long, subst (λ x. Straddles 7 x) q cut)
first-or-later l ls (x ∷ before, c, after, e, (p, all), long, cut) =
    let q : x ≡ l = cc in
    let r : ls ≡ before ++ c ∷ after = cc in
    inr (subst IsPassed q p, (before, c, after, r, all, long, cut))

-- A first line that cannot be cut there
not-first :
    (l : Chars) (ls : List Chars)
    → ¬ ((7 < byte_length l) × Straddles 7 l)
    → ReachesCut (l ∷ ls)
    → IsPassed l × ReachesCut ls
not-first l ls uncut st = elim (first-or-later l ls st) [ inl y ↦ absurd (uncut y) | inr p ↦ p ]

done-uncut : (l start : Chars) → slice_to 7 l ≡ done start → ¬ ((7 < byte_length l) × Straddles 7 l)
done-uncut l start e (long, cut) =
    let p : slice_to 7 l ≡ panic = (slice_to-panic 7 l (omega arith)).1 cut in cc

found_line-panic :
    (l : Chars) (ls : List Chars) (rest : Run (Option Chars)) (r : Run Chars)
    → 7 < byte_length l
    → slice_to 7 l ≡ r
    → (rest ≡ panic ↔ ReachesCut ls)
    → (found_line l rest r ≡ panic) ↔ ReachesCut (l ∷ ls)
found_line-panic l ls rest panic long e h =
    (λ _. ([], l, ls, refl, tt, long, (slice_to-panic 7 l (omega arith)).0 e), λ _. refl)
found_line-panic l ls rest (done start) long e (to, back) =
    elim (Bool-cases (eq_ignore_ascii_case start (codes "origin:"))) [
      | inl y ↦ rw y (λ x. cc, λ st. absurd (clash y (not-first l ls (done-uncut l start e) st).0))
      | inr n ↦ rw n (
        λ x. reaches-later l ls (λ _. (start, e, n)) (to x),
        λ st. back (not-first l ls (done-uncut l start e) st).1,
      )
    ]
  where
    clash : eq_ignore_ascii_case start (codes "origin:") ≡ true → IsPassed l → ⊥
    clash y p = let (s, f, n) = p long in let same : s ≡ start = cc in cc

find_origin-panic : (ls : List Chars) → (find_origin ls ≡ panic) ↔ ReachesCut ls
unfolding find_origin
find_origin-panic [] = (λ e. cc, λ (before, c, after, e, _, _, _). absurd (empty before c after e))
  where
    empty : (b : List Chars) (c : Chars) (a : List Chars) → ◌≡◌ {A = List Chars} [] (b ++ c ∷ a) → ⊥
    empty [] c a e = cc
    empty (x ∷ b) c a e = cc
find_origin-panic (l ∷ ls) = elim (Bool-cases (ltb 7 (byte_length l))) [
  | inl y ↦ rw y (
      found_line-panic l ls (find_origin ls) (slice_to 7 l) (ground arith) refl
        (find_origin-panic ls))
  | inr n ↦ rw n (
    λ x. reaches-later l ls (λ long. absurd (ground arith)) ((find_origin-panic ls).0 x),
    λ st. (find_origin-panic ls).1 (not-first l ls (λ (long, _). ground arith) st).1,
  )
]

header_value-panic : (r : Run (Option Chars)) → (header_value r ≡ panic) ↔ (r ≡ panic)
header_value-panic panic = (λ e. refl, λ e. refl)
header_value-panic (done none) = (λ e. cc, λ e. cc)
header_value-panic (done (some l)) = (λ e. cc, λ e. cc)

-- A text whose lines reach one that is cut at its byte 7.
abbrev pub IsCut : Option Chars → Type 0
IsCut none = ⊥
IsCut (some text) = ReachesCut (lines text)

origin_of-panic : (o : Option Chars) → (origin_of o ≡ panic) ↔ IsCut o
origin_of-panic none = (λ e. cc, λ h. absurd h)
origin_of-panic (some text) =
    let (to, back) = header_value-panic (find_origin (lines text)) in
    let (to', back') = find_origin-panic (lines text) in (λ e. to' (to e), λ h. back (back' h))

-- `extract_origin` panics just where the request is UTF-8 and, in front of any Origin header, has a
-- line of more than 7 bytes whose byte 7 lies inside a character.
pub extract_origin-panic : (buf : Bytes) → (extract_origin buf ≡ panic) ↔ IsCut (from_utf8 buf)
unfolding extract_origin
extract_origin-panic buf = origin_of-panic (from_utf8 buf)
