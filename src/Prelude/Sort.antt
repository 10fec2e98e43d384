-- ===== src/Prelude/Sort.antt =====
-- The order of byte strings, and sorting by it: `sort_unstable` of Rust's slices, whose result is
-- unique for an order in which equal strings are the same.
use Prim.Native.Nat.{suc}
use mathlib.Core.Path.{◌≡◌, refl, ◌∙◌, ap}
use mathlib.Core.Logic.{inl, inr}
use mathlib.Core.Bool.{Bool, true, false, ◌||◌}
use mathlib.Core.List.{List, [], ◌∷◌}
use native.Mathlib.Omega.{arith}
use dirpc.Prelude.Tests.{ltb, nat_beq, if◌then◌else◌, Bool-cases}
use dirpc.Prelude.Lists.{length, any, All}
use dirpc.Prelude.Keys.{Bytes}

-- Rust's `<=` on byte strings
unfoldable pub bytes_leb : Bytes → Bytes → Bool
bytes_leb [] t = true
bytes_leb (x ∷ s) [] = false
bytes_leb (x ∷ s) (y ∷ t) =
    let rest = bytes_leb s t in if ltb x y then true else if nat_beq x y then rest else false

insert_sorted : Bytes → List Bytes → List Bytes
insert_sorted x [] = x ∷ []
insert_sorted x (y ∷ ys) =
    let rest = insert_sorted x ys in if bytes_leb x y then x ∷ y ∷ ys else y ∷ rest

unfoldable pub sort : List Bytes → List Bytes
unfolding insert_sorted
sort [] = []
sort (x ∷ xs) = insert_sorted x (sort xs)

bytes_leb-total : (s t : Bytes) → bytes_leb s t ≡ false → bytes_leb t s ≡ true
unfolding bytes_leb
bytes_leb-total [] t h = cc
bytes_leb-total (x ∷ s) [] h = refl
bytes_leb-total (x ∷ s) (y ∷ t) h = ground (arith, bytes_leb-total s t)

bytes_leb_trans :
    (s t u : Bytes) → bytes_leb s t ≡ true → bytes_leb t u ≡ true → bytes_leb s u ≡ true
unfolding bytes_leb
bytes_leb_trans [] t u h k = refl
bytes_leb_trans (x ∷ s) [] u h k = cc
bytes_leb_trans (x ∷ s) (y ∷ t) [] h k = cc
bytes_leb_trans (x ∷ s) (y ∷ t) (z ∷ u) h k = ground (arith, bytes_leb_trans s t u)

-- Each string comes before all that follow it.
abbrev pub IsSorted : List Bytes → Type 0
IsSorted [] = Unit
IsSorted (x ∷ xs) = All (λ y. bytes_leb x y ≡ true) xs × IsSorted xs

All-insert_sorted :
    (P : Bytes → Type 0) (x : Bytes) (ys : List Bytes) → P x → All P ys → All P (insert_sorted x ys)
unfolding insert_sorted
All-insert_sorted P x [] p h = (p, tt)
All-insert_sorted P x (y ∷ ys) p (h, hs) = elim (Bool-cases (bytes_leb x y)) [
  | inl e ↦ rw e (p, (h, hs))
  | inr e ↦ rw e (h, All-insert_sorted P x ys p hs)
]

All-later :
    (x y : Bytes) (ys : List Bytes)
    → bytes_leb x y ≡ true
    → All (λ z. bytes_leb y z ≡ true) ys
    → All (λ z. bytes_leb x z ≡ true) ys
All-later x y [] e h = tt
All-later x y (z ∷ ys) e (h, hs) = (bytes_leb_trans x y z e h, All-later x y ys e hs)

insert_sorted-IsSorted : (x : Bytes) (ys : List Bytes) → IsSorted ys → IsSorted (insert_sorted x ys)
unfolding insert_sorted
insert_sorted-IsSorted x [] h = (tt, tt)
insert_sorted-IsSorted x (y ∷ ys) (h, hs) = elim (Bool-cases (bytes_leb x y)) [
  | inl e ↦ rw e ((e, All-later x y ys e h), (h, hs))
  | inr e ↦ rw e (
    All-insert_sorted (λ z. bytes_leb y z ≡ true) x ys (bytes_leb-total x y e) h,
    insert_sorted-IsSorted x ys hs,
  )
]

pub sort-IsSorted : (xs : List Bytes) → IsSorted (sort xs)
unfolding sort
sort-IsSorted [] = tt
sort-IsSorted (x ∷ xs) = insert_sorted-IsSorted x (sort xs) (sort-IsSorted xs)

any-insert_sorted :
    (f : Bytes → Bool) (x : Bytes) (ys : List Bytes) → any f (insert_sorted x ys) ≡ f x || any f ys
unfolding insert_sorted
any-insert_sorted f x [] = refl
any-insert_sorted f x (y ∷ ys) = ground (arith, any-insert_sorted f x ys)

-- Sorting keeps what is in the list, and how much.
pub any-sort : (f : Bytes → Bool) (xs : List Bytes) → any f (sort xs) ≡ any f xs
unfolding sort
any-sort f [] = refl
any-sort f (x ∷ xs) = any-insert_sorted f x (sort xs) ∙ ap (λ b. f x || b) (any-sort f xs)

length-insert_sorted : (x : Bytes) (ys : List Bytes) → length (insert_sorted x ys) ≡ suc (length ys)
unfolding insert_sorted
length-insert_sorted x [] = refl
length-insert_sorted x (y ∷ ys) = ground (arith, length-insert_sorted x ys)

pub length-sort : (xs : List Bytes) → length (sort xs) ≡ length xs
unfolding sort
length-sort [] = refl
length-sort (x ∷ xs) = length-insert_sorted x (sort xs) ∙ ap suc (length-sort xs)
