-- ===== src/Paths/Strip.antt =====
-- What `strip_64_suffix` removes.
use dirpc.Prelude.{
  append_assoc, true, false, ℕ, suc, ◌+◌, nat_eq, Bool, Bool-cases, inl, inr, ltb, leb, not, ◌&&◌,
  ◌||◌, drop-append, ◌-◌, ◌≤◌, ◌≡◌, ◌≢◌, ◌⊎◌, refl, sym, ap, Bytes, codes, [], ◌∷◌, ◌++◌, arith,
  ◌==◌, bytes_eq_iff, bytes_eq, length, take, drop, get_or, length-append, take-append-drop,
  drop-get_or, drop-length, ◌∙◌,
}
use dirpc.Paths.{strip_64_suffix, ends_with}

-- the three tests
abbrev has_dot_x64 : Bytes → Bool
has_dot_x64 name = leb 4 (length name) && bytes_eq (drop (length name - 4) name) (codes ".x64")

abbrev lacks_64 : Bytes → Bool
lacks_64 name =
    ltb (length name) 2
    || not (get_or name (length name - 2) 0 == b'6')
    || not (get_or name (length name - 1) 0 == b'4')

abbrev has_mark : Bytes → Bool
has_mark name =
    leb 3 (length name)
    && (get_or name (length name - 3) 0 == b'x' || get_or name (length name - 3) 0 == b'_')

-- How a name and its stripped form are related, the most specific marker first.
pub data Strips (name r : Bytes) : Type 0 where
  dot_x64 : name ≡ r ++ codes ".x64" → Strips name r
  x64 : name ≡ r ++ codes "x64" → ((s : Bytes) → name ≢ s ++ codes ".x64") → Strips name r
  low_64 : name ≡ r ++ codes "_64" → Strips name r
  bare :
      name ≡ r ++ codes "64"
      → ((s : Bytes) → name ≢ s ++ codes "x64")
      → ((s : Bytes) → name ≢ s ++ codes "_64")
      → Strips name r
  kept : name ≡ r → ((s : Bytes) → name ≢ s ++ codes "64") → Strips name r

-- What ends a text is what `drop` leaves of it.
ends_cut :
    (name suffix s : Bytes)
    → name ≡ s ++ suffix
    → (length suffix ≤ length name) × (drop (length name - length suffix) name ≡ suffix)
ends_cut name suffix s e =
    let n : length name ≡ length s + length suffix = ap length e ∙ length-append s suffix in
    let m : length name - length suffix ≡ length s = omega arith in
    (omega arith, rw (m, e) (drop-append s suffix))

cut_ends : (name suffix : Bytes) (k : ℕ) → drop k name ≡ suffix → name ≡ take k name ++ suffix
cut_ends name suffix k e = rw (← e) (sym (take-append-drop k name))

tail_two :
    (name : Bytes)
    → 2 ≤ length name
    → drop (length name - 2) name
      ≡ get_or name (length name - 2) 0 ∷ get_or name (length name - 1) 0 ∷ []
tail_two name h =
    let a : suc (length name - 2) ≡ length name - 1 = omega arith in
    let b : suc (length name - 1) ≡ length name = omega arith in
    rw (
      drop-get_or name (length name - 2) 0 (omega arith),
      a,
      drop-get_or name (length name - 1) 0 (omega arith),
      b,
      drop-length,
    )

tail_three :
    (name : Bytes)
    → 3 ≤ length name
    → drop (length name - 3) name
      ≡ get_or name (length name - 3) 0
        ∷ get_or name (length name - 2) 0
        ∷ get_or name (length name - 1) 0
        ∷ []
tail_three name h =
    let a : suc (length name - 3) ≡ length name - 2 = omega arith in
    rw (drop-get_or name (length name - 3) 0 (omega arith), a, tail_two name (omega arith))

module _ (name : Bytes) where
  dot_x64_cut : has_dot_x64 name ≡ true → name ≡ take (length name - 4) name ++ codes ".x64"
  dot_x64_cut h =
      cut_ends name (codes ".x64") (length name - 4)
        (ground (arith, bytes_eq_iff (drop (length name - 4) name) (codes ".x64")))

  dot_x64_ends : (s : Bytes) → name ≡ s ++ codes ".x64" → has_dot_x64 name ≡ true
  dot_x64_ends s e =
      let (n, d) = ends_cut name (codes ".x64") s e in
      ground (arith, bytes_eq_iff (drop (length name - 4) name) (codes ".x64"))

  two_cut : lacks_64 name ≡ false → name ≡ take (length name - 2) name ++ codes "64"
  two_cut h = cut_ends name (codes "64") (length name - 2) (ground (arith, tail_two name))

  two_ends : (s : Bytes) → name ≡ s ++ codes "64" → lacks_64 name ≡ false
  two_ends s e = let (n, d) = ends_cut name (codes "64") s e in ground (arith, tail_two name)

  mark_ends :
      (c : ℕ) (s : Bytes)
      → has_mark name ≡ false
      → name ≡ s ++ c ∷ codes "64"
      → (c ≢ b'x') × (c ≢ b'_')
  mark_ends c s h e =
      let (n, d) = ends_cut name (c ∷ codes "64") s e in ground (arith, tail_three name)

  mark_cut :
      (c : ℕ)
      → 3 ≤ length name
      → get_or name (length name - 3) 0 ≡ c
      → lacks_64 name ≡ false
      → name ≡ take (length name - 3) name ++ c ∷ codes "64"
  mark_cut c n g h =
      cut_ends name (c ∷ codes "64") (length name - 3) (ground (arith, tail_three name))

  which_mark :
      has_mark name ≡ true
      → (3 ≤ length name)
        × ((get_or name (length name - 3) 0 ≡ b'x') ⊎ (get_or name (length name - 3) 0 ≡ b'_'))
  which_mark h = ground arith

  marked :
      has_dot_x64 name ≡ false
      → lacks_64 name ≡ false
      → has_mark name ≡ true
      → Strips name (take (length name - 3) name)
  marked p q r =
      let (n, which) = which_mark r in
      elim which [
        | inl x ↦ x64 (mark_cut b'x' n x q) (λ s e. cc (dot_x64_ends s e))
        | inr u ↦ low_64 (mark_cut b'_' n u q)
      ]

-- Each name is related to its stripped form: the longest of the four markers that ends it is
-- removed, and a name that does not end in "64" is kept.
strip_64_suffix-Strips : (name : Bytes) → Strips name (strip_64_suffix name)
unfolding strip_64_suffix
strip_64_suffix-Strips name = elim (Bool-cases (has_dot_x64 name)) [
  | inl p ↦ rw p (dot_x64 (dot_x64_cut name p))
  | inr p ↦ elim (Bool-cases (lacks_64 name)) [
    | inl q ↦ rw (p, q) (kept refl (λ s e. cc (two_ends name s e)))
    | inr q ↦ elim (Bool-cases (has_mark name)) [
      | inl r ↦ rw (p, q, r) (marked name p q r)
      | inr r ↦
          rw (p, q, r)
            (bare (two_cut name q) (λ s e. absurd ((mark_ends name b'x' s r e).0 refl))
              (λ s e. absurd ((mark_ends name b'_' s r e).1 refl)))
    ]
  ]
]

ends_with-append : (name suffix s : Bytes) → name ≡ s ++ suffix → ends_with suffix name ≡ true
ends_with-append name suffix s e =
    let (n, d) = ends_cut name suffix s e in
    ground (arith, bytes_eq_iff (drop (length name - length suffix) name) suffix)

-- Where "64" does not end the name nothing is removed.
pub strip_64_suffix-kept :
    (name : Bytes) → ends_with (codes "64") name ≡ false → strip_64_suffix name ≡ name
strip_64_suffix-kept name h = elim (strip_64_suffix-Strips name) [
  | dot_x64 e ↦ absurd (
      no_end (strip_64_suffix name ++ codes ".x")
        (e ∙ sym (append_assoc _ (codes ".x") (codes "64"))))
  | x64 e _ ↦ absurd (
      no_end (strip_64_suffix name ++ codes "x")
        (e ∙ sym (append_assoc _ (codes "x") (codes "64"))))
  | low_64 e ↦ absurd (
      no_end (strip_64_suffix name ++ codes "_")
        (e ∙ sym (append_assoc _ (codes "_") (codes "64"))))
  | bare e _ _ ↦ absurd (no_end (strip_64_suffix name) e)
  | kept e _ ↦ sym e
]
  where
    no_end : (s : Bytes) → name ≢ s ++ codes "64"
    no_end s e = cc (ends_with-append name (codes "64") s e)
