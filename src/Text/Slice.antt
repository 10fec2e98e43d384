-- ===== src/Text/Slice.antt =====
-- When a slice `&s[..n]` panics.
use dirpc.Prelude.{
  ℕ, ◌+◌, ◌-◌, ◌<◌, ◌≤◌, [], ◌∷◌, ◌++◌, ltb, Run, done, panic, ◌==◌, nat_eq, ◌≡◌, ◌↔◌, refl, ap,
  arith, Bool-cases, inl, inr,
}
use dirpc.Text.{Chars, width, byte_length, cons_run, slice_to}

-- The byte `n` lies inside a character of the text.
abbrev pub Straddles : ℕ → Chars → Type 0
Straddles n l =
    (a : Chars) × (c : ℕ) × (b : Chars) × (l ≡ a ++ c ∷ b)
    × (byte_length a < n)
    × (n < byte_length a + width c)

Straddles-later :
    (n c : ℕ) (s : Chars) → width c ≤ n → Straddles (n - width c) s → Straddles n (c ∷ s)
Straddles-later n c s h (a, d, b, e, low, high) =
    (c ∷ a, d, b, ap (λ t. c ∷ t) e, ground arith, ground arith)

Straddles-earlier :
    (n c : ℕ) (s : Chars) → width c ≤ n → Straddles n (c ∷ s) → Straddles (n - width c) s
Straddles-earlier n c s h ([], d, b, e, low, high) = let q : c ≡ d = cc in absurd (ground arith)
Straddles-earlier n c s h (x ∷ a, d, b, e, low, high) =
    let q : c ≡ x = cc in let r : s ≡ a ++ d ∷ b = cc in (a, d, b, r, ground arith, ground arith)

cons_run-panic : (c : ℕ) (r : Run Chars) → (cons_run c r ≡ panic) ↔ (r ≡ panic)
cons_run-panic c panic = (λ e. refl, λ e. refl)
cons_run-panic c (done s) = (λ e. cc, λ e. cc)

-- A slice of a text that is long enough panics just where it cuts a character.
pub slice_to-panic :
    (n : ℕ) (l : Chars) → n ≤ byte_length l → (slice_to n l ≡ panic) ↔ Straddles n l
unfolding slice_to
slice_to-panic n [] h =
    let z : n ≡ 0 = omega arith in rw z (λ e. cc, λ (_, _, _, _, low, _). absurd (omega arith))
slice_to-panic n (c ∷ s) h = elim (Bool-cases (n == 0)) [
  | inl z ↦
      let n0 : n ≡ 0 = ground arith in rw n0 (λ e. cc, λ (_, _, _, _, low, _). absurd (omega arith))
  | inr z ↦ elim (Bool-cases (ltb n (width c))) [
    | inl lt ↦ rw (z, lt) (λ _. ([], c, s, refl, ground arith, ground arith), λ _. refl)
    | inr ge ↦
        let le : width c ≤ n = ground arith in
        let (to, back) = slice_to-panic (n - width c) s (ground arith) in
        rw (z, ge)
          (
            λ e. Straddles-later n c s le (to ((cons_run-panic c (slice_to (n - width c) s)).0 e)),
            λ st.
                (cons_run-panic c (slice_to (n - width c) s)).1
                  (back (Straddles-earlier n c s le st)),
          )
  ]
]
