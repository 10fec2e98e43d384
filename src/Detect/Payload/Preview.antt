-- ===== src/Detect/Payload/Preview.antt =====
-- `compact_whitespace_preview` cuts the words, joined by single spaces.
use dirpc.Prelude.{
  ℕ, zero, suc, ◌+◌, ◌≤◌, ◌<◌, false, List, [], ◌∷◌, ◌++◌, append_assoc, append-nil, leb, ◌==◌,
  nat_eq, length, take, length-append, length-take, ◌≡◌, ◌∙◌, refl, sym, ap, arith, Bool-cases, inl,
  inr, All,
}
use dirpc.Text.{Chars, is_whitespace, split_whitespace, starts_word, extend}
use dirpc.Detect.Payload.{push_chars, preview_tokens, compact_whitespace_preview}

-- The words joined by spaces.
abbrev pub spaced : List Chars → Chars
spaced [] = []
spaced (t ∷ ts) = b' ' ∷ t ++ spaced ts

abbrev pub words : List Chars → Chars
words [] = []
words (t ∷ ts) = t ++ spaced ts

abbrev pub NonEmpty : Chars → Type 0
NonEmpty [] = ⊥
NonEmpty (_ ∷ _) = Unit

extend-NonEmpty : (c : ℕ) (ws : List Chars) → All NonEmpty ws → All NonEmpty (extend c ws)
extend-NonEmpty c [] h = (tt, tt)
extend-NonEmpty c (w ∷ ws) (_, h) = (tt, h)

split_whitespace-NonEmpty : (s : Chars) → All NonEmpty (split_whitespace s)
unfolding split_whitespace
split_whitespace-NonEmpty [] = tt
split_whitespace-NonEmpty (c ∷ s) = elim (Bool-cases (is_whitespace c)) [
  | inl e ↦ rw e (split_whitespace-NonEmpty s)
  | inr e ↦ elim (Bool-cases (starts_word s)) [
    | inl f ↦ rw (e, f) (extend-NonEmpty c (split_whitespace s) (split_whitespace-NonEmpty s))
    | inr f ↦ rw (e, f) (tt, split_whitespace-NonEmpty s)
  ]
]

take-full : (max : ℕ) (s t : Chars) → max ≤ length s → take max (s ++ t) ≡ take max s
take-full zero s t h = refl
take-full (suc max) [] t h = absurd (omega arith)
take-full (suc max) (c ∷ s) t h = ap (λ r. c ∷ r) (take-full max s t (omega arith))

take-small : (max : ℕ) (s : Chars) → length s ≤ max → take max s ≡ s
take-small zero [] h = refl
take-small zero (c ∷ s) h = absurd (omega arith)
take-small (suc max) [] h = refl
take-small (suc max) (c ∷ s) h = ap (λ r. c ∷ r) (take-small max s (omega arith))

-- The text and its length, cut to `max`.
abbrev cut : ℕ → Chars → Chars × ℕ
cut max s = (take max s, length (take max s))

cut-small : (max : ℕ) (s : Chars) → length s ≤ max → cut max s ≡ (s, length s)
cut-small max s h = rw (take-small max s h) refl

push_chars-cut :
    (max : ℕ) (token out : Chars)
    → length out ≤ max
    → push_chars max token (out, length out) ≡ cut max (out ++ token)
unfolding push_chars
push_chars-cut max [] out h = rw (append-nil out) (sym (cut-small max out h))
push_chars-cut max (c ∷ token) out h = elim (Bool-cases (leb max (length out))) [
  | inl e ↦ rw (e, take-full max out (c ∷ token) (ground arith)) (sym (cut-small max out h))
  | inr e ↦
      let grown : length (out ++ c ∷ []) ≡ length out + 1 =
        omega (arith, length-append out (c ∷ [])) in
      rw e (
        rw (← grown, ← append_assoc out (c ∷ []) token)
          (push_chars-cut max token (out ++ c ∷ []) (ground (arith, grown))))
]

length-cut : (max : ℕ) (s : Chars) → length (take max s) ≤ max
length-cut max s = omega (arith, length-take max s)

-- Once the text is full, nothing is added.
take-spaced :
    (max : ℕ) (out rest : Chars)
    → max ≤ length out
    → take max (take max out ++ rest) ≡ take max (out ++ rest)
take-spaced zero out rest h = refl
take-spaced (suc max) [] rest h = absurd (omega arith)
take-spaced (suc max) (c ∷ out) rest h = ap (λ r. c ∷ r) (take-spaced max out rest (omega arith))

take-take : (max : ℕ) (out rest : Chars) → take max (take max out ++ rest) ≡ take max (out ++ rest)
take-take max out rest = elim (Bool-cases (leb max (length out))) [
  | inl e ↦ take-spaced max out rest (ground arith)
  | inr e ↦ rw (take-small max out (ground arith)) refl
]

take-NonEmpty : (max c : ℕ) (s : Chars) → 0 < max → NonEmpty (take max (c ∷ s))
take-NonEmpty zero c s h = absurd (omega arith)
take-NonEmpty (suc max) c s h = tt

-- A token that is pushed, with the words behind it.
after_push :
    (max : ℕ) (t out : Chars) (ts : List Chars)
    → length out ≤ max
    → NonEmpty (take max (out ++ t))
    → ((s : Chars)
        → NonEmpty s
        → length s ≤ max
        → preview_tokens max ts (s, length s) ≡ take max (s ++ spaced ts))
    → preview_tokens max ts (push_chars max t (out, length out))
      ≡ take max (out ++ (t ++ spaced ts))
after_push max t out ts h ne rec =
    ap (λ p. preview_tokens max ts p) (push_chars-cut max t out h)
    ∙ rec (take max (out ++ t)) ne (length-cut max (out ++ t))
    ∙ take-take max (out ++ t) (spaced ts)
    ∙ ap (take max) (append_assoc out t (spaced ts))

-- The words behind some text.
tokens-behind :
    (max : ℕ) (ts : List Chars) (out : Chars)
    → NonEmpty out
    → length out ≤ max
    → preview_tokens max ts (out, length out) ≡ take max (out ++ spaced ts)
unfolding preview_tokens
tokens-behind max ts [] ne h = absurd ne
tokens-behind max [] (c ∷ out) ne h = rw (append-nil out) (sym (take-small max (c ∷ out) h))
tokens-behind max (t ∷ ts) (c ∷ out) ne h = elim (Bool-cases (leb max (length (c ∷ out)))) [
  | inl e ↦
      rw e (
        sym (take-full max (c ∷ out) (spaced (t ∷ ts)) (ground arith) ∙ take-small max (c ∷ out) h))
  | inr e ↦
      let grown : suc (length out) + 1 ≡ length (c ∷ out ++ b' ' ∷ []) =
        omega (arith, length-append out (b' ' ∷ [])) in
      rw (e, grown)
        (after_push max t (c ∷ out ++ b' ' ∷ []) ts (ground (arith, grown))
            (take-NonEmpty max c ((out ++ b' ' ∷ []) ++ t) (ground arith)) (tokens-behind max ts)
          ∙ ap (λ r. take max (c ∷ r)) (append_assoc out (b' ' ∷ []) (t ++ spaced ts)))
]

first_token :
    (max : ℕ) (ts : List Chars)
    → 0 < max
    → All NonEmpty ts
    → preview_tokens max ts ([], 0) ≡ take max (words ts)
unfolding preview_tokens
first_token max [] h all = sym (take-small max [] (omega arith))
first_token max ([] ∷ ts) h (ne, all) = absurd ne
first_token max ((c ∷ t) ∷ ts) h (ne, all) =
    after_push max (c ∷ t) [] ts (omega arith) (take-NonEmpty max c t h) (tokens-behind max ts)

-- The preview is the first `max` characters of the words of the text, joined by single spaces.
pub compact_whitespace_preview_lem :
    (input : Chars) (max : ℕ)
    → compact_whitespace_preview input max ≡ take max (words (split_whitespace input))
unfolding compact_whitespace_preview
compact_whitespace_preview_lem input zero = refl
compact_whitespace_preview_lem input (suc max) =
    let positive : (suc max == 0) ≡ false = ground arith in
    rw positive (
      first_token (suc max) (split_whitespace input) (omega arith)
        (split_whitespace-NonEmpty input))
