-- ===== src/Text/Parts.antt =====
-- What cutting a text into lines, words and parts yields behind a first one.
use dirpc.Prelude.{
  ℕ, Bool, true, false, not, ◌&&◌, [], ◌∷◌, ◌++◌, all, ◌==◌, nat_eq, ◌≡◌, ◌∙◌, refl, ap, arith, All,
}
use dirpc.Text.{Chars, extend, lines, split_whitespace, starts_word, is_whitespace, split_at}

pub All-all : (p : ℕ → Bool) (s : Chars) → all p s ≡ true → All (λ c. p c ≡ true) s
All-all p [] h = tt
All-all p (c ∷ s) h = (ground arith, All-all p s (ground arith))

-- A character that ends no line, one that ends no word, one that ends no part.
abbrev pub in_line : ℕ → Bool
in_line c = not (c == b'\n') && not (c == b'\r')

abbrev pub in_word : ℕ → Bool
in_word c = not (is_whitespace c)

abbrev pub InLine : Chars → Type 0
InLine s = All (λ c. in_line c ≡ true) s

abbrev pub InWord : Chars → Type 0
InWord s = All (λ c. in_word c ≡ true) s

pub lines-line : (s rest : Chars) → InLine s → lines (s ++ b'\r' ∷ b'\n' ∷ rest) ≡ s ∷ lines rest
unfolding lines
lines-line [] rest h = refl
lines-line (c ∷ s) rest (h, hs) =
    let n : (c == b'\n') ≡ false = ground arith in
    let r : (c == b'\r') ≡ false = ground arith in rw (n, r, lines-line s rest hs) refl

split_whitespace-extend :
    (c : ℕ) (s : Chars)
    → is_whitespace c ≡ false
    → starts_word s ≡ true
    → split_whitespace (c ∷ s) ≡ extend c (split_whitespace s)
unfolding split_whitespace
split_whitespace-extend c s w h = rw (w, h) refl

pub split_whitespace-word :
    (c : ℕ) (s rest : Chars)
    → InWord (c ∷ s)
    → split_whitespace ((c ∷ s) ++ b' ' ∷ rest) ≡ (c ∷ s) ∷ split_whitespace rest
unfolding split_whitespace
split_whitespace-word c [] rest (h, _) = let w : is_whitespace c ≡ false = ground arith in rw w refl
split_whitespace-word c (d ∷ s) rest (h, (k, hs)) =
    let w : is_whitespace c ≡ false = ground arith in
    let x : starts_word (d ∷ (s ++ b' ' ∷ rest)) ≡ true = ground arith in
    split_whitespace-extend c (d ∷ (s ++ b' ' ∷ rest)) w x
    ∙ ap (extend c) (split_whitespace-word d s rest (k, hs))

pub split_at-part :
    (sep : ℕ) (s : Chars) → All (λ c. (c == sep) ≡ false) s → split_at sep s ≡ s ∷ []
unfolding split_at
split_at-part sep [] h = refl
split_at-part sep (c ∷ s) (h, hs) = rw (h, split_at-part sep s hs) refl
