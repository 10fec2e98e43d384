-- ===== src/Text/Utf8.antt =====
-- The UTF-8 form of a text is decoded to the text.
use dirpc.Prelude.{
  ℕ, zero, suc, ◌+◌, ◌-◌, ◌*◌, ◌/◌, ◌%◌, ◌≤◌, ◌<◌, true, false, some, Bytes, [], ◌∷◌, ◌++◌, ltb,
  ◌==◌, nat_eq, ◌≡◌, ◌⊎◌, ◌∙◌, refl, ap, arith, Bool-cases, inl, inr, All,
}
use dirpc.Words.{utf8}
use dirpc.Text.{Chars, Pending, ready, need, within, lead, cons_some, decode_from, from_utf8}

-- A Unicode scalar value.
abbrev pub IsScalar : ℕ → Type 0
IsScalar c = (c < 55296) ⊎ ((57344 ≤ c) × (c < 1114112))

unfoldable pub encode : Chars → Bytes
encode [] = []
encode (c ∷ s) = utf8 c ++ encode s

decode-ascii :
    (c : ℕ) (s : Bytes) → c < 128 → decode_from (c ∷ s) ready ≡ cons_some c (decode_from s ready)
unfolding decode_from
decode-ascii c s h = let e : ltb c 128 ≡ true = ground arith in rw e refl

decode-lead :
    (a : ℕ) (s : Bytes) (p : Pending)
    → 128 ≤ a
    → lead a ≡ some p
    → decode_from (a ∷ s) ready ≡ decode_from s p
unfolding decode_from
decode-lead a s p h e = let f : ltb a 128 ≡ false = ground arith in rw (f, e) refl

decode-more :
    (a : ℕ) (s : Bytes) (more low high bits : ℕ)
    → low ≤ a
    → a ≤ high
    → decode_from (a ∷ s) (need (suc more) low high bits)
      ≡ decode_from s (need more 128 191 (bits * 64 + (a - 128)))
unfolding decode_from
decode-more a s more low high bits l h =
    let e : within low high a ≡ true = ground arith in rw e refl

decode-last :
    (a : ℕ) (s : Bytes) (low high bits : ℕ)
    → low ≤ a
    → a ≤ high
    → decode_from (a ∷ s) (need zero low high bits)
      ≡ cons_some (bits * 64 + (a - 128)) (decode_from s ready)
unfolding decode_from
decode-last a s low high bits l h = let e : within low high a ≡ true = ground arith in rw e refl

lead-two : (a : ℕ) → 194 ≤ a → a ≤ 223 → lead a ≡ some (need 0 128 191 (a - 192))
unfolding lead
lead-two a l h = ground arith

lead-three :
    (a : ℕ) → 225 ≤ a → a ≤ 239 → (a == 237) ≡ false → lead a ≡ some (need 1 128 191 (a - 224))
unfolding lead
lead-three a l h n = ground arith

lead-four : (a : ℕ) → 241 ≤ a → a ≤ 243 → lead a ≡ some (need 2 128 191 (a - 240))
unfolding lead
lead-four a l h = ground arith

lead-224 : lead 224 ≡ some (need 1 160 191 0)
unfolding lead
lead-224 = refl

lead-237 : lead 237 ≡ some (need 1 128 159 13)
unfolding lead
lead-237 = refl

lead-240 : lead 240 ≡ some (need 2 144 191 0)
unfolding lead
lead-240 = refl

lead-244 : lead 244 ≡ some (need 2 128 143 4)
unfolding lead
lead-244 = refl

decode-three :
    (a b d : ℕ) (s : Bytes) (low high bits : ℕ)
    → 128 ≤ a
    → lead a ≡ some (need 1 low high bits)
    → (low ≤ b) × (b ≤ high) × (128 ≤ d) × (d ≤ 191)
    → decode_from (a ∷ b ∷ d ∷ s) ready
      ≡ cons_some ((bits * 64 + (b - 128)) * 64 + (d - 128)) (decode_from s ready)
decode-three a b d s low high bits l e (bl, bh, dl, dh) =
    decode-lead a (b ∷ d ∷ s) (need 1 low high bits) l e
    ∙ decode-more b (d ∷ s) 0 low high bits bl bh
    ∙ decode-last d s 128 191 (bits * 64 + (b - 128)) dl dh

decode-four :
    (a b d f : ℕ) (s : Bytes) (low high bits : ℕ)
    → 128 ≤ a
    → lead a ≡ some (need 2 low high bits)
    → (low ≤ b) × (b ≤ high) × (128 ≤ d) × (d ≤ 191) × (128 ≤ f) × (f ≤ 191)
    → decode_from (a ∷ b ∷ d ∷ f ∷ s) ready
      ≡ cons_some
          (((bits * 64 + (b - 128)) * 64 + (d - 128)) * 64 + (f - 128))
          (decode_from s ready)
decode-four a b d f s low high bits l e (bl, bh, dl, dh, fl, fh) =
    decode-lead a (b ∷ d ∷ f ∷ s) (need 2 low high bits) l e
    ∙ decode-more b (d ∷ f ∷ s) 1 low high bits bl bh
    ∙ decode-more d (f ∷ s) 0 128 191 (bits * 64 + (b - 128)) dl dh
    ∙ decode-last f s 128 191 ((bits * 64 + (b - 128)) * 64 + (d - 128)) fl fh

abbrev Reads : ℕ → Bytes → Bytes → Type 0
Reads c bytes s = decode_from (bytes ++ s) ready ≡ cons_some c (decode_from s ready)

Reads-two :
    (c : ℕ) (s : Bytes) → 128 ≤ c → c < 2048 → Reads c ((192 + c / 64) ∷ (128 + c % 64) ∷ []) s
Reads-two c s l h =
    let a : lead (192 + c / 64) ≡ some (need 0 128 191 (192 + c / 64 - 192)) =
      lead-two (192 + c / 64) (omega arith) (omega arith) in
    let value : (192 + c / 64 - 192) * 64 + (128 + c % 64 - 128) ≡ c = omega arith in
    decode-lead (192 + c / 64) ((128 + c % 64) ∷ s) _ (omega arith) a
    ∙ decode-last (128 + c % 64) s 128 191 (192 + c / 64 - 192) (omega arith) (omega arith)
    ∙ ap (λ n. cons_some n (decode_from s ready)) value

abbrev three : ℕ → Bytes
three c = (224 + c / 4096) ∷ (128 + c / 64 % 64) ∷ (128 + c % 64) ∷ []

abbrev four : ℕ → Bytes
four c = (240 + c / 262144) ∷ (128 + c / 4096 % 64) ∷ (128 + c / 64 % 64) ∷ (128 + c % 64) ∷ []

Reads-three-with :
    (c : ℕ) (s : Bytes) (low high bits : ℕ)
    → lead (224 + c / 4096) ≡ some (need 1 low high bits)
    → bits ≡ c / 4096
    → low ≤ 128 + c / 64 % 64
    → 128 + c / 64 % 64 ≤ high
    → Reads c (three c) s
Reads-three-with c s low high bits a q l h =
    let value : (bits * 64 + (128 + c / 64 % 64 - 128)) * 64 + (128 + c % 64 - 128) ≡ c =
      omega arith in
    decode-three _ (128 + c / 64 % 64) (128 + c % 64) s low high bits (omega arith) a
      (l, h, omega arith, omega arith)
    ∙ ap (λ n. cons_some n (decode_from s ready)) value

Reads-three : (c : ℕ) (s : Bytes) → IsScalar c → 2048 ≤ c → c < 65536 → Reads c (three c) s
Reads-three c s scalar l h = elim (Bool-cases (c / 4096 == 0)) [
  | inl e ↦
      let z : c / 4096 ≡ 0 = ground arith in
      Reads-three-with c s 160 191 0 (rw z lead-224) (omega arith) (omega arith) (omega arith)
  | inr e ↦ elim (Bool-cases (c / 4096 == 13)) [
    | inl f ↦
        let z : c / 4096 ≡ 13 = ground arith in
        Reads-three-with c s 128 159 13 (rw z lead-237) (omega arith) (omega arith)
          (ground (arith, scalar))
    | inr f ↦
        Reads-three-with c s 128 191 (224 + c / 4096 - 224)
          (lead-three (224 + c / 4096) (ground arith) (omega arith) (ground arith)) (omega arith)
          (omega arith) (omega arith)
  ]
]

Reads-four-with :
    (c : ℕ) (s : Bytes) (low high bits : ℕ)
    → lead (240 + c / 262144) ≡ some (need 2 low high bits)
    → bits ≡ c / 262144
    → low ≤ 128 + c / 4096 % 64
    → 128 + c / 4096 % 64 ≤ high
    → Reads c (four c) s
Reads-four-with c s low high bits a q l h =
    let value : ((bits * 64 + (128 + c / 4096 % 64 - 128)) * 64 + (128 + c / 64 % 64 - 128)) * 64
          + (128 + c % 64 - 128)
        ≡ c =
      omega arith in
    decode-four _ (128 + c / 4096 % 64) (128 + c / 64 % 64) (128 + c % 64) s low high bits
      (omega arith) a (l, h, omega arith, omega arith, omega arith, omega arith)
    ∙ ap (λ n. cons_some n (decode_from s ready)) value

Reads-four : (c : ℕ) (s : Bytes) → 65536 ≤ c → c < 1114112 → Reads c (four c) s
Reads-four c s l h = elim (Bool-cases (c / 262144 == 0)) [
  | inl e ↦
      let z : c / 262144 ≡ 0 = ground arith in
      Reads-four-with c s 144 191 0 (rw z lead-240) (omega arith) (omega arith) (omega arith)
  | inr e ↦ elim (Bool-cases (c / 262144 == 4)) [
    | inl f ↦
        let z : c / 262144 ≡ 4 = ground arith in
        Reads-four-with c s 128 143 4 (rw z lead-244) (omega arith) (omega arith) (omega arith)
    | inr f ↦
        Reads-four-with c s 128 191 (240 + c / 262144 - 240)
          (lead-four (240 + c / 262144) (ground arith) (ground arith)) (omega arith) (omega arith)
          (omega arith)
  ]
]

Reads-utf8 : (c : ℕ) (s : Bytes) → IsScalar c → Reads c (utf8 c) s
unfolding utf8
Reads-utf8 c s scalar = elim (Bool-cases (ltb c 128)) [
  | inl e ↦ rw e (decode-ascii c s (ground arith))
  | inr e ↦ elim (Bool-cases (ltb c 2048)) [
    | inl f ↦ rw (e, f) (Reads-two c s (ground arith) (ground arith))
    | inr f ↦ elim (Bool-cases (ltb c 65536)) [
      | inl g ↦ rw (e, f, g) (Reads-three c s scalar (ground arith) (ground arith))
      | inr g ↦ rw (e, f, g) (Reads-four c s (ground arith) (ground arith))
    ]
  ]
]

-- A text of scalar values is read back from its bytes.
pub from_utf8-encode : (s : Chars) → All IsScalar s → from_utf8 (encode s) ≡ some s
unfolding from_utf8 encode decode_from
from_utf8-encode [] h = refl
from_utf8-encode (c ∷ s) (h, hs) =
    Reads-utf8 c (encode s) h ∙ ap (cons_some c) (from_utf8-encode s hs)
