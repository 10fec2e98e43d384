-- ===== src/Words.antt =====
-- Machine integers: 32-bit words in little-endian bytes, and the casts of src/transports/ipc.rs.
-- An i32 is its bit pattern, a number below 2 ^ 32; usize has 64 bits.
use Prim.Native.Char.{code}
use dirpc.Prelude.{
  ℕ, String, ◌+◌, ◌*◌, ◌-◌, ◌/◌, ◌%◌, ◌^◌, ◌<◌, ◌≡◌, refl, Bytes, [], ◌∷◌, ◌++◌, arith, ltb, length,
  All, if◌then◌else◌,
}

abbrev pub u32_mod : ℕ
u32_mod = 2 ^ 32

abbrev pub i32_sign : ℕ
i32_sign = 2 ^ 31

abbrev pub usize_mod : ℕ
usize_mod = 2 ^ 64

-- `to_le_bytes` of a 32-bit integer.
unfoldable pub to_le_bytes : ℕ → Bytes
to_le_bytes w = w % 256 ∷ w / 256 % 256 ∷ w / 65536 % 256 ∷ w / 16777216 % 256 ∷ []

-- `from_le_bytes`.
unfoldable pub from_le_bytes : Bytes → ℕ
from_le_bytes [] = 0
from_le_bytes (b ∷ s) = b + 256 * from_le_bytes s

-- `as usize` of an i32 extends the sign.
unfoldable pub i32_as_usize : ℕ → ℕ
i32_as_usize w = if ltb w i32_sign then w else w + (usize_mod - u32_mod)

pub from_le_bytes-to_le_bytes : (w : ℕ) → w < u32_mod → from_le_bytes (to_le_bytes w) ≡ w
unfolding from_le_bytes to_le_bytes
from_le_bytes-to_le_bytes w h = omega arith

length-to_le_bytes : (w : ℕ) → length (to_le_bytes w) ≡ 4
unfolding to_le_bytes
length-to_le_bytes w = refl

-- Four bytes spell a word below 2 ^ 32, and are its little-endian form.
from_le_bytes-lt :
    (a b c d : ℕ)
    → All (λ x. x < 256) (a ∷ b ∷ c ∷ d ∷ [])
    → from_le_bytes (a ∷ b ∷ c ∷ d ∷ []) < u32_mod
unfolding from_le_bytes
from_le_bytes-lt a b c d h = omega arith

pub to_le_bytes-from_le_bytes :
    (a b c d : ℕ)
    → All (λ x. x < 256) (a ∷ b ∷ c ∷ d ∷ [])
    → to_le_bytes (from_le_bytes (a ∷ b ∷ c ∷ d ∷ [])) ≡ a ∷ b ∷ c ∷ d ∷ []
unfolding from_le_bytes to_le_bytes
to_le_bytes-from_le_bytes a b c d h = ground arith

-- `str::as_bytes`: the UTF-8 form of each character.
unfoldable pub utf8 : ℕ → Bytes
utf8 c =
    if ltb c 128
    then c ∷ []
    else if ltb c 2048
    then (192 + c / 64) ∷ (128 + c % 64) ∷ []
    else if ltb c 65536
    then (224 + c / 4096) ∷ (128 + c / 64 % 64) ∷ (128 + c % 64) ∷ []
    else (240 + c / 262144) ∷ (128 + c / 4096 % 64) ∷ (128 + c / 64 % 64) ∷ (128 + c % 64) ∷ []

unfoldable pub as_bytes : String → Bytes
unfolding utf8
as_bytes String.[] = []
as_bytes (String.◌∷◌ c s) = utf8 (code c) ++ as_bytes s
