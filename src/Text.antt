-- ===== src/Text.antt =====
-- What the source calls of Rust's `str`, on the list of its code points: decoding, lines, words,
-- splitting, trimming and slices by bytes.
pub mod Decimal
pub mod Slice
pub mod Parts
pub mod Utf8
use dirpc.Prelude.{
  ℕ, zero, suc, ◌+◌, ◌-◌, ◌*◌, ◌/◌, ◌%◌, Bool, true, false, ◌&&◌, ◌||◌, Option, none, some, ◌>>=◌,
  Bytes, List, [], ◌∷◌, ◌++◌, ltb, leb, if◌then◌else◌, Run, done, panic, ◌==◌, nat_eq,
}

abbrev pub Chars : Type 0
Chars = List ℕ

-- `std::str::from_utf8`: the bytes that may follow, how many more of them, and the bits so far.
pub data Pending : Type 0 where
  ready : Pending
  need : (more : ℕ) → (low : ℕ) → (high : ℕ) → (bits : ℕ) → Pending

abbrev within : ℕ → ℕ → ℕ → Bool
within a b c = leb a c && leb c b

-- What a byte at the start of a character announces.
lead : ℕ → Option Pending
lead a =
    if within 194 223 a
    then some (need 0 128 191 (a - 192))
    else if a == 224
    then some (need 1 160 191 0)
    else if a == 237
    then some (need 1 128 159 13)
    else if within 225 239 a
    then some (need 1 128 191 (a - 224))
    else if a == 240
    then some (need 2 144 191 0)
    else if within 241 243 a
    then some (need 2 128 191 (a - 240))
    else if a == 244
    then some (need 2 128 143 4)
    else none

abbrev cons_some : ℕ → Option Chars → Option Chars
cons_some c none = none
cons_some c (some s) = some (c ∷ s)

abbrev after_lead : (Pending → Option Chars) → Option Pending → Option Chars
after_lead rest none = none
after_lead rest (some p) = rest p

decode_from : Bytes → Pending → Option Chars
unfolding lead
decode_from [] ready = some []
decode_from [] (need _ _ _ _) = none
decode_from (a ∷ s) ready =
    let rest = decode_from s in
    if ltb a 128 then cons_some a (rest ready) else after_lead rest (lead a)
decode_from (a ∷ s) (need zero low high bits) =
    let rest = decode_from s in
    if within low high a then cons_some (bits * 64 + (a - 128)) (rest ready) else none
decode_from (a ∷ s) (need (suc more) low high bits) =
    let rest = decode_from s in
    if within low high a then rest (need more 128 191 (bits * 64 + (a - 128))) else none

unfoldable pub from_utf8 : Bytes → Option Chars
unfolding decode_from
from_utf8 s = decode_from s ready

-- `char::len_utf8`, `str::len`
abbrev pub width : ℕ → ℕ
width c = if ltb c 128 then 1 else if ltb c 2048 then 2 else if ltb c 65536 then 3 else 4

abbrev pub byte_length : Chars → ℕ
byte_length [] = 0
byte_length (c ∷ s) = width c + byte_length s

-- `&s[..n]`, which panics off the character boundaries
abbrev cons_run : ℕ → Run Chars → Run Chars
cons_run c panic = panic
cons_run c (done s) = done (c ∷ s)

unfoldable pub slice_to : ℕ → Chars → Run Chars
slice_to n [] = if n == 0 then done [] else panic
slice_to n (c ∷ s) =
    let rest = slice_to (n - width c) s in
    if n == 0 then done [] else if ltb n (width c) then panic else cons_run c rest

-- The first character joins the first part.
abbrev pub extend : ℕ → List Chars → List Chars
extend c [] = (c ∷ []) ∷ []
extend c (p ∷ ps) = (c ∷ p) ∷ ps

abbrev starts_line_feed : Chars → Bool
starts_line_feed [] = false
starts_line_feed (c ∷ _) = c == b'\n'

-- `str::lines`: a line ends at a line feed, with one carriage return in front of it.
unfoldable pub lines : Chars → List Chars
lines [] = []
lines (c ∷ s) =
    let rest = lines s in
    if c == b'\n'
    then [] ∷ rest
    else if c == b'\r' && starts_line_feed s
    then rest
    else extend c rest

-- `char::is_whitespace`, the White_Space property
abbrev pub is_whitespace : ℕ → Bool
is_whitespace c =
    within 9 13 c
    || c == 32
    || c == 133
    || c == 160
    || c == 5760
    || within 8192 8202 c
    || c == 8232
    || c == 8233
    || c == 8239
    || c == 8287
    || c == 12288

abbrev pub starts_word : Chars → Bool
starts_word [] = false
starts_word (c ∷ _) = if is_whitespace c then false else true

-- `str::split_whitespace`
unfoldable pub split_whitespace : Chars → List Chars
split_whitespace [] = []
split_whitespace (c ∷ s) =
    let rest = split_whitespace s in
    if is_whitespace c then rest else if starts_word s then extend c rest else (c ∷ []) ∷ rest

-- `str::split` at a character
unfoldable pub split_at : ℕ → Chars → List Chars
split_at sep [] = [] ∷ []
split_at sep (c ∷ s) = let rest = split_at sep s in if c == sep then [] ∷ rest else extend c rest

abbrev cons_before : ℕ → Option (Chars × Chars) → Option (Chars × Chars)
cons_before c none = none
cons_before c (some (a, b)) = some (c ∷ a, b)

-- `str::split_once`
unfoldable pub split_once : ℕ → Chars → Option (Chars × Chars)
split_once sep [] = none
split_once sep (c ∷ s) =
    let rest = split_once sep s in if c == sep then some ([], s) else cons_before c rest

-- `str::trim`
trim_start : Chars → Chars
trim_start [] = []
trim_start (c ∷ s) = let rest = trim_start s in if is_whitespace c then rest else c ∷ s

abbrev cons_trimmed : ℕ → Chars → Chars
cons_trimmed c [] = if is_whitespace c then [] else c ∷ []
cons_trimmed c (d ∷ s) = c ∷ d ∷ s

trim_end : Chars → Chars
trim_end [] = []
trim_end (c ∷ s) = cons_trimmed c (trim_end s)

unfoldable pub trim : Chars → Chars
unfolding trim_start trim_end
trim s = trim_end (trim_start s)

-- `eq_ignore_ascii_case`
abbrev pub to_ascii_lowercase : ℕ → ℕ
to_ascii_lowercase c = if within 65 90 c then c + 32 else c

unfoldable pub eq_ignore_ascii_case : Chars → Chars → Bool
eq_ignore_ascii_case [] [] = true
eq_ignore_ascii_case [] (_ ∷ _) = false
eq_ignore_ascii_case (_ ∷ _) [] = false
eq_ignore_ascii_case (a ∷ s) (b ∷ t) =
    to_ascii_lowercase a == to_ascii_lowercase b && eq_ignore_ascii_case s t
