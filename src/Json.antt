-- ===== src/Json.antt =====
-- JSON values, as `serde_json::Value` presents them to the source: its constructors, and its maps
-- as finite maps whose `insert` overwrites. The numbers are a parameter: the source only converts
-- them.
pub mod Maps
use dirpc.Prelude.{ℕ, String, Bool, Option, none, some, ◌≡◌, if◌then◌else◌, ◌==◌, string_eq}
use dirpc.Prelude.Int.{ℤ}

-- `serde_json::Number`: its conversions, and that an integer put in by `json!` is read back.
pub record Numbers : Type 1 where
  pub Number : Type 0
  pub as_u64 : Number → Option ℕ
  pub as_i64 : Number → Option ℤ
  pub of_u64 : ℕ → Number
  pub of_i64 : ℤ → Number
  pub as_i64-of_i64 : (z : ℤ) → as_i64 (of_i64 z) ≡ some z
  pub as_u64-of_u64 : (n : ℕ) → as_u64 (of_u64 n) ≡ some n

mutual
  pub data Value (N : Type 0) : Type 0 where
    null : Value N
    bool : Bool → Value N
    number : N → Value N
    string : String → Value N
    array : Items N → Value N
    object : Fields N → Value N

  pub data Items (N : Type 0) : Type 0 where
    nil : Items N
    cons : Value N → Items N → Items N

  pub data Fields (N : Type 0) : Type 0 where
    end : Fields N
    field : String → Value N → Fields N → Fields N

module _ {N : Type 0} where
  -- `Map::get`
  unfoldable pub lookup : String → Fields N → Option (Value N)
  lookup k end = none
  lookup k (field j v m) = if j == k then some v else lookup k m

  -- `Map::insert`
  unfoldable pub insert : String → Value N → Fields N → Fields N
  insert k v end = field k v end
  insert k v (field j w m) = if j == k then field j v m else field j w (insert k v m)

  -- `Value::get` by a key is `None` on what is no object.
  abbrev pub get : String → Value N → Option (Value N)
  get k (object m) = lookup k m
  get k _ = none

  abbrev pub as_object : Value N → Option (Fields N)
  as_object (object m) = some m
  as_object _ = none

  abbrev pub as_array : Value N → Option (Items N)
  as_array (array xs) = some xs
  as_array _ = none

  abbrev pub as_bool : Value N → Option Bool
  as_bool (bool b) = some b
  as_bool _ = none

  abbrev pub as_number : Value N → Option N
  as_number (number n) = some n
  as_number _ = none

  abbrev pub is_nil : Items N → Bool
  is_nil nil = Bool.true
  is_nil (cons _ _) = Bool.false
