-- ===== src/Types.antt =====
-- The messages of src/types.rs.
use dirpc.Prelude.{ℕ, String, Option, none, some, ◌≡◌, ◌↔◌, arith, if◌then◌else◌, ◌==◌, nat_eq}
use dirpc.Json.{Value, null}

-- `payload` is the source's field `data`.
pub record RpcMessage (N : Type 0) : Type 0 where
  pub cmd : String
  pub payload : Value N
  pub evt : Option String
  pub nonce : Option String
  pub args : Option (Value N)

-- `RpcMessage::default()`
abbrev pub empty_message : {N : Type 0} → RpcMessage N
empty_message = record { cmd = ""; payload = null; evt = none; nonce = none; args = none }

pub record ActivityEvent (N : Type 0) : Type 0 where
  pub activity : Option (Value N)
  pub pid : Option ℕ
  pub socket_id : ℕ

pub record Handshake : Type 0 where
  pub v : ℕ
  pub client_id : String

pub data IpcOpcode : Type 0 where
  handshake frame close ping pong : IpcOpcode

-- `opcode as i32`, the discriminant
abbrev pub as_i32 : IpcOpcode → ℕ
as_i32 handshake = 0
as_i32 frame = 1
as_i32 close = 2
as_i32 ping = 3
as_i32 pong = 4

unfoldable pub from_i32 : ℕ → Option IpcOpcode
from_i32 v =
    if v == 0
    then some handshake
    else if v == 1
    then some frame
    else if v == 2
    then some close
    else if v == 3
    then some ping
    else if v == 4
    then some pong
    else none

-- The wire numbers and the opcodes match both ways: a number is read as an opcode exactly if it is
-- that opcode's discriminant.
pub from_i32-as_i32 : (v : ℕ) (op : IpcOpcode) → (from_i32 v ≡ some op) ↔ (v ≡ as_i32 op)
unfolding from_i32
from_i32-as_i32 v handshake = ground arith
from_i32-as_i32 v frame = ground arith
from_i32-as_i32 v close = ground arith
from_i32-as_i32 v ping = ground arith
from_i32-as_i32 v pong = ground arith
