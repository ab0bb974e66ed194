-- ===== src/Abci/Messages.antt =====
-- What the bridge passes on: MANY messages in COSE envelopes, and the server behind them. Their
-- shapes and their encoding are those of many-protocol and coset; the server is reached through
-- many-client, and its state is a parameter.
use many_framework.Prelude.{ℕ, Option, Bytes}
use many_framework.Types.{Address, Timestamp, Result, ManyError}

-- `ResponseMessage` of many-protocol.
pub record Response : Type 0 where
  pub version : Option ℕ
  pub from : Address
  pub to : Option Address
  pub answer : Result Bytes
  pub timestamp : Option Timestamp
  pub token : Option Bytes
  -- The hash that the attribute ASYNC carries.
  pub async : Option Bytes

-- `RequestMessage`, as far as the bridge reads it.
pub record Request : Type 0 where
  pub from : Address
  pub method : Bytes
  pub token : Option Bytes

-- The calls that the application makes itself.
pub data Call : Type 0 where
  call_info call_end_block call_commit : Call
  call_begin_block : Option ℕ → Call

pub record Codec (Envelope : Type 0) : Type 0 where
  -- `CoseSign1::from_slice`, `to_vec` and the field `payload`
  pub from_slice : Bytes → Option Envelope
  pub to_vec : Envelope → Option Bytes
  pub payload : Envelope → Option Bytes
  -- `ResponseMessage::from_bytes`, `to_bytes` and `default`
  pub response_from_bytes : Bytes → Option Response
  pub response_to_bytes : Response → Option Bytes
  pub default_response : Response
  -- `AbciInfo` and `AbciCommitInfo`: the height or the height to retain, and the hash
  pub decode_info : Bytes → Option (ℕ × Bytes)
  pub decode_commit : Bytes → Option (ℕ × Bytes)
  -- `Address::anonymous`
  pub anonymous : Address
  -- `ManyError::to_string`
  pub error_text : ManyError → Bytes
  -- The texts of the errors of `from_slice` and `to_vec`, where these fail
  pub decode_error : Bytes → Bytes
  pub encode_error : Envelope → Bytes

-- A MANY server in a state `S`: `send_envelope` and `call_` of many-client.
pub record Server (Envelope S : Type 0) : Type 0 where
  pub send_envelope : Envelope → S → Result Envelope × S
  pub call : Call → S → Result Bytes × S
