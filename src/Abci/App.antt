-- ===== src/Abci/App.antt =====
-- The ABCI application: src/many-abci/src/abci_app.rs. The text of `data` in `info` is left out; the
-- field `data` is `payload`; a cast between `u64` and `i64` keeps the 64 bits, and so the number here.
pub mod Laws
use many_framework.Prelude.{ℕ, Option, none, some, List, [], ◌∷◌, Bytes, unwrap_or}
use many_framework.Types.{Result, ok, err, panic, deserialization_error}
use many_framework.Abci.Messages.{
  Response, Codec, Server, call_info, call_begin_block, call_end_block, call_commit,
}

pub record ResponseInfo : Type 0 where
  pub app_version : ℕ
  pub last_block_height : ℕ
  pub last_block_app_hash : Bytes

pub record ResponseQuery : Type 0 where
  pub code : ℕ
  pub value : Bytes
  pub log : Bytes

pub record ResponseDeliverTx : Type 0 where
  pub code : ℕ
  pub payload : Bytes
  pub log : Bytes

pub record ResponseCommit : Type 0 where
  pub payload : Bytes
  pub retain_height : ℕ

abbrev decoded {ℓ} : {A : Type ℓ} → (Bytes → Option A) → Result Bytes → Result A
decoded f (err e) = err e
decoded f (ok payload) = elim (f payload) [ none ↦ err deserialization_error | some a ↦ ok a ]

-- The fields that may differ between two nodes are overwritten.
unfoldable pub normalize : {Envelope : Type 0} → Codec Envelope → Response → Response
normalize c response = record response { from = c.anonymous; version = none; timestamp = some 0 }

module _ {Envelope S : Type 0} (c : Codec Envelope) (server : Server Envelope S) where
  unfoldable pub info : S → ResponseInfo × S
  info st =
      let called = server.call call_info st in
      elim (decoded c.decode_info called.0) [
        | err e ↦
            (record { app_version = 0; last_block_height = 0; last_block_app_hash = [] }, called.1)
        | ok (height, hash) ↦ (
          record { app_version = 1; last_block_height = height; last_block_app_hash = hash },
          called.1,
        )
      ]

  abbrev answer_query : Result Envelope → ResponseQuery
  answer_query (err e) = record { code = 3; value = []; log = c.error_text e }
  answer_query (ok envelope) = elim (c.to_vec envelope) [
    | none ↦ record { code = 1; value = []; log = c.encode_error envelope }
    | some value ↦ record { code = 0; value = value; log = [] }
  ]

  unfoldable pub query : Bytes → S → ResponseQuery × S
  query bytes st = elim (c.from_slice bytes) [
    | none ↦ (record { code = 2; value = []; log = c.decode_error bytes }, st)
    | some cose ↦ let sent = server.send_envelope cose st in (answer_query sent.0, sent.1)
  ]

  -- The time is that of the block's header, if it has one.
  unfoldable pub begin_block : Option ℕ → S → S
  begin_block time st = (server.call (call_begin_block time) st).1

  -- The response in an envelope, or the default one.
  abbrev pub response_of : Envelope → Response
  response_of envelope =
      unwrap_or (c.response_from_bytes (unwrap_or (c.payload envelope) [])) c.default_response

  abbrev pub deliver : Result Envelope → ResponseDeliverTx
  deliver (err e) = record { code = 1; payload = []; log = c.error_text e }
  deliver (ok envelope) = elim (c.response_to_bytes (normalize c (response_of envelope))) [
    | none ↦ record { code = 3; payload = []; log = [] }
    | some bytes ↦ record { code = 0; payload = bytes; log = [] }
  ]

  unfoldable pub deliver_tx : Bytes → S → ResponseDeliverTx × S
  deliver_tx tx st = elim (c.from_slice tx) [
    | none ↦ (record { code = 2; payload = []; log = c.decode_error tx }, st)
    | some cose ↦ let sent = server.send_envelope cose st in (deliver sent.0, sent.1)
  ]

  unfoldable pub end_block : S → S
  end_block st = (server.call call_end_block st).1

  -- Where the call fails, the text of the error is the hash.
  abbrev answer_commit : Result Bytes → Result ResponseCommit
  answer_commit (err e) = ok (record { payload = c.error_text e; retain_height = 0 })
  answer_commit (ok msg) = elim (c.decode_commit msg) [
    | none ↦ err panic
    | some (retain, hash) ↦ ok (record { payload = hash; retain_height = retain })
  ]

  unfoldable pub commit : S → Result ResponseCommit × S
  commit st = let called = server.call call_commit st in (answer_commit called.0, called.1)
