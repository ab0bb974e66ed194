-- ===== src/Abci/Frontend.antt =====
-- The frontend of the bridge: src/many-abci/src/many_app.rs. It takes MANY messages and hands them
-- to Tendermint, whose client is a parameter with a state.
pub mod Laws
use many_framework.Prelude.{
  Bool, true, false, ◌&&◌, not, is_some, Option, none, some, List, [], ◌∷◌, Bytes, bytes_eq,
  if◌then◌else◌,
}
use many_framework.Types.{
  Address, Result, ok, err, ManyError, invalid_method_name, invalid_from_identity,
  unexpected_transport_error,
}
use many_framework.Storage.Basic.{contains}
use many_framework.Abci.Messages.{Request, Response, Codec}

-- What the frontend calls: the decoding and verifying of requests, the encoding and signing of
-- responses (many-protocol), and Tendermint's `broadcast_tx_sync` and `abci_query`.
pub record Client (Envelope C : Type 0) : Type 0 where
  pub decode_request : Envelope → Result Request
  pub encode_response : Response → Option Envelope
  pub broadcast_tx_sync : Bytes → C → Option Bytes × C
  pub abci_query : Bytes → C → Option Bytes
  -- `ResponseMessage::from_request` and `ResponseMessage::error`
  pub from_request : Request → Address → Result Bytes → Response
  pub error : Address → ManyError → Response

-- `backend_endpoints` gives for each method whether it is a command.
pub record AbciModuleMany : Type 0 where
  pub identity : Address
  pub backend_endpoints : List (Bytes × Bool)
  pub allow_addrs : Option (List Address)

-- `BTreeMap::get`
abbrev pub endpoint : Bytes → List (Bytes × Bool) → Option Bool
endpoint method [] = none
endpoint method ((m, is_command) ∷ endpoints) =
    if bytes_eq m method then some is_command else endpoint method endpoints

abbrev pub is_allowed : Option (List Address) → Address → Bool
is_allowed none a = true
is_allowed (some addrs) a = contains addrs a

abbrev or_transport_error {ℓ} : {A : Type ℓ} → Option A → Result A
or_transport_error none = err unexpected_transport_error
or_transport_error (some a) = ok a

module _ {Envelope C : Type 0} (codec : Codec Envelope) (client : Client Envelope C)
    (m : AbciModuleMany) where
  -- The answer to a command: an empty payload, with the hash of the transaction.
  abbrev pub command_answer : Request → Option Bytes → Result Envelope
  command_answer message none = err unexpected_transport_error
  command_answer message (some hash) = or_transport_error (
      client.encode_response
        (record (client.from_request message m.identity (ok [])) { async = some hash }))

  unfoldable pub run_command : Request → Bytes → C → Result Envelope × C
  run_command message bytes c =
      if not (is_allowed m.allow_addrs message.from)
      then (err invalid_from_identity, c)
      else (let sent = client.broadcast_tx_sync bytes c in (command_answer message sent.0, sent.1))

  abbrev pub query_answer : Option Bytes → Result Envelope
  query_answer none = err unexpected_transport_error
  query_answer (some value) = or_transport_error (codec.from_slice value)

  unfoldable pub execute_message : Envelope → C → Result Envelope × C
  execute_message envelope c = elim (client.decode_request envelope) [
    | err e ↦ (err e, c)
    | ok message ↦ elim (endpoint message.method m.backend_endpoints) [
      | none ↦ (err invalid_method_name, c)
      | some is_command ↦ elim (codec.to_vec envelope) [
        | none ↦ (err unexpected_transport_error, c)
        | some bytes ↦ elim is_command [
          | true ↦ run_command message bytes c
          | false ↦ (query_answer (client.abci_query bytes c), c)
        ]
      ]
    ]
  ]

  -- Every error becomes a response; none where that cannot be encoded.
  abbrev pub answer : Result Envelope → Option Envelope
  answer (ok envelope) = some envelope
  answer (err e) = client.encode_response (client.error m.identity e)

  unfoldable pub execute : Envelope → C → Option Envelope × C
  execute envelope c = let executed = execute_message envelope c in (answer executed.0, executed.1)
