-- ===== src/Abci/Frontend/Laws.antt =====
-- What the frontend hands to Tendermint, and what it answers otherwise.
use many_framework.Prelude.{
  ◌≡◌, true, false, some, Bytes, arith, Option-cases, Bool-cases, inl, inr, ◌⊎◌,
}
use many_framework.Types.{ok, invalid_from_identity}
use many_framework.Storage.Basic.Subresources.{Result-cases}
use many_framework.Abci.Messages.{Request, Codec}
use many_framework.Abci.Frontend.{
  Client, AbciModuleMany, endpoint, is_allowed, run_command, execute_message, execute,
}

module _ {Envelope C : Type 0} (codec : Codec Envelope) (client : Client Envelope C)
    (m : AbciModuleMany) where
  -- An envelope that holds a command of an allowed sender.
  pub record IsAllowedCommand (envelope : Envelope) (bytes : Bytes) : Type 0 where
    pub message : Request
    pub decodes : client.decode_request envelope ≡ ok message
    pub is_command : endpoint message.method m.backend_endpoints ≡ some true
    pub allowed : is_allowed m.allow_addrs message.from ≡ true
    pub encodes : codec.to_vec envelope ≡ some bytes

  -- Whatever envelope arrives: Tendermint's state is the one before, or the envelope is a request
  -- for a command whose sender is in the list of allowed addresses, where there is a list, and the
  -- state is the one after that envelope was broadcast, once.
  pub execute_broadcasts :
      (envelope : Envelope) (c : C)
      → ((execute codec client m envelope c).1 ≡ c)
        ⊎ ((bytes : Bytes) × IsAllowedCommand envelope bytes
            × ((execute codec client m envelope c).1 ≡ (client.broadcast_tx_sync bytes c).1))
  unfolding execute execute_message run_command
  execute_broadcasts envelope c = elim (Result-cases (client.decode_request envelope)) [
    | inr (e, d) ↦ inl (ground (arith, d))
    | inl (message, d) ↦ elim (Option-cases (endpoint message.method m.backend_endpoints)) [
      | inl k ↦ inl (ground (arith, d, k))
      | inr (false, k) ↦ inl (ground (arith, d, k))
      | inr (true, k) ↦ elim (Option-cases (codec.to_vec envelope)) [
        | inl e ↦ inl (ground (arith, d, k, e))
        | inr (bytes, e) ↦ elim (Bool-cases (is_allowed m.allow_addrs message.from)) [
          | inr h ↦ inl (ground (arith, d, k, e, h))
          | inl h ↦ inr (
            bytes,
            record { message = message; decodes = d; is_command = k; allowed = h; encodes = e },
            ground (arith, d, k, e, h),
          )
        ]
      ]
    ]
  ]

  -- Where there is a list of allowed addresses, a command of a sender that is not in it is answered
  -- with the error for an invalid sender, and nothing is broadcast.
  pub execute_unlisted :
      (envelope : Envelope) (c : C) (message : Request) (bytes : Bytes)
      → client.decode_request envelope ≡ ok message
      → endpoint message.method m.backend_endpoints ≡ some true
      → codec.to_vec envelope ≡ some bytes
      → is_allowed m.allow_addrs message.from ≡ false
      → execute codec client m envelope c
        ≡ (client.encode_response (client.error m.identity invalid_from_identity), c)
  unfolding execute execute_message run_command
  execute_unlisted envelope c message bytes d k e h = ground (arith, d, k, e, h)
