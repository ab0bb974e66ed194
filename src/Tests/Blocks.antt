-- ===== src/Tests/Blocks.antt =====
-- The commit of a block on the sample platform, and expiring held transactions.
use many_framework.Prelude.{◌≡◌, refl, some, ◌*◌, ◌<◌, true, [], ◌∷◌, List, Bytes, arith}
use many_framework.Types.{
  multisig, MultisigTransactionState, put, be_u64, ok, MultisigTransactionStorage,
}
use many_framework.Platform.{be_number}
use many_framework.Storage.State.{LedgerStorage}
use many_framework.Storage.Keys.{height_root}
use many_framework.Storage.Basic.{get_height, maybe_commit, now}
use many_framework.Storage.Multisig.Expiry.{
  expired_batch, check_timed_out_multisig_transactions, apply_unless_empty,
}
use many_framework.Storage.Multisig.Timeouts.{values, all_expired, AreBounded, expired_batch_lem}
use many_framework.Storage.Commit.{commit, abci_info, height_event_id_factor}
use many_framework.Storage.Commit.Laws.{counted, commit_lem}
use many_framework.Tests.Sample.{Store, platform, storage_of}
use many_framework.Tests.SampleLaws.{platform-IsPlatform}
use many_framework.Tests.Held.{describing}
use many_framework.Storage.Keys.{key_for_multisig_transaction, pad_id}
use many_framework.Storage.Basic.Laws.{value}
use many_framework.Storage.Multisig.{disable}
use many_framework.Storage.Multisig.Closing.{timed_out_closes}

abbrev held : List (Bytes × MultisigTransactionStorage)
held = (2 ∷ [], describing) ∷ (1 ∷ [], record describing { disabled = true }) ∷ []

held-AreBounded : AreBounded held
held-AreBounded = (omega arith, (omega arith, tt))

expired_batch_lem_example : expired_batch 950 (values held) ≡ ok (all_expired 950 held)
expired_batch_lem_example = expired_batch_lem 950 held (omega arith) held-AreBounded

abbrev pub sixth : LedgerStorage Store
sixth = storage_of ((height_root, put (be_u64 6)) ∷ [])

abbrev pub scanned : LedgerStorage Store
scanned = (check_timed_out_multisig_transactions platform sixth).1

pub scanned_same : scanned ≡ sixth
unfolding check_timed_out_multisig_transactions expired_batch apply_unless_empty maybe_commit now
scanned_same = refl

pub height_low : get_height platform scanned < height_event_id_factor
unfolding get_height
height_low = rw scanned_same (omega arith)

commit_lem_example :
    let after = commit platform sixth in
    let root =
      platform.root_hash
        (platform.commit (platform.commit (counted platform scanned).persistent_store)) in
    (after.0 ≡ ok root)
    × ((abci_info platform after.1).1 ≡ root)
    × (after.1.persistent_store
        ≡ platform.commit (platform.commit (counted platform scanned).persistent_store))
    × (be_number after.1.latest_tid ≡ get_height platform scanned * height_event_id_factor)
commit_lem_example =
    commit_lem platform platform-IsPlatform sixth scanned.migrations
      (platform.commit (counted platform scanned).persistent_store) height_low refl

abbrev waiting : List (Bytes × MultisigTransactionStorage)
waiting = (key_for_multisig_transaction (2 ∷ []), describing) ∷ []

-- A block at a time when the transaction is timed out.
abbrev late_block : LedgerStorage Store
late_block =
    record (storage_of ((key_for_multisig_transaction (2 ∷ []), put (multisig describing)) ∷ [])) {
      current_time = some 950;
    }

timed_out_closes_example :
    let after = check_timed_out_multisig_transactions platform late_block in
    (after.0 ≡ ok tt)
    × (value platform after.1 (key_for_multisig_transaction (2 ∷ []))
        ≡ some (multisig (disable MultisigTransactionState.expired describing)))
unfolding key_for_multisig_transaction pad_id now
timed_out_closes_example =
    timed_out_closes platform platform-IsPlatform late_block waiting
      (key_for_multisig_transaction (2 ∷ [])) describing refl refl (omega arith) (omega arith, tt)
      refl (omega arith) refl
