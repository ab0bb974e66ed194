-- ===== src/Tests/Listing.antt =====
-- Restarting a node, a genesis file with two tokens, and the account counters.
use many_framework.Prelude.{◌≡◌, refl, false, none, some, [], ◌∷◌, arith}
use many_framework.Types.{put, amount, attributes, counter, ok}
use many_framework.Platform.{Migrations}
use many_framework.Storage.State.{LedgerStorage}
use many_framework.Storage.Keys.{key_for_account_balance, data_attributes_key}
use many_framework.Storage.Basic.{get_height, maybe_commit}
use many_framework.Storage.Basic.Laws.{written}
use many_framework.Storage.Send.{send}
use many_framework.Storage.Data.{
  data_attributes, account_total_count_index, non_zero_account_total_count_index,
}
use many_framework.Storage.Data.Counted.{IsCounted, Holdings}
use many_framework.Storage.Data.Counted.Transfer.{send-IsCounted}
use many_framework.Storage.Multisig.Expiry.{
  expired_batch, check_timed_out_multisig_transactions, apply_unless_empty,
}
use many_framework.Storage.Commit.{commit, abci_info}
use many_framework.Storage.Commit.Laws.{counted}
use many_framework.Storage.Load.{MigrationOps, load}
use many_framework.Storage.Load.Laws.{load-commit}
use many_framework.Storage.Accounts.{is_ok}
use many_framework.Storage.Genesis.{SymbolMeta, with_tokens}
use many_framework.Storage.Genesis.Laws.{with_tokens_refused}
use many_framework.Tests.Sample.{Store, identity, platform, storage_of, all_active}
use many_framework.Tests.SampleLaws.{platform-IsPlatform}
use many_framework.Tests.Blocks.{sixth, scanned, height_low}

abbrev listing : Holdings
listing = (2, 5) ∷ (3, 5) ∷ []

abbrev holding : LedgerStorage Store
holding = storage_of (
    (key_for_account_balance identity 2 5, put (amount 100))
    ∷ (
      data_attributes_key,
      put (
          attributes (
            (account_total_count_index, counter 1)
            ∷ (non_zero_account_total_count_index, counter 1)
            ∷ [])),
    )
    ∷ [])

holding-IsCounted : IsCounted platform listing holding
unfolding data_attributes key_for_account_balance
holding-IsCounted = record {
  counters =
      (account_total_count_index, counter 1) ∷ (non_zero_account_total_count_index, counter 1) ∷ [];
  found = refl;
  total = refl;
  non_zero = refl;
}

send-IsCounted_example : IsCounted platform listing (send platform 2 3 5 100 none holding).1
send-IsCounted_example =
    send-IsCounted platform platform-IsPlatform 2 3 5 100 none holding listing (refl, (refl, tt))
      refl refl (omega arith) holding-IsCounted

abbrev loading : MigrationOps Migrations
loading = record { load_set = λ m height. some m; empty_set = some all_active }

load-commit_example :
    let after = (commit platform sixth).1 in
    let again = record after {
      current_time = none;
      current_hash = none;
      migrations = all_active;
    } in
    (load platform loading after.persistent_store after.blockchain (some all_active) ≡ ok again)
    × (abci_info platform again ≡ abci_info platform after)
unfolding get_height counted written check_timed_out_multisig_transactions expired_batch
    apply_unless_empty maybe_commit
load-commit_example =
    load-commit platform platform-IsPlatform loading sixth scanned.migrations all_active
      (platform.commit (counted platform scanned).persistent_store) (some all_active) height_low
      refl refl refl

abbrev silver : SymbolMeta
silver = record { name = []; decimals = 2; owner = none; maximum = none }

with_tokens_refused_example :
    is_ok
      (with_tokens platform
        ((5, []) ∷ (6, []) ∷ [])
        (some ((5, silver) ∷ (6, silver) ∷ []))
        none
        none
        ((2, (5, 10) ∷ (6, 20) ∷ []) ∷ [])
        sixth).0
    ≡ false
with_tokens_refused_example =
    with_tokens_refused platform platform-IsPlatform ((5, []) ∷ (6, []) ∷ []) 5 6 silver silver []
      none none ((2, (5, 10) ∷ (6, 20) ∷ []) ∷ []) sixth refl
