-- ===== src/Tests/Sending.antt =====
-- Transfers, mints and burns on the sample platform.
use many_framework.Prelude.{◌≡◌, ◌≢◌, ℕ, refl, ◌≤◌, ◌+◌, ◌-◌, none, some, [], ◌∷◌, arith}
use many_framework.Types.{
  put, amount, token_info, ext_info, address, ok, err, TokenInfo, TokenExtendedInfo,
  insufficient_funds, ManyError,
}
use many_framework.Storage.State.{LedgerStorage}
use many_framework.Storage.Keys.{
  key_for_account_balance, key_for_symbol, key_for_ext_info, identity_root,
}
use many_framework.Storage.Basic.{get_symbols, get_symbols_by_key, parse_symbols}
use many_framework.Storage.Balances.{get_balance}
use many_framework.Storage.Data.{data_attributes}
use many_framework.Storage.Tokens.{info_token}
use many_framework.Storage.Send.{send}
use many_framework.Storage.Send.Conservation.{send_outcome, send_balances, sum_over-send, sum_over}
use many_framework.Storage.MintBurn.{mint_token, burn_token}
use many_framework.Storage.MintBurn.Minting.{
  mint_token_balances, mint_token_over, mint_batch, minted_entries,
}
use many_framework.Storage.MintBurn.Burning.{burn_token_balances, burn_batch, burnt_entries}
use many_framework.Storage.MintBurn.{with_supply}
use many_framework.Storage.MintBurn.Supply.{mint_token_supply}
use many_framework.Storage.Basic.Laws.{value}
use many_framework.Tests.Sample.{Store, identity, platform, storage_of}
use many_framework.Tests.SampleLaws.{platform-IsPlatform}

abbrev coin : TokenInfo
coin = record {
  symbol = 5;
  summary = record { name = []; ticker = []; decimals = 2 };
  supply = record { total = 130; circulating = 130; maximum = some 200 };
  owner = none;
}

abbrev no_info : TokenExtendedInfo
no_info = record { memo = none; visual_logo = none }

-- Address 2 holds 100 and address 3 holds 30 of the token 5.
abbrev funded : LedgerStorage Store
funded = storage_of (
    (key_for_account_balance identity 2 5, put (amount 100))
    ∷ (key_for_account_balance identity 3 5, put (amount 30))
    ∷ (key_for_symbol identity 5, put (token_info coin))
    ∷ (key_for_ext_info identity 5, put (ext_info no_info))
    ∷ (identity_root, put (address 9))
    ∷ [])

ten-ne-zero : ◌≢◌ {A = ℕ} 10 0
ten-ne-zero e = absurd (omega arith)

forty-ne-zero : ◌≢◌ {A = ℕ} 40 0
forty-ne-zero e = absurd (omega arith)

pub two-ne-three : ◌≢◌ {A = ℕ} 2 3
two-ne-three e = absurd (omega arith)

hundred_covers : 40 ≤ 100
hundred_covers = omega arith

small : 10 ≤ 130
small = omega arith

ten_covered : 10 ≤ 100
ten_covered = omega arith

send_outcome_example : send platform 2 3 5 101 none funded ≡ (err insufficient_funds, funded)
unfolding get_balance data_attributes key_for_account_balance key_for_symbol key_for_ext_info
send_outcome_example =
    send_outcome platform platform-IsPlatform 2 3 5 101 none funded {found = none} refl

send_balances_example :
    let after = send platform 2 3 5 40 none funded in
    (after.0 ≡ ok tt) × (get_balance platform 3 5 after.1 ≡ 70)
unfolding get_balance data_attributes key_for_account_balance key_for_symbol key_for_ext_info
send_balances_example =
    send_balances platform platform-IsPlatform 2 3 5 40 none funded none 3 5 refl two-ne-three
      forty-ne-zero refl refl hundred_covers

sum_over-send_example :
    sum_over (λ a. get_balance platform a 5 (send platform 2 3 5 40 none funded).1) (2 ∷ 3 ∷ [])
    ≡ 130
unfolding get_balance data_attributes key_for_account_balance key_for_symbol key_for_ext_info
sum_over-send_example =
    sum_over-send platform platform-IsPlatform 2 3 5 40 none funded none (2 ∷ 3 ∷ []) refl
      (refl, (refl, tt)) refl

mint_token_balances_example :
    let after = mint_token platform 5 ((2, 10) ∷ (4, 40) ∷ []) funded in
    (after.0 ≡ ok tt) × (get_balance platform 4 5 after.1 ≡ get_balance platform 4 5 funded + 40)
unfolding get_symbols get_symbols_by_key parse_symbols info_token key_for_account_balance
    key_for_symbol key_for_ext_info mint_batch minted_entries
mint_token_balances_example =
    mint_token_balances platform platform-IsPlatform 5 funded (5 ∷ []) refl refl (coin, no_info)
      ((2, 10) ∷ (4, 40) ∷ []) refl (refl, ten-ne-zero, (refl, forty-ne-zero, tt)) refl refl 4 5

mint_token_over_example :
    (e : ManyError) × (mint_token platform 5 ((2, 71) ∷ []) funded ≡ (err e, funded))
unfolding get_symbols get_symbols_by_key parse_symbols info_token key_for_account_balance
    key_for_symbol key_for_ext_info
mint_token_over_example =
    mint_token_over platform platform-IsPlatform 5 funded (5 ∷ []) refl refl (coin, no_info)
      ((2, 71) ∷ []) refl refl refl

burn_token_balances_example :
    let after = burn_token platform 5 ((2, 10) ∷ []) funded in
    (after.0 ≡ ok tt) × (get_balance platform 2 5 after.1 ≡ get_balance platform 2 5 funded - 10)
unfolding get_balance get_symbols get_symbols_by_key parse_symbols info_token
    key_for_account_balance key_for_symbol key_for_ext_info burn_batch burnt_entries
burn_token_balances_example =
    burn_token_balances platform platform-IsPlatform 5 funded (5 ∷ []) refl refl (coin, no_info)
      ((2, 10) ∷ []) refl (refl, ten-ne-zero, ten_covered, tt) small small refl 2 5

mint_token_supply_example :
    value platform
      (mint_token platform 5 ((2, 10) ∷ (4, 40) ∷ []) funded).1
      (key_for_symbol identity 5)
    ≡ some (token_info (with_supply coin 180 180))
unfolding get_symbols get_symbols_by_key parse_symbols info_token key_for_account_balance
    key_for_symbol key_for_ext_info mint_batch minted_entries
mint_token_supply_example =
    mint_token_supply platform platform-IsPlatform 5 funded (5 ∷ []) refl refl (coin, no_info)
      ((2, 10) ∷ (4, 40) ∷ []) refl (refl, ten-ne-zero, (refl, forty-ne-zero, tt)) refl refl
