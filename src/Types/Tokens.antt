-- ===== src/Types/Tokens.antt =====
-- Tokens and their supply. A token amount is an unsigned integer of any size.
use many_framework.Prelude.{ℕ, Option, List, Bytes}
use many_framework.Types.Errors.{Address, Symbol, Either}

abbrev pub TokenAmount : Type 0
TokenAmount = ℕ

abbrev pub Memo : Type 0
Memo = Bytes

pub record TokenInfoSummary : Type 0 where
  pub name : Bytes
  pub ticker : Bytes
  pub decimals : ℕ

pub record TokenInfoSupply : Type 0 where
  pub total : TokenAmount
  pub circulating : TokenAmount
  pub maximum : Option TokenAmount

pub record TokenInfo : Type 0 where
  pub symbol : Symbol
  pub summary : TokenInfoSummary
  pub supply : TokenInfoSupply
  pub owner : Option Address

pub data ExtendedInfoKey : Type 0 where
  memo_key visual_logo_key : ExtendedInfoKey
  other_key : ℕ → ExtendedInfoKey

pub record TokenExtendedInfo : Type 0 where
  pub memo : Option Memo
  pub visual_logo : Option Bytes

-- `LedgerTokensAddressMap`, a `BTreeMap` in its iteration order.
abbrev pub Distribution : Type 0
Distribution = List (Address × TokenAmount)

pub record TokenCreateArgs : Type 0 where
  pub summary : TokenInfoSummary
  pub owner : Option (Either Address Unit)
  pub initial_distribution : Option Distribution
  pub maximum_supply : Option TokenAmount
  pub extended_info : Option TokenExtendedInfo
  pub memo : Option Memo

pub record TokenUpdateArgs : Type 0 where
  pub symbol : Symbol
  pub name : Option Bytes
  pub ticker : Option Bytes
  pub decimals : Option ℕ
  pub owner : Option (Either Address Unit)
  pub memo : Option Memo
