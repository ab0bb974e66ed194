-- ===== src/Platform/Rest.antt =====
-- Event ids, extended token information, migrations and the clock; and the whole platform.
use many_framework.Prelude.{
  ℕ, ◌+◌, ◌*◌, ◌%◌, ◌^◌, Bool, true, false, leb, ◌&&◌, ◌≡◌, Option, List, [], ◌∷◌, Bytes,
}
use many_framework.Types.{
  Timestamp, EventId, TokenExtendedInfo, ExtendedInfoKey, Memo, Result, Answer,
}
use many_framework.Platform.Stores.{Merk, IsMerk}
use many_framework.Platform.Addresses.{Identity, IsIdentity}
use many_framework.Platform.Accounts.{AccountOps, IsAccountOps}

-- `EventId` of many-modules: addition, and the id of a number.
pub record EventIds : Type 0 where
  pub add_id : EventId → ℕ → EventId
  pub id_from_u64 : ℕ → EventId

-- The number that big-endian bytes stand for.
be_number_from : ℕ → Bytes → ℕ
be_number_from acc [] = acc
be_number_from acc (x ∷ xs) = be_number_from (acc * 256 + x) xs

unfoldable pub be_number : Bytes → ℕ
unfolding be_number_from
be_number = be_number_from 0

-- An id counts as its number.
pub record IsEventIds (e : EventIds) : Type 0 where
  pub number-add_id : (i : EventId) (n : ℕ) → be_number (e.add_id i n) ≡ be_number i + n
  pub number-from_u64 : (n : ℕ) → be_number (e.id_from_u64 n) ≡ n % 2 ^ 64

-- `TokenExtendedInfo` of many-modules.
pub record ExtInfoOps : Type 0 where
  pub default_ext_info : TokenExtendedInfo
  pub new_ext_info : TokenExtendedInfo
  pub with_memo : TokenExtendedInfo → Memo → Result TokenExtendedInfo
  pub with_visual_logo : TokenExtendedInfo → Bytes → Result TokenExtendedInfo
  pub retain : TokenExtendedInfo → List ExtendedInfoKey → Result TokenExtendedInfo
  pub contains_index : TokenExtendedInfo → ExtendedInfoKey → Result Bool
  pub remove_index : TokenExtendedInfo → ExtendedInfoKey → Result TokenExtendedInfo

pub data Migration : Type 0 where
  token_migration memo_migration account_count_migration block_9400 : Migration

-- A migration set, as far as the ledger asks it: what is active, and at which height a hotfix runs.
pub record Migrations : Type 0 where
  pub is_active : Migration → Bool
  pub hotfix_at : Migration → ℕ → Bool

pub record Platform (S : Type 0) : Type 0 where
  pub merk : Merk S
  pub open merk use *
  pub identity : Identity
  pub open identity use *
  pub accounts : AccountOps
  pub open accounts use *
  pub event_ids : EventIds
  pub open event_ids use *
  pub ext_infos : ExtInfoOps
  pub open ext_infos use *
  -- `Timestamp::now`: any reading of the clock
  pub timestamp_now : S → Timestamp
  -- `minicbor::to_vec` of the answer to an executed transaction
  pub encode_answer : Answer → Bytes
  -- `minicbor::to_vec` of a recall phrase, an array of words
  pub encode_recall_phrase : List Bytes → Bytes
  -- `MigrationSet::update_at_height`
  pub update_at_height : Migrations → S → ℕ → Option (Migrations × S)

-- The encoding of a CBOR array starts with a byte from 0x80 to 0x9f.
abbrev pub starts_array : Bytes → Bool
starts_array [] = false
starts_array (x ∷ xs) = leb 128 x && leb x 159

pub record IsPlatform {S : Type 0} (p : Platform S) : Type 0 where
  pub is_merk : IsMerk p.merk
  pub open is_merk use *
  pub is_identity : IsIdentity p.identity
  pub open is_identity use *
  pub is_accounts : IsAccountOps p.accounts
  pub open is_accounts use *
  pub is_event_ids : IsEventIds p.event_ids
  pub open is_event_ids use *
  pub encode_recall_phrase_lem :
      (phrase : List Bytes) → starts_array (p.encode_recall_phrase phrase) ≡ true
