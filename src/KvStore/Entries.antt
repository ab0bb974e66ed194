-- ===== src/KvStore/Entries.antt =====
-- The key-value store as a map from keys to entries, and the operations on one entry.
use many_framework.Prelude.{
  ⊤, ◌≡◌, false, Bool, Option, none, some, Bytes, bytes_eq, ◌==◌, if◌then◌else◌,
}
use many_framework.Types.{
  Address, Value, metadata, raw, KvStoreMetadata, left, ManyError, Result, ok, err,
  permission_denied, key_disabled, key_not_found, cannot_disable_empty_key, anon_alt_denied,
}
use many_framework.Platform.{Platform}
use many_framework.KvStore.Store.{KvStoreStorage, value_key, acl_key, is_disabled}
use many_framework.KvStore.Handlers.{is_absent, disabled_for}
use many_framework.KvStore.Laws.{kv_value}

-- What is known of a key: a key that was reserved has no contents.
pub record Entry : Type 0 where
  pub meta : KvStoreMetadata
  pub contents : Option Bytes

abbrev pub Entries : Type 0
Entries = Bytes → Option Entry

abbrev pub update : Bytes → Entry → Entries → Entries
update key e m k = if bytes_eq key k then some e else m k

-- The operations on the entry of one key, by the one who acts.
abbrev pub put_entry : Address → Bytes → Option Entry → Result Entry
put_entry id v none =
    ok (record { meta = record { owner = id; disabled = some (left false) }; contents = some v })
put_entry id v (some e) =
    if e.meta.owner == id
    then ok
        (record { meta = record { owner = id; disabled = some (left false) }; contents = some v })
    else err permission_denied

-- An entry that is enabled and has contents, or why it is not.
abbrev pub live_entry : ManyError → Option Entry → Result Entry
live_entry absent none = err absent
live_entry absent (some e) =
    if is_disabled e.meta.disabled
    then err key_disabled
    else (if is_absent e.contents then err absent else ok e)

abbrev pub change_meta : Address → KvStoreMetadata → Entry → Result Entry
change_meta id new e =
    if e.meta.owner == id then ok (record e { meta = new }) else err permission_denied

abbrev pub disable_entry : Address → Option Bytes → Option Entry → Result Entry
disable_entry id reason found = elim (live_entry cannot_disable_empty_key found) [
  | err x ↦ err x
  | ok e ↦ change_meta id (record { owner = id; disabled = some (disabled_for reason) }) e
]

abbrev pub transfer_entry : Bool → Address → Address → Option Entry → Result Entry
transfer_entry new_is_anonymous id new_owner found = elim (live_entry key_not_found found) [
  | err x ↦ err x
  | ok e ↦
      if new_is_anonymous
      then err anon_alt_denied
      else change_meta id (record { owner = new_owner; disabled = e.meta.disabled }) e
]

abbrev pub meta_value : Option Entry → Option Value
meta_value none = none
meta_value (some e) = some (metadata e.meta)

abbrev pub raw_value : Option Bytes → Option Value
raw_value none = none
raw_value (some v) = some (raw v)

abbrev pub contents_value : Option Entry → Option Value
contents_value none = none
contents_value (some e) = raw_value e.contents

module _ {S : Type 0} (p : Platform S) where
  -- The storage holds the entries.
  abbrev pub Shows : KvStoreStorage S → Entries → Type 0
  Shows st m =
      (k : Bytes)
      → (kv_value p st (acl_key k) ≡ meta_value (m k))
        × (kv_value p st (value_key k) ≡ contents_value (m k))

  -- An outcome that the operation on the entries prescribes: the new entry, or the error with
  -- nothing changed.
  abbrev pub Implements :
      Result ⊤ × KvStoreStorage S → KvStoreStorage S → Bytes → Entries → Result Entry → Type 0
  Implements after st key m (ok e) = (after.0 ≡ ok tt) × Shows after.1 (update key e m)
  Implements after st key m (err x) = after ≡ (err x, st)

  pub Implements-err :
      (after : Result ⊤ × KvStoreStorage S) (st : KvStoreStorage S) (key : Bytes) (m : Entries)
      (r : Result Entry) (x : ManyError)
      → r ≡ err x
      → after ≡ (err x, st)
      → Implements after st key m r
  Implements-err after st key m r x e h = rw e h

  pub Implements-ok :
      (after after' : Result ⊤ × KvStoreStorage S) (st : KvStoreStorage S) (key : Bytes)
      (m : Entries) (r : Result Entry) (e : Entry)
      → r ≡ ok e
      → after ≡ after'
      → Implements after' st key m (ok e)
      → Implements after st key m r
  Implements-ok after after' st key m r e outcome same h = rw (outcome, same) h
