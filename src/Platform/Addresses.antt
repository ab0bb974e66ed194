-- ===== src/Platform/Addresses.antt =====
-- Addresses, from many-identity.
use many_framework.Prelude.{ℕ, Bool, true, ◌≡◌, Option, some, Bytes, lacks}
use many_framework.Types.{Address}

pub record Identity : Type 0 where
  -- `Display` and `FromStr`
  pub address_text : Address → Bytes
  pub address_from_text : Bytes → Option Address
  -- `Address::to_vec`
  pub address_bytes : Address → Bytes
  pub is_anonymous : Address → Bool
  pub is_illegal : Address → Bool
  pub is_subresource : Address → Bool
  pub is_public_key : Address → Bool
  pub with_subresource_id : Address → ℕ → Option Address
  pub subresource_id : Address → Option ℕ
  pub max_subresource_id : ℕ

-- A text form tells its address, and is written in letters and digits, so it has no slash.
pub record IsIdentity (i : Identity) : Type 0 where
  pub from-text : (a : Address) → i.address_from_text (i.address_text a) ≡ some a
  pub text_lacks_slash : (a : Address) → lacks b'/' (i.address_text a) ≡ true
