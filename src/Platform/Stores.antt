-- ===== src/Platform/Stores.antt =====
-- The key-value store `merk`. A batch is refused unless its keys are strictly ascending. Failures
-- of the disk are left out.
use many_framework.Prelude.{
  Bool, true, ◌&&◌, ◌≡◌, Option, none, some, List, [], ◌∷◌, ◌++◌, Bytes, bytes_eq, bytes_lt,
  if◌then◌else◌, not,
}
use many_framework.Types.{Value, Op, put, delete, Batch}

pub record Merk (S : Type 0) : Type 0 where
  pub get : S → Bytes → Option Value
  pub apply : S → Batch → Option S
  pub apply_unchecked : S → Batch → S
  pub commit : S → S
  pub root_hash : S → Bytes
  -- The entries under a prefix as RocksDB holds them, ascending.
  pub iter_prefix : S → Bytes → List (Bytes × Value)
  -- Those from a key on and below another.
  pub iter_range : S → Bytes → Bytes → List (Bytes × Value)

-- Whether each key is less than the next.
abbrev pub ascending : Bytes → Batch → Bool
ascending k [] = true
ascending k ((j, op) ∷ b) = bytes_lt k j && ascending j b

abbrev pub is_sorted : Batch → Bool
is_sorted [] = true
is_sorted ((k, op) ∷ b) = ascending k b

abbrev pub op_value : Op → Option Value
op_value (put v) = some v
op_value delete = none

-- What a key reads after a batch, from what it read before.
abbrev pub batch_get : Batch → Bytes → Option Value → Option Value
batch_get [] k old = old
batch_get ((j, op) ∷ b) k old = if bytes_eq j k then op_value op else batch_get b k old

abbrev pub read : Bytes → List (Bytes × Value) → Option Value
read k [] = none
read k ((j, v) ∷ m) = if bytes_eq j k then some v else read k m

-- Whether a key lies from a lower bound on and below an upper one.
abbrev pub in_range : Bytes → Bytes → Bytes → Bool
in_range low high k = not (bytes_lt k low) && bytes_lt k high

abbrev pub keep_range {ℓ} : {V : Type ℓ} → Bytes → Bytes → List (Bytes × V) → List (Bytes × V)
keep_range low high [] = []
keep_range low high ((k, v) ∷ m) =
    if in_range low high k then (k, v) ∷ keep_range low high m else keep_range low high m

pub record IsMerk {S : Type 0} (m : Merk S) : Type 0 where
  pub apply_lem :
      (s : S) (b : Batch)
      → m.apply s b ≡ (if is_sorted b then some (m.apply_unchecked s b) else none)
  pub get-apply :
      (s : S) (b : Batch) (k : Bytes)
      → is_sorted b ≡ true
      → m.get (m.apply_unchecked s b) k ≡ batch_get b k (m.get s k)
  pub get-commit : (s : S) (k : Bytes) → m.get (m.commit s) k ≡ m.get s k
  -- The iterator reads what was committed last.
  pub iter-apply :
      (s : S) (b : Batch) (p : Bytes) → m.iter_prefix (m.apply_unchecked s b) p ≡ m.iter_prefix s p
  -- A range of the whole.
  pub iter_range_lem :
      (s : S) (low high : Bytes)
      → m.iter_range s low high ≡ keep_range low high (m.iter_prefix s [])
  pub read-iter :
      (s : S) (p k : Bytes) → read (p ++ k) (m.iter_prefix (m.commit s) p) ≡ m.get s (p ++ k)
