-- ===== src/Prelude/ByteStrings.antt =====
-- Byte strings: the lexicographic order of `Vec<u8>`, its equality, and keys built by appending.
use Prim.Native.Nat.{ℕ, compare, Ordering}
use Prim.Native.Char.{code}
use Prim.Native.String.{String}
use mathlib.Core.Path.{◌≡◌, refl}
use mathlib.Core.Logic.{◌↔◌}
use mathlib.Core.Bool.{Bool, true, false, ◌&&◌, not}
use mathlib.Core.List.{List, [], ◌∷◌, ◌++◌}
use native.Mathlib.Omega.{arith}
use many_framework.Prelude.Tests.{◌==◌}

abbrev pub Bytes : Type 0
Bytes = List ℕ

-- The bytes of an ASCII text.
abbrev pub codes : String → Bytes
codes String.[] = []
codes (String.◌∷◌ c s) = code c ∷ codes s

-- `Ord::cmp` on byte strings.
abbrev pub bytes_cmp : Bytes → Bytes → Ordering
bytes_cmp [] [] = Ordering.eq
bytes_cmp [] (y ∷ ys) = Ordering.lt
bytes_cmp (x ∷ xs) [] = Ordering.gt
bytes_cmp (x ∷ xs) (y ∷ ys) = elim (compare x y) [
  | Ordering.lt ↦ Ordering.lt
  | Ordering.eq ↦ bytes_cmp xs ys
  | Ordering.gt ↦ Ordering.gt
]

abbrev pub bytes_eq : Bytes → Bytes → Bool
bytes_eq xs ys = elim (bytes_cmp xs ys) [ Ordering.eq ↦ true | _ ↦ false ]

abbrev pub bytes_lt : Bytes → Bytes → Bool
bytes_lt xs ys = elim (bytes_cmp xs ys) [ Ordering.lt ↦ true | _ ↦ false ]

pub bytes_cmp-eq : (xs ys : Bytes) → bytes_cmp xs ys ≡ Ordering.eq → xs ≡ ys
bytes_cmp-eq [] [] h = refl
bytes_cmp-eq [] (y ∷ ys) h = cc
bytes_cmp-eq (x ∷ xs) [] h = cc
bytes_cmp-eq (x ∷ xs) (y ∷ ys) h = ground (arith, bytes_cmp-eq xs ys)

pub bytes_cmp_refl : (xs : Bytes) → bytes_cmp xs xs ≡ Ordering.eq
bytes_cmp_refl [] = refl
bytes_cmp_refl (x ∷ xs) = ground (arith, bytes_cmp_refl xs)

-- The order is antisymmetric: what is greater one way is less the other.
pub bytes_cmp-flip : (xs ys : Bytes) → bytes_cmp xs ys ≡ Ordering.gt → bytes_cmp ys xs ≡ Ordering.lt
bytes_cmp-flip [] [] h = cc
bytes_cmp-flip [] (y ∷ ys) h = cc
bytes_cmp-flip (x ∷ xs) [] h = refl
bytes_cmp-flip (x ∷ xs) (y ∷ ys) h = ground (arith, bytes_cmp-flip xs ys)

pub bytes_eq_iff : (xs ys : Bytes) → (bytes_eq xs ys ≡ true) ↔ (xs ≡ ys)
bytes_eq_iff xs ys = ground (arith, bytes_cmp-eq xs ys, bytes_cmp_refl xs)

pub bytes_eq_refl : (xs : Bytes) → bytes_eq xs xs ≡ true
bytes_eq_refl xs = (bytes_eq_iff xs xs).1 refl

-- Whether a byte occurs.
abbrev pub lacks : ℕ → Bytes → Bool
lacks c [] = true
lacks c (x ∷ xs) = not (c == x) && lacks c xs

-- Two texts that lack the separator are the same if they are followed by it and agree.
pub split_at_separator :
    (c : ℕ) (xs ys us vs : Bytes)
    → lacks c xs ≡ true
    → lacks c ys ≡ true
    → xs ++ c ∷ us ≡ ys ++ c ∷ vs
    → (xs ≡ ys) × (us ≡ vs)
split_at_separator c [] [] us vs p q h = ground arith
split_at_separator c [] (y ∷ ys) us vs p q h = ground arith
split_at_separator c (x ∷ xs) [] us vs p q h = ground arith
split_at_separator c (x ∷ xs) (y ∷ ys) us vs p q h =
    ground (arith, split_at_separator c xs ys us vs)

pub append_cancel : (ps xs ys : Bytes) → ps ++ xs ≡ ps ++ ys → xs ≡ ys
append_cancel [] xs ys h = h
append_cancel (p ∷ ps) xs ys h = ground (arith, append_cancel ps xs ys)
