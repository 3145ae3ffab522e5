-- ===== src/Base/Int.antt =====
-- Signed integers, and their decimal digits (`i64::to_string`).
pub mod Parse
use Prim.Native.Nat.{ℕ, zero, suc, ◌+◌, ◌/◌, ◌%◌}
use mathlib.Core.Bool.{Bool, false}
use mathlib.Core.List.{List, [], ◌∷◌}
use glide_rust.Base.Tests.{◌==◌}

-- `negsuc n` is -(n + 1).
pub data ℤ : Type 0 where
  pos : ℕ → ℤ
  negsuc : ℕ → ℤ

abbrev pub is_zero : ℤ → Bool
is_zero (pos n) = n == 0
is_zero (negsuc n) = false

abbrev pub ℤ_eq : ℤ → ℤ → Bool
ℤ_eq (pos a) (pos b) = a == b
ℤ_eq (negsuc a) (negsuc b) = a == b
ℤ_eq _ _ = false

-- The digits of `n`, most significant first, in front of `rest`; one unit of fuel for each digit.
show_from : ℕ → ℕ → List ℕ → List ℕ
show_from zero n rest = rest
show_from (suc fuel) n rest = elim (n / 10) [
  | zero ↦ (48 + n % 10) ∷ rest
  | suc q ↦ show_from fuel (suc q) ((48 + n % 10) ∷ rest)
]

-- A number has no more digits than its successor counts.
unfoldable pub show_nat : ℕ → List ℕ
unfolding show_from
show_nat n = show_from (suc n) n []

unfoldable pub show_int : ℤ → List ℕ
unfolding show_nat
show_int (pos n) = show_nat n
show_int (negsuc n) = b'-' ∷ show_nat (suc n)
