-- ===== src/Prelude/Decimal.antt =====
-- `%d` and `strconv.Itoa` on numbers that are not negative.
use Prim.Native.Nat.{ℕ, zero, suc, ◌+◌, ◌/◌, ◌%◌}
use mathlib.Core.Path.{◌≡◌, refl}
use mathlib.Core.List.{[], ◌∷◌}
use foya.Prelude.Tests.{ltb}
use mathlib.Core.Bool.{true, false}
use foya.Prelude.Texts.{Text, text}

-- The digits of `n` in front of `acc`; `n` is below ten to the power of the fuel.
digits_onto : ℕ → ℕ → Text → Text
digits_onto zero n acc = acc
digits_onto (suc fuel) n acc = elim (ltb n 10) [
  | true ↦ (48 + n) ∷ acc
  | false ↦ digits_onto fuel (n / 10) ((48 + n % 10) ∷ acc)
]

unfoldable pub decimal : ℕ → Text
unfolding digits_onto
decimal n = digits_onto (suc n) n []

decimal_runs : decimal 1203 ≡ text "1203"
unfolding decimal
decimal_runs = refl
