-- ===== src/Base/Decimal.antt =====
-- Decimal output of unsigned numbers, as `ostream <<` writes them.
use Prim.Native.Nat.{ℕ, zero, suc, ◌+◌, ◌/◌, ◌%◌}
use mathlib.Core.List.{[], ◌∷◌, ◌++◌}
use qslary.Base.Tests.{ltb, if◌then◌else◌}
use qslary.Base.Text.{Bytes}

-- At most one digit for each unit of fuel.
unfoldable pub digits_of : ℕ → ℕ → Bytes
digits_of zero n = []
digits_of (suc fuel) n =
    let front = digits_of fuel (n / 10) in
    if ltb n 10 then (48 + n) ∷ [] else front ++ ((48 + n % 10) ∷ [])

-- n has fewer than n + 1 digits, so the fuel is enough.
unfoldable pub decimal : ℕ → Bytes
unfolding digits_of
decimal n = digits_of (suc n) n
