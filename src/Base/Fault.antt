-- ===== src/Base/Fault.antt =====
-- Runs that may end in a fault of the language (an access out of range, an exception of a
-- container): `none`.
use mathlib.Core.Bool.{Bool, true, false}
use mathlib.Core.Option.{Option, none, some}

infixl 5 ◌>>=◌ ◌>>◌
abbrev pub ◌>>=◌ {ℓ κ} : {A : Type ℓ} {B : Type κ} → Option A → (A → Option B) → Option B
none >>= f = none
some a >>= f = f a

abbrev pub ◌>>◌ {ℓ κ} : {A : Type ℓ} {B : Type κ} → Option A → Option B → Option B
m >> k = m >>= λ _. k

-- Goes on only if the test holds.
abbrev pub require : Bool → Option (Unit {0})
require true = some tt
require false = none
