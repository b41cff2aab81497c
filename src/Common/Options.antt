-- ===== src/Common/Options.antt =====
-- Chains of optional results.
use mathlib.Core.Option.{Option, none, some}

infixl 1 ◌>>=◌
abbrev pub ◌>>=◌ {ℓ} : {A : Type ℓ} → {B : Type ℓ} → Option A → (A → Option B) → Option B
none >>= f = none
some a >>= f = f a
