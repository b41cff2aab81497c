-- ===== src/Common/Faults.antt =====
-- Code that may write outside of a buffer, and code that reports an error message.
use mathlib.Core.Path.{◌≡◌, refl}
use e2ee_windows.Common.Text.{Bytes}

-- `fault` stands for a write outside of a buffer: what the program does from there on is
-- undefined, so a run that faults has no result.
pub data Run {ℓ} (A : Type ℓ) : Type ℓ where
  done : A → Run A
  fault : Run A

infixl 5 ◌>>=◌
abbrev pub ◌>>=◌ {ℓ κ} : {A : Type ℓ} {B : Type κ} → Run A → (A → Run B) → Run B
done a >>= f = f a
fault >>= f = fault

-- Inversion of a run that ended.
pub >>=-eq-done {ℓ κ} :
    {A : Type ℓ} {B : Type κ} (m : Run A) (f : A → Run B) {b : B}
    → (m >>= f) ≡ done b
    → (a : A) × (m ≡ done a) × (f a ≡ done b)
>>=-eq-done (done a) f h = (a, refl, h)
>>=-eq-done fault f h = cc

-- `true` with an output argument, or `false` with the text that `error` is set to.
pub data Result {ℓ} (A : Type ℓ) : Type ℓ where
  ok : A → Result A
  err : Bytes → Result A
