-- ===== src/Outcome.antt =====
-- Results of code that may panic and that runs loops on fuel.
use reddit_puzzle_system_des.Base.{Option, none, some}

-- `panic` is also an access out of bounds, `running` a loop that has not ended when the fuel has.
pub data Outcome {ℓ} (A : Type ℓ) : Type ℓ where
  done : A → Outcome A
  panic : Outcome A
  running : Outcome A

infixl 5 ◌>>=◌
abbrev pub ◌>>=◌ {ℓ κ} : {A : Type ℓ} {B : Type κ} → Outcome A → (A → Outcome B) → Outcome B
done a >>= f = f a
panic >>= f = panic
running >>= f = running

abbrev pub need {ℓ} : {A : Type ℓ} → Option A → Outcome A
need none = panic
need (some a) = done a
