-- ===== src/Base/Outcomes.antt =====
-- How a call of Go code ends.

use mathlib.Core.Bool.{Bool, true, false}

-- The errors that the modelled functions return: the reason codes InvalidMessage and ProtocolError
-- of corev5/v2/message/identifier.go, and a name for each text of an `errors.New` or `fmt.Errorf`.
pub data Error : Type 0 where
  invalid_message protocol_error malformed_integer : Error
  insufficient_buffer too_long bad_type bad_remaining_length : Error
  long_size packet_too_large bad_topic empty_payload bad_option : Error

-- `stuck` is no result of the code: a loop of the model has used up its fuel.
pub data Outcome {ℓ} (A : Type ℓ) : Type ℓ where
  ok : A → Outcome A
  err : Error → Outcome A
  panic : Outcome A
  stuck : Outcome A

infixl 5 ◌>>=◌ ◌>>◌
abbrev pub ◌>>=◌ {ℓ κ} : {A : Type ℓ} {B : Type κ} → Outcome A → (A → Outcome B) → Outcome B
ok a >>= f = f a
err e >>= f = err e
panic >>= f = panic
stuck >>= f = stuck

abbrev pub ◌>>◌ {ℓ} : {B : Type ℓ} → Outcome (Unit {0}) → Outcome B → Outcome B
m >> k = m >>= λ _. k

-- `if test { return …, e }`
abbrev pub reject : Bool → Error → Outcome (Unit {0})
reject true e = err e
reject false e = ok tt

-- A run-time check of Go: an index or a slice bound out of range.
abbrev pub require : Bool → Outcome (Unit {0})
require true = ok tt
require false = panic
