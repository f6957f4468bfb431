-- ===== src/Base/Outcomes.antt =====
-- What a call comes to: a value, the end of the process by `abort()` or by the `exit()` of sha256.c, an access outside the memory
-- that the program owns, or a loop that used up its fuel (which theorems exclude). And the error codes of error_codes.h.

pub data Outcome {ℓ} (A : Type ℓ) : Type ℓ where
  ok : A → Outcome A
  aborted : Outcome A
  fault : Outcome A
  out_of_fuel : Outcome A

infixl 5 ◌>>=◌
abbrev pub ◌>>=◌ {ℓ κ} : {A : Type ℓ} {B : Type κ} → Outcome A → (A → Outcome B) → Outcome B
ok a >>= f = f a
aborted >>= f = aborted
fault >>= f = fault
out_of_fuel >>= f = out_of_fuel

-- `enum error_code_enum`; success is `OK = 0`, spelled `success` here.
pub data ErrorCode : Type 0 where
  not_found : ErrorCode
  range_error : ErrorCode
  parse_error : ErrorCode
  allocation_error : ErrorCode
  success : ErrorCode
