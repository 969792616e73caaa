-- ===== src/Prelude/Errors.antt =====
-- Go errors and `(value, error)` results.
use Prim.Native.String.{String}

-- `errors.New`; `fmt.Errorf` around another error; around the last error of a loop that may have
-- met none.
pub data Error : Type 0 where
  msg : String → Error
  wrapped : String → Error → Error
  exhausted : String → Error

pub data Result {ℓ} (A : Type ℓ) : Type ℓ where
  ok : A → Result A
  err : Error → Result A
