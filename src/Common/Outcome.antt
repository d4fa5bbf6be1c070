-- ===== src/Common/Outcome.antt =====
-- Errors of src/compiler/formatexception.hpp, and what the calls of the program come to.

-- The causes of a FormatException. `bug` is a BUG_ON that fires: the program stops. `other_exception`
-- is any other exception, such as the ParseException of an embedded instruction.
pub data Error : Type 0 where
  ex_par_unknown ex_par_range ex_par_format ex_par_unused : Error
  other_exception bug : Error

-- A call returns a value or ends with the cause of an exception.
pub data Result {ℓ} (Value : Type ℓ) : Type ℓ where
  err : (cause : Error) → Result Value
  ok : (value : Value) → Result Value

infixl 5 ◌>>=◌
-- An exception passes by whatever follows the call.
abbrev pub ◌>>=◌ {ℓ κ} :
    {Value : Type ℓ} {Next : Type κ} (call : Result Value) (follow : Value → Result Next)
    → Result Next
err cause >>= follow = err cause
ok value >>= follow = follow value
