-- ===== src/Exceptions.antt =====
-- jetsocket/exceptions.py, and the built-in exceptions that the modelled code raises or meets.
-- The messages, which nothing reads, are left out.
use jetsocket.Prelude.{ℕ, Option}

pub data Error : Type 0 where
  connection_error : Error
  handshake_error : Option ℕ → Error
  timeout_error : Error
  buffer_overflow_error : ℕ → ℕ → Error
  invalid_state_error : Error
  pool_exhausted_error : ℕ → Error
  pool_closed_error : Error
  protocol_error : Error
  value_error type_error runtime_error overflow_error struct_error zlib_error : Error

-- What a call of Python code gives back: a value, or the exception that it raised.
pub data Result {ℓ} (A : Type ℓ) : Type ℓ where
  ok : A → Result A
  err : Error → Result A
