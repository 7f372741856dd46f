-- ===== src/Errors.antt =====
-- apps/api/src/modules/core/errors/domain-error.ts: the errors that services throw.
use Prim.Native.Nat.{ℕ}
use Prim.Native.String.{String}

-- One constructor for each subclass of `DomainError`; `internal` is a plain `throw new Error`.
pub data DomainError : Type 0 where
  not_found conflict forbidden validation optimistic_lock internal : String → DomainError

-- The stable code of each class; the exception filter answers a plain error with its own code.
unfoldable pub code : DomainError → String
code (not_found m) = "NOT_FOUND"
code (conflict m) = "CONFLICT"
code (forbidden m) = "FORBIDDEN"
code (validation m) = "VALIDATION_ERROR"
code (optimistic_lock m) = "OPTIMISTIC_LOCK_CONFLICT"
code (internal m) = "INTERNAL_ERROR"

unfoldable pub http_status : DomainError → ℕ
http_status (not_found m) = 404
http_status (conflict m) = 409
http_status (forbidden m) = 403
http_status (validation m) = 422
http_status (optimistic_lock m) = 409
http_status (internal m) = 500

-- `error.message`
abbrev pub message : DomainError → String
message (not_found m) = m
message (conflict m) = m
message (forbidden m) = m
message (validation m) = m
message (optimistic_lock m) = m
message (internal m) = m
