-- ===== src/Http/Exceptions.antt =====
-- apps/api/src/modules/core/http/http-exception.filter.ts and zod-validation.pipe.ts.
use savemycontrollers.Errors.{DomainError, internal, code, http_status, message}
use savemycontrollers.Prelude.{ℕ, String, Bool, Option, none, some, or_else, if◌then◌else◌}

-- The details of an error are JSON, which is passed on as it is: its text.
abbrev pub Json : Type 0
Json = String

-- The object under `error` in the body of an HttpException.
pub record EnrichedError : Type 0 where
  pub code : Option String
  pub message : Option String
  pub details : Option Json

-- An exception of NestJS; `enriched` is missing where the body has no object under `error`.
pub record HttpException : Type 0 where
  pub status : ℕ
  pub message : String
  pub enriched : Option EnrichedError

-- What a request may throw: a domain error with its details, an exception of NestJS, or another
-- error, which has a text.
pub data Exception : Type 0 where
  domain : DomainError → Option Json → Exception
  http : HttpException → Exception
  unexpected : String → Exception

-- The answer `{ error: … }` with its status.
pub record ErrorResponse : Type 0 where
  pub status : ℕ
  pub code : String
  pub message : String
  pub correlation_id : String
  pub details : Option Json
  pub debug_detail : Option String

abbrev pub domain_response : String → DomainError → Option Json → ErrorResponse
domain_response correlation_id e details = record {
  status = http_status e;
  code = code e;
  message = message e;
  correlation_id = correlation_id;
  details = details;
  debug_detail = none;
}

-- `status_name` is the enum HttpStatus of NestJS, from the number to the name.
abbrev pub http_response : (ℕ → Option String) → String → HttpException → ErrorResponse
http_response status_name correlation_id e = elim e.enriched [
  | none ↦ record {
    status = e.status;
    code = or_else (status_name e.status) "HTTP_ERROR";
    message = e.message;
    correlation_id = correlation_id;
    details = none;
    debug_detail = none;
  }
  | some body ↦ record {
    status = e.status;
    code = or_else body.code (or_else (status_name e.status) "HTTP_ERROR");
    message = or_else body.message e.message;
    correlation_id = correlation_id;
    details = body.details;
    debug_detail = none;
  }
]

abbrev pub unexpected_response : Bool → String → String → ErrorResponse
unexpected_response is_production correlation_id raw_message = record {
  status = 500;
  code = "INTERNAL_ERROR";
  message = "Une erreur interne est survenue.";
  correlation_id = correlation_id;
  details = none;
  debug_detail = if is_production then none else some raw_message;
}

-- `catch`: the identifier is that of the header as the client sent it, else a fresh one.
unfoldable pub catch_exception :
    Bool → (ℕ → Option String) → String → Option String → Exception → ErrorResponse
catch_exception is_production status_name random_uuid header (domain (internal m) details) =
    unexpected_response is_production (or_else header random_uuid) m
catch_exception is_production status_name random_uuid header (domain e details) =
    domain_response (or_else header random_uuid) e details
catch_exception is_production status_name random_uuid header (http e) =
    http_response status_name (or_else header random_uuid) e
catch_exception is_production status_name random_uuid header (unexpected m) =
    unexpected_response is_production (or_else header random_uuid) m

-- What `safeParse` of a schema returns.
pub data Parsed (A : Type 0) : Type 0 where
  success : A → Parsed A
  failure : Json → Parsed A

pub data Outcome (A : Type 0) : Type 0 where
  returned : A → Outcome A
  thrown : Exception → Outcome A

-- `transform`, with the schema's `safeParse` and `error.flatten()` as a parameter.
unfoldable pub transform : {V A : Type 0} → (V → Parsed A) → V → Outcome A
transform safe_parse value = elim (safe_parse value) [
  | success data_value ↦ returned data_value
  | failure flattened ↦ thrown (
      http (record {
        status = 400;
        message = "Bad Request Exception";
        enriched = some (record {
          code = some "VALIDATION_ERROR";
          message = some "Donnees invalides.";
          details = some flattened;
        });
      }))
]
