-- ===== src/Http/Middlewares.antt =====
-- apps/api/src/modules/core/http/correlation-id.middleware.ts,
-- apps/api/src/modules/core/security/origin-check.middleware.ts, and the middlewares that
-- apps/api/src/main.ts puts before the routes, in their order.
use text.Mathlib.Text.{◌==◌ as str_eq, starts_with}
use savemycontrollers.Http.Exceptions.{ErrorResponse}
use savemycontrollers.Prelude.{
  String, Bool, true, Option, none, some, List, [], ◌∷◌, ◌&&◌, ◌||◌, not, any, or_else,
  if◌then◌else◌,
}

-- What the middlewares read of a request. Node joins the values of a header that comes several
-- times into one text, so that no header is an array here.
pub record Request : Type 0 where
  pub method : String
  pub path : String
  pub origin : Option String
  pub referer : Option String
  pub correlation_header : Option String

abbrev pub includes : List String → String → Bool
includes texts t = any (λ u. str_eq u t) texts

-- `correlationIdMiddleware`: the identifier that it resolves. `is_uuid` is the test of UUID_PATTERN.
unfoldable pub correlation_id : (String → Bool) → String → Request → String
correlation_id is_uuid random_uuid r = elim r.correlation_header [
  | none ↦ random_uuid
  | some candidate ↦
      if not (str_eq candidate "") && is_uuid candidate then candidate else random_uuid
]

abbrev pub mutating_methods : List String
mutating_methods = "POST" ∷ "PUT" ∷ "PATCH" ∷ "DELETE" ∷ []

-- `new URL(referer).origin`, which may throw, is a parameter.
abbrev pub extract_origin : (String → Option String) → Option String → Option String
extract_origin url_origin none = none
extract_origin url_origin (some referer) = if str_eq referer "" then none else url_origin referer

abbrev pub origin_of : (String → Option String) → Request → Option String
origin_of url_origin r = elim r.origin [
  | none ↦ extract_origin url_origin r.referer
  | some origin ↦ some origin
]

-- The middleware of `createOriginCheckMiddleware`: false stands for the exception 403.
unfoldable pub passes_origin_check : (String → Option String) → List String → Request → Bool
passes_origin_check url_origin allowed r =
    if not (includes mutating_methods r.method) then true else elim (origin_of url_origin r) [
      | none ↦ true
      | some origin ↦ if str_eq origin "" then true else includes allowed origin
    ]

-- What becomes of a request before the routes of NestJS.
pub data Gate : Type 0 where
  refused_origin : Gate
  refused_csrf : ErrorResponse → Gate
  -- The request goes on, with its identifier and whether the answer may not be cached.
  routed : String → Bool → Gate

abbrev pub no_store : Request → Bool
no_store r = starts_with r.path "/auth" || str_eq r.path "/csrf-token"

-- The handler of EBADCSRFTOKEN reads the header again, not the identifier of the middleware.
abbrev pub csrf_response : String → Request → ErrorResponse
csrf_response random_uuid r = record {
  status = 403;
  code = "CSRF_TOKEN_INVALID";
  message = "Jeton CSRF manquant ou invalide.";
  correlation_id = or_else r.correlation_header random_uuid;
  details = none;
  debug_detail = none;
}

module _
    -- `doubleCsrfProtection` of csrf-csrf: whether it lets the request pass.
    (csrf_accepts : Request → Bool) (is_uuid : String → Bool)
    (url_origin : String → Option String) where
  -- The order of main.ts; the two texts are the identifiers that the two places draw.
  unfoldable pub gate : List String → String → String → Request → Gate
  unfolding passes_origin_check correlation_id
  gate allowed random_uuid csrf_uuid r =
      if not (passes_origin_check url_origin allowed r)
      then refused_origin
      else if not (csrf_accepts r)
      then refused_csrf (csrf_response csrf_uuid r)
      else routed (correlation_id is_uuid random_uuid r) (no_store r)
