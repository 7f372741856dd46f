-- ===== src/Http/Requests.antt =====
-- What reaches the routes behind the middlewares of apps/api/src/main.ts, and how
-- apps/api/src/modules/core/http answers a body that a schema refuses.
use text.Mathlib.Text.{◌==◌ as str_eq}
use savemycontrollers.Http.Exceptions.{
  Json, Parsed, failure, thrown, Exception, catch_exception, transform,
}
use savemycontrollers.Http.Middlewares.{
  Request, routed, gate, includes, mutating_methods, passes_origin_check, correlation_id,
}
use savemycontrollers.Prelude.{
  ℕ, String, Bool, true, false, Option, none, some, List, ◌≡◌, refl, arith, or_else, inl, inr,
  Option-cases, Bool-cases,
}

correlation_id-is_uuid :
    (is_uuid : String → Bool) (random_uuid : String) (r : Request)
    → is_uuid random_uuid ≡ true
    → is_uuid (correlation_id is_uuid random_uuid r) ≡ true
unfolding correlation_id
correlation_id-is_uuid is_uuid random_uuid r h = elim (Option-cases r.correlation_header) [
  | inl absent ↦ ground arith
  | inr (candidate, e) ↦ elim (Bool-cases (is_uuid candidate)) [
    | inl good ↦ elim (Bool-cases (str_eq candidate "")) [
      | inl empty ↦ ground arith
      | inr text ↦ ground arith
    ]
    | inr bad ↦ ground arith
  ]
]

routed_when :
    (csrf_accepts : Request → Bool) (is_uuid : String → Bool) (url_origin : String → Option String)
    (allowed : List String) (random_uuid csrf_uuid : String) (r : Request) (resolved : String)
    (uncached : Bool)
    → gate csrf_accepts is_uuid url_origin allowed random_uuid csrf_uuid r
      ≡ routed resolved uncached
    → (csrf_accepts r ≡ true)
      × (passes_origin_check url_origin allowed r ≡ true)
      × (correlation_id is_uuid random_uuid r ≡ resolved)
unfolding gate
routed_when csrf_accepts is_uuid url_origin allowed random_uuid csrf_uuid r resolved uncached e =
    elim (Bool-cases (passes_origin_check url_origin allowed r)) [
      | inl passes ↦ elim (Bool-cases (csrf_accepts r)) [
        | inl accepted ↦ (accepted, passes, ground arith)
        | inr refused ↦ ground arith
      ]
      | inr refused ↦ ground arith
    ]

foreign_origin :
    (url_origin : String → Option String) (allowed : List String) (r : Request) (origin : String)
    → passes_origin_check url_origin allowed r ≡ true
    → r.origin ≡ some origin
    → str_eq origin "" ≡ false
    → includes mutating_methods r.method ≡ true
    → includes allowed origin ≡ true
unfolding passes_origin_check
foreign_origin url_origin allowed r origin passes at text changes = ground arith

-- A request that reaches the routes has passed the check of the CSRF token and carries a UUID as its
-- correlation identifier, whatever its header was; where it may change something and has an
-- Origin header that is not empty, that origin is one of those allowed.
pub gate-routed :
    (csrf_accepts : Request → Bool) (is_uuid : String → Bool) (url_origin : String → Option String)
    (allowed : List String) (random_uuid csrf_uuid : String) (r : Request) (resolved : String)
    (uncached : Bool)
    → is_uuid random_uuid ≡ true
    → gate csrf_accepts is_uuid url_origin allowed random_uuid csrf_uuid r
      ≡ routed resolved uncached
    → (csrf_accepts r ≡ true)
      × (is_uuid resolved ≡ true)
      × ((origin : String)
          → r.origin ≡ some origin
          → str_eq origin "" ≡ false
          → includes mutating_methods r.method ≡ true
          → includes allowed origin ≡ true)
gate-routed csrf_accepts is_uuid url_origin allowed random_uuid csrf_uuid r resolved uncached h e =
    let (accepted, passes, found) =
      routed_when csrf_accepts is_uuid url_origin allowed random_uuid csrf_uuid r resolved uncached
        e in
    (
      accepted,
      rw⁻¹ found (correlation_id-is_uuid is_uuid random_uuid r h),
      λ origin at text changes. foreign_origin url_origin allowed r origin passes at text changes,
    )

-- A body that the schema refuses never reaches the handler: it is answered 400 with the code
-- VALIDATION_ERROR and the details of the schema, in every environment.
pub transform-refused :
    {V A : Type 0} (safe_parse : V → Parsed A) (value : V) (flattened : Json) (is_production : Bool)
    (status_name : ℕ → Option String) (random_uuid : String) (header : Option String)
    → safe_parse value ≡ failure flattened
    → (e : Exception) × (transform safe_parse value ≡ thrown e)
      × (catch_exception is_production status_name random_uuid header e ≡ record {
        status = 400;
        code = "VALIDATION_ERROR";
        message = "Donnees invalides.";
        correlation_id = or_else header random_uuid;
        details = some flattened;
        debug_detail = none;
      })
unfolding transform catch_exception
transform-refused safe_parse value flattened is_production status_name random_uuid header h =
    rw (h, transform) (_, refl, refl)
