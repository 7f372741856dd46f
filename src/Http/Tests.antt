-- ===== src/Http/Tests.antt =====
-- A form posted from the shop's own page, through the middlewares of apps/api/src/main.ts.
use text.Mathlib.Text.{◌==◌ as str_eq}
use savemycontrollers.Http.Exceptions.{
  Parsed, failure, transform, thrown, Exception, catch_exception,
}
use savemycontrollers.Http.Middlewares.{Request, gate, includes, mutating_methods}
use savemycontrollers.Http.Requests.{gate-routed, transform-refused}
use savemycontrollers.Prelude.{String, Bool, true, false, none, some, [], ◌∷◌, ◌≡◌, refl}

-- An attacker's text stands in the header of the correlation identifier.
abbrev posted : Request
posted = record {
  method = "POST";
  path = "/auth/login";
  origin = some "https://shop";
  referer = none;
  correlation_header = some "' OR 1=1";
}

abbrev accepts_posts : Request → Bool
accepts_posts r = str_eq r.method "POST"

abbrev is_test_uuid : String → Bool
is_test_uuid t = str_eq t "550e8400"

gate-routed_example :
    (accepts_posts posted ≡ true)
    × (is_test_uuid "550e8400" ≡ true)
    × ((origin : String)
        → posted.origin ≡ some origin
        → str_eq origin "" ≡ false
        → includes mutating_methods posted.method ≡ true
        → includes ("https://shop" ∷ []) origin ≡ true)
unfolding gate
gate-routed_example =
    gate-routed accepts_posts is_test_uuid (λ t. none) ("https://shop" ∷ []) "550e8400" "other"
      posted "550e8400" true refl refl

abbrev needs_text : String → Parsed String
needs_text t = failure "{\"formErrors\":[]}"

transform-refused_run :
    (e : Exception) × (transform needs_text "" ≡ thrown e)
    × (catch_exception true (λ status. none) "550e8400" none e ≡ record {
      status = 400;
      code = "VALIDATION_ERROR";
      message = "Donnees invalides.";
      correlation_id = "550e8400";
      details = some "{\"formErrors\":[]}";
      debug_detail = none;
    })
transform-refused_run =
    transform-refused needs_text "" "{\"formErrors\":[]}" true (λ status. none) "550e8400" none refl
