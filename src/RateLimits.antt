-- ===== src/RateLimits.antt =====
-- The rate limits: packages/queue/src/rate-limiter.ts and
-- apps/api/src/modules/core/security/redis-rate-limit.guard.ts. Redis is a parameter.
pub mod Store
pub mod Windows
pub mod Refinement
pub mod Counts
mod Tests
use Prim.Native.String.{◌++◌}
use text.Mathlib.Text.{◌==◌ as str_eq}
use savemycontrollers.RateLimits.Store.{Redis}
use savemycontrollers.Prelude.{
  ℕ, String, Instant, Bool, true, false, Option, none, some, List, [], ◌∷◌, ◌==◌, leb, map, or_else,
  if◌then◌else◌,
}

pub record RateLimitResult : Type 0 where
  pub allowed : Bool
  pub current : ℕ
  pub limit : ℕ
  pub window_seconds : ℕ

-- `dimensions.join(":")`
abbrev join_colon : List String → String
join_colon [] = ""
join_colon (d ∷ []) = d
join_colon (d ∷ e ∷ ds) = d ++ ":" ++ join_colon (e ∷ ds)

-- `d.toLowerCase().trim()`, whose tables of letters are those of the runtime; of an email, the two
-- calls come in the other order, which gives the same text.
module _ (lower_and_trim : String → String) where
  unfoldable pub rate_limit_key : String → List String → String
  rate_limit_key scope dimensions =
      "ratelimit:" ++ scope ++ ":" ++ join_colon (map lower_and_trim dimensions)

module _ {S : Type 0} (redis : Redis S) where
  -- The script: INCR, and EXPIRE where the counter is new. Redis runs it as one step.
  unfoldable pub incr_with_ttl : Instant → String → ℕ → S → ℕ × S
  incr_with_ttl now key seconds s =
      let (current, s') = redis.incr now key s in
      (current, if current == 1 then redis.expire now key seconds s' else s')

  unfoldable pub check_and_increment : Instant → String → ℕ → ℕ → S → RateLimitResult × S
  unfolding incr_with_ttl
  check_and_increment now key limit seconds s =
      let (current, s') = incr_with_ttl now key seconds s in
      (
        record {
          allowed = leb current limit;
          current = current;
          limit = limit;
          window_seconds = seconds;
        },
        s',
      )

  abbrev pub reset : String → S → S
  reset key s = redis.del key s

pub record RateLimitOptions : Type 0 where
  pub limit : ℕ
  pub window_seconds : ℕ
  pub by_email : Bool

-- What the guard reads of a request: `request.route?.path` and the email of the body may miss.
pub record RateLimitedRequest : Type 0 where
  pub method : String
  pub route_path : Option String
  pub path : String
  pub ip : Option String
  pub email : Option String

-- `if (email) dimensions.push(normalizeEmailForRateLimit(email))`: the empty text is left out.
abbrev email_dimension : (String → String) → Bool → Option String → List String
email_dimension lower_and_trim false email = []
email_dimension lower_and_trim true none = []
email_dimension lower_and_trim true (some email) =
    if str_eq email "" then [] else lower_and_trim email ∷ []

abbrev pub dimensions_of : (String → String) → Bool → RateLimitedRequest → List String
dimensions_of lower_and_trim by_email request =
    (request.method ++ ":" ++ or_else request.route_path request.path)
    ∷ or_else request.ip "unknown"
    ∷ email_dimension lower_and_trim by_email request.email

-- `canActivate`: false stands for the exception 429. A route without options is not limited.
unfoldable pub rate_limit_can_activate :
    {S : Type 0}
    → Redis S
    → (String → String)
    → Instant
    → Option RateLimitOptions
    → RateLimitedRequest
    → S
    → Bool × S
unfolding check_and_increment rate_limit_key
rate_limit_can_activate redis lower_and_trim now none request s = (true, s)
rate_limit_can_activate redis lower_and_trim now (some options) request s =
    let dimensions = dimensions_of lower_and_trim options.by_email request in
    let (result, s') =
      check_and_increment redis now (rate_limit_key lower_and_trim "http" dimensions) options.limit
        options.window_seconds s in
    (result.allowed, s')
