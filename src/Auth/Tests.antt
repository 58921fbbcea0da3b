-- ===== src/Auth/Tests.antt =====
-- The credentials code on concrete inputs.
use Prim.Native.Nat.{min}
use mathlib.Core.Bool.{false≢true}
use docker_faas.Base.{
  ℕ, ◌+◌, String, ◌≡◌, refl, ◌≢◌, ◌↔◌, ◌⊎◌, true, none, some, List, [], ◌∷◌, arith, eq_iff,
  contains, nat_eq, string_eq, bool_eq,
}
use docker_faas.Base.Int.{pos}
use docker_faas.Base.Assoc.{lookup}
use docker_faas.Base.Text.{trim_space, equal_fold, cut}
use docker_faas.Auth.Manager.{new_manager, validate}
use docker_faas.Auth.Manager.History.{
  Call, issued, validated, revoked, run, grants, Ordered, standing, validate-run,
}
use docker_faas.Auth.Limiter.{Limiter, new_limiter, current, allow}
use docker_faas.Auth.Limiter.Window.{Event, failed, succeeded, granted, made, Within, granted-limit}
use docker_faas.Auth.Gate.{Request, Gate, next, unauthorized, bearer_token, refuse, middleware}
use docker_faas.Auth.Gate.Access.{
  IsPublic, HasCredentials, middleware-next_iff, Refused, middleware-Refused,
}
use docker_faas.Auth.Cors.{cors}
use docker_faas.Auth.Cors.Origins.{cors_origin}

abbrev door : Gate
door = record {
  username = "admin";
  password = "secret";
  enabled = true;
  require_function_auth = true;
  rate_limiter = new_limiter (pos 1) (pos 60);
  token_manager = some (new_manager (pos 100));
}

abbrev stranger : Request
stranger = record {
  path = "/system/functions";
  authorization = "Bearer nothing";
  forwarded_for = "10.0.0.1, 10.0.0.2";
  remote_addr = "127.0.0.1:80";
  remote_host = some "127.0.0.1";
  basic_auth = none;
}

abbrev visitor : Request
visitor = record stranger { authorization = ""; basic_auth = some ("admin", "secret") }

middleware-next_iff_example :
    ((middleware 5 6 visitor door).0 ≡ next)
    ↔ (IsPublic visitor door ⊎ HasCredentials 5 visitor door)
middleware-next_iff_example = middleware-next_iff 5 6 visitor door

visitor_served : (middleware 5 6 visitor door).0 ≡ next
unfolding middleware bearer_token
visitor_served = refl

stranger_unauthorized : (middleware 5 6 stranger door).0 ≡ unauthorized
unfolding middleware bearer_token cut equal_fold trim_space validate lookup new_manager refuse allow
    new_limiter
stranger_unauthorized = refl

stranger_refused : (middleware 5 6 stranger door).0 ≢ next
stranger_refused h = cc stranger_unauthorized

middleware-Refused_example : Refused 5 6 stranger door.rate_limiter (middleware 5 6 stranger door)
middleware-Refused_example = middleware-Refused 5 6 stranger door stranger_refused

abbrev calls : List (ℕ × Call)
calls = (1, issued "t" "ann") ∷ (2, validated "t") ∷ (3, issued "u" "bob") ∷ (4, revoked "u") ∷ []

calls-Ordered : Ordered 0 calls 50
calls-Ordered = (omega arith, (omega arith, (omega arith, (omega arith, omega arith))))

abbrev token : String
token = "t"

abbrev nothing : String
nothing = ""

named : token ≢ nothing
named h = false≢true ((eq_iff token nothing).1 h)

validate-run_example :
    (validate 50 "t" (run calls (new_manager (pos 100)))).0
    ≡ standing 50 (grants (new_manager (pos 100)).ttl calls (λ k. none) "t")
validate-run_example = validate-run (pos 100) calls 50 "t" calls-Ordered named

abbrev limiter : Limiter
limiter = record { limit = 1; window = 60; bucket = [] }

abbrev events : List Event
events = succeeded "other" ∷ failed "a" 20 21 ∷ failed "b" 30 31 ∷ failed "a" 40 41 ∷ []

fresh : current 10 limiter.window (lookup "a" limiter.bucket) ≡ none
unfolding current lookup
fresh = refl

abbrev other : String
other = "other"

abbrev key : String
key = "a"

apart : other ≢ key
apart h = false≢true ((eq_iff other key).1 h)

within : Within "a" (10 + limiter.window) events
within = (apart, (omega arith, (omega arith, (omega arith, tt))))

granted-limit_example :
    granted "a" (failed "a" 10 11 ∷ events) (some limiter)
    ≡ min limiter.limit (made "a" (failed "a" 10 11 ∷ events))
granted-limit_example = granted-limit "a" 10 11 events limiter fresh within

abbrev site : String
site = "https://b.example"

abbrev star : String
star = "*"

abbrev sites : List String
sites = "https://a.example" ∷ "https://b.example" ∷ []

allowed : (cors sites "GET" "https://b.example").1.allow_origin ≡ some "https://b.example"
unfolding cors
allowed = refl

cors_origin_example :
    ((site ≡ site) × ((contains sites site ≡ true) ⊎ (contains sites "*" ≡ true)))
    ⊎ ((site ≡ star) × (site ≡ nothing) × (sites ≡ "*" ∷ []))
cors_origin_example = cors_origin sites "GET" site site allowed
