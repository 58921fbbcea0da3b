-- ===== src/Auth/Gate.antt =====
-- pkg/middleware/auth.go, and `clientKey` of rate_limiter.go. What net/http has parsed of the request
-- is a record; the answer is the next handler's turn, or a status with the seconds to wait.
pub mod Access
use docker_faas.Base.{
  ℕ, ◌/◌, ◌^◌, String, Bool, not, ◌&&◌, ◌||◌, Option, none, some, if◌then◌else◌, ◌==◌, nat_eq,
  string_eq, bool_eq,
}
use docker_faas.Base.Int.{ℤ, pos, negsuc, int_eq}
use docker_faas.Base.Text.{codes, trim_space, has_prefix, equal_fold, cut, first_field}
use docker_faas.Auth.Manager.{Manager, validate}
use docker_faas.Auth.Limiter.{Limiter, allow, reset}

-- `remote_host` is the host that `net.SplitHostPort` finds in `remote_addr`, and `basic_auth` what
-- `r.BasicAuth` finds. An absent header is the empty text.
pub record Request : Type 0 where
  pub path : String
  pub authorization : String
  pub forwarded_for : String
  pub remote_addr : String
  pub remote_host : Option String
  pub basic_auth : Option (String × String)

-- `BasicAuthMiddleware` with the objects that it shares
pub record Gate : Type 0 where
  pub username : String
  pub password : String
  pub enabled : Bool
  pub require_function_auth : Bool
  pub rate_limiter : Option Limiter
  pub token_manager : Option Manager

pub data Answer : Type 0 where
  next : Answer
  unauthorized : Answer
  too_many_requests : Option ℕ → Answer

remote_key : Option String → String → String
remote_key none addr = addr
remote_key (some host) addr = if host == "" then addr else host

unfoldable pub client_key : Request → String
unfolding remote_key
client_key r =
    if r.forwarded_for == ""
    then remote_key r.remote_host r.remote_addr
    else trim_space (first_field b',' r.forwarded_for)

token_of : Option (String × String) → String
token_of none = ""
token_of (some (scheme, rest)) = if equal_fold scheme "Bearer" then trim_space rest else ""

unfoldable pub bearer_token : String → String
unfolding token_of
bearer_token header = if header == "" then "" else token_of (cut b' ' header)

-- `if retryAfter > 0 { ... int64(retryAfter.Seconds()) }`
retry_header : ℤ → Option ℕ
retry_header (pos n) = if n == 0 then none else some (n / 10 ^ 9)
retry_header (negsuc n) = none

-- A failed check: `allow`, then 429 or 401.
unfoldable pub refuse : ℕ → ℕ → Request → Gate → Answer × Gate
unfolding retry_header
refuse now later r g =
    let ((allowed, retry), limiter) = allow now later (client_key r) g.rate_limiter in
    (
      (if allowed then unauthorized else too_many_requests (retry_header retry)),
      record g { rate_limiter = limiter },
    )

-- A passed check: `reset`, then the next handler.
pass : Request → Gate → Answer × Gate
pass r g = (next, record g { rate_limiter = reset (client_key r) g.rate_limiter })

check_token : ℕ → ℕ → Request → Gate → Option String × Manager → Answer × Gate
unfolding pass
check_token now later r g (some user, m) = pass r (record g { token_manager = some m })
check_token now later r g (none, m) = refuse now later r (record g { token_manager = some m })

check_password : ℕ → ℕ → Request → Gate → Option (String × String) → Answer × Gate
unfolding pass
check_password now later r g none = refuse now later r g
check_password now later r g (some (username, password)) =
    if not (username == g.username) || not (password == g.password)
    then refuse now later r g
    else pass r g

check_credentials : ℕ → ℕ → Request → Gate → Option Manager → Answer × Gate
unfolding check_token check_password
check_credentials now later r g none = check_password now later r g r.basic_auth
check_credentials now later r g (some m) =
    let token = bearer_token r.authorization in
    if token == ""
    then check_password now later r g r.basic_auth
    else check_token now later r g (validate now token m)

unfoldable pub middleware : ℕ → ℕ → Request → Gate → Answer × Gate
unfolding check_credentials
middleware now later r g =
    if not g.enabled
    then (next, g)
    else if r.path == "/healthz"
    then (next, g)
    else if r.path == "/auth/login"
    then (next, g)
    else if not g.require_function_auth && has_prefix (codes r.path) (codes "/function/")
    then (next, g)
    else check_credentials now later r g g.token_manager
