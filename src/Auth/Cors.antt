-- ===== src/Auth/Cors.antt =====
-- pkg/middleware/cors.go: the headers of every answer, and the answer to a preflight request.
pub mod Origins
use docker_faas.Base.{
  ◌*◌, String, Bool, true, false, not, ◌&&◌, ◌||◌, Option, none, some, List, [], ◌∷◌, if◌then◌else◌,
  ◌==◌, nat_eq, string_eq, bool_eq,
}

-- Headers of the response that the middleware writes; the other four are constant.
pub record Headers : Type 0 where
  pub allow_origin : Option String
  pub allow_methods : String
  pub allow_headers : String
  pub allow_credentials : String
  pub max_age : String

-- `204 No Content`, or the next handler's turn.
pub data Next : Type 0 where
  no_content serve : Next

unfoldable pub is_origin_allowed : List String → String → Bool
is_origin_allowed [] origin = false
is_origin_allowed (allowed ∷ rest) origin =
    let found = is_origin_allowed rest origin in
    if allowed == "*" || allowed == origin then true else found

-- `len(m.allowedOrigins) == 1 && m.allowedOrigins[0] == "*"`
is_wildcard : List String → Bool
is_wildcard (allowed ∷ []) = allowed == "*"
is_wildcard _ = false

unfoldable pub origin_header : List String → String → Option String
unfolding is_origin_allowed is_wildcard
origin_header allowed_origins origin =
    if not (origin == "") && is_origin_allowed allowed_origins origin
    then some origin
    else if is_wildcard allowed_origins
    then some "*"
    else none

unfoldable pub cors : List String → (method origin : String) → Next × Headers
unfolding origin_header
cors allowed_origins method origin = (
  (if method == "OPTIONS" then no_content else serve),
  record {
    allow_origin = origin_header allowed_origins origin;
    allow_methods = "GET, POST, PUT, DELETE, OPTIONS, PATCH";
    allow_headers = "Content-Type, Authorization, X-Requested-With";
    allow_credentials = "true";
    max_age = "3600";
  },
)
