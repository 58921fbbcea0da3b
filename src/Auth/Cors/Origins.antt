-- ===== src/Auth/Cors/Origins.antt =====
-- Which origins a browser is told to trust.
use docker_faas.Base.{
  String, ◌≡◌, refl, ap, ◌⊎◌, true, ◌||◌, some, List, [], ◌∷◌, arith, eq_iff, contains, nat_eq,
  string_eq, bool_eq,
}
use docker_faas.Auth.Cors.{is_origin_allowed, is_wildcard, cors}

-- An origin is allowed if it or "*" stands in the configured list.
is_origin_allowed_lem :
    (os : List String) (o : String) → is_origin_allowed os o ≡ (contains os "*" || contains os o)
unfolding is_origin_allowed contains
is_origin_allowed_lem [] o = refl
is_origin_allowed_lem (a ∷ os) o = ground (arith, is_origin_allowed_lem os o)

is_wildcard_lem :
    (os : List String) (o : String)
    → is_wildcard os ≡ true
    → (os ≡ "*" ∷ []) × (is_origin_allowed os o ≡ true)
unfolding is_wildcard is_origin_allowed
is_wildcard_lem [] o h = cc
is_wildcard_lem (a ∷ []) o h =
    let e : a ≡ "*" = (eq_iff a "*").0 h in (ap (λ b. b ∷ []) e, ground arith)
is_wildcard_lem (a ∷ b ∷ os) o h = cc

-- The answer names the request's own origin only if that origin or "*" is configured, and names "*"
-- otherwise only if "*" is all that is configured and the request has no origin.
pub cors_origin :
    (os : List String) (method origin x : String)
    → (cors os method origin).1.allow_origin ≡ some x
    → ((x ≡ origin) × ((contains os origin ≡ true) ⊎ (contains os "*" ≡ true)))
      ⊎ ((x ≡ "*") × (origin ≡ "") × (os ≡ "*" ∷ []))
unfolding cors
cors_origin os method origin x h =
    ground (arith, eq_iff origin "", is_origin_allowed_lem os origin, is_wildcard_lem os origin)
