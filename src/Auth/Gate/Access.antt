-- ===== src/Auth/Gate/Access.antt =====
-- Which requests pass the check, and what the check leaves behind.
use docker_faas.Base.{
  ℕ, String, ◌≡◌, refl, ◌≢◌, ◌↔◌, ◌⊎◌, inl, inr, Bool, true, false, not, ◌&&◌, ◌||◌, Option, none,
  some, arith, eq_iff, if◌then◌else◌, ◌==◌, Bool-cases, nat_eq, string_eq, bool_eq,
}
use docker_faas.Base.Text.{codes, has_prefix}
use docker_faas.Auth.Manager.{Manager, validate}
use docker_faas.Auth.Limiter.{Limiter, allow}
use docker_faas.Auth.Gate.{
  Request, Gate, Answer, next, unauthorized, client_key, bearer_token, refuse, check_token,
  check_password, check_credentials, middleware,
}

-- The request needs no credentials.
pub data IsPublic (r : Request) (g : Gate) : Type 0 where
  disabled : g.enabled ≡ false → IsPublic r g
  health : r.path ≡ "/healthz" → IsPublic r g
  login : r.path ≡ "/auth/login" → IsPublic r g
  invoke :
      g.require_function_auth ≡ false
      → has_prefix (codes r.path) (codes "/function/") ≡ true
      → IsPublic r g

-- The request carries a token that the manager accepts now, or, where tokens do not count or
-- none is sent, the configured name and password.
pub data HasCredentials (now : ℕ) (r : Request) (g : Gate) : Type 0 where
  token :
      (m : Manager) (user : String)
      → g.token_manager ≡ some m
      → bearer_token r.authorization ≢ ""
      → (validate now (bearer_token r.authorization) m).0 ≡ some user
      → HasCredentials now r g
  password :
      ((g.token_manager ≡ none) ⊎ (bearer_token r.authorization ≡ ""))
      → r.basic_auth ≡ some (g.username, g.password)
      → HasCredentials now r g

refuse-ne-next : (now later : ℕ) (r : Request) (g : Gate) → (refuse now later r g).0 ≢ next
unfolding refuse
refuse-ne-next now later r g = ground arith

module _ (now later : ℕ) (r : Request) where
  check_password_iff :
      (g : Gate) (o : Option (String × String))
      → ((check_password now later r g o).0 ≡ next) ↔ (o ≡ some (g.username, g.password))
  unfolding check_password
  check_password_iff g none = (λ h. absurd (refuse-ne-next now later r g h), λ h. cc)
  check_password_iff g (some (u, p)) =
      ground (arith, eq_iff u g.username, eq_iff p g.password, refuse-ne-next now later r g)

  check_token_iff :
      (g : Gate) (v : Option String × Manager)
      → ((check_token now later r g v).0 ≡ next) ↔ ((user : String) × (v.0 ≡ some user))
  unfolding check_token
  check_token_iff g (some user, m) = (λ h. (user, refl), λ h. refl)
  check_token_iff g (none, m) = (λ h. absurd (refuse-ne-next now later r _ h), λ (user, e). cc)

  check_credentials_iff :
      (g : Gate) (o : Option Manager)
      → g.token_manager ≡ o
      → ((check_credentials now later r g o).0 ≡ next) ↔ HasCredentials now r g
  unfolding check_credentials
  check_credentials_iff g none e = (
    λ h. password (inl e) ((check_password_iff g r.basic_auth).0 h),
    λ c. (check_password_iff g r.basic_auth).1 (basic_of_none c),
  )
    where
      basic_of_none : HasCredentials now r g → r.basic_auth ≡ some (g.username, g.password)
      basic_of_none (token m user s ne v) = cc
      basic_of_none (password w b) = b
  check_credentials_iff g (some m) e = elim (Bool-cases (bearer_token r.authorization == "")) [
    | inl empty ↦ rw empty (
      λ h. password (inr ((eq_iff _ "").0 empty)) ((check_password_iff g r.basic_auth).0 h),
      λ c. (check_password_iff g r.basic_auth).1 (basic_of_empty empty c),
    )
    | inr sent ↦ rw sent (
      λ h.
          let (user, v) = (check_token_iff g _).0 h in
          token m user e (λ p. cc ((eq_iff _ "").1 p)) v,
      λ c. (check_token_iff g _).1 (user_of_sent sent c),
    )
  ]
    where
      basic_of_empty :
          (bearer_token r.authorization == "") ≡ true
          → HasCredentials now r g
          → r.basic_auth ≡ some (g.username, g.password)
      basic_of_empty empty (token m' user s ne v) = absurd (ne ((eq_iff _ "").0 empty))
      basic_of_empty empty (password w b) = b

      user_of_sent :
          (bearer_token r.authorization == "") ≡ false
          → HasCredentials now r g
          → (user : String) × ((validate now (bearer_token r.authorization) m).0 ≡ some user)
      user_of_sent sent (token m' user s ne v) = (user, cc)
      user_of_sent sent (password w b) = ground (arith, eq_iff (bearer_token r.authorization) "")

  -- A request is passed to the handler exactly if it needs no credentials or carries good ones.
  -- The state of the limiter does not matter.
  pub middleware-next_iff :
      (g : Gate) → ((middleware now later r g).0 ≡ next) ↔ (IsPublic r g ⊎ HasCredentials now r g)
  unfolding middleware
  middleware-next_iff g = (forward, back)
    where
      forward : (middleware now later r g).0 ≡ next → IsPublic r g ⊎ HasCredentials now r g
      forward h = elim (Bool-cases g.enabled) [
        | inr off ↦ inl (disabled off)
        | inl on ↦ elim (Bool-cases (r.path == "/healthz")) [
          | inl p ↦ inl (health ((eq_iff _ _).0 p))
          | inr p ↦ elim (Bool-cases (r.path == "/auth/login")) [
            | inl q ↦ inl (login ((eq_iff _ _).0 q))
            | inr q ↦
                elim (Bool-cases
                  (not g.require_function_auth && has_prefix (codes r.path) (codes "/function/"))) [
                    | inl s ↦ inl (invoke (ground arith) (ground arith))
                    | inr s ↦ inr ((check_credentials_iff g g.token_manager refl).0 (ground arith))
                  ]
          ]
        ]
      ]

      back : IsPublic r g ⊎ HasCredentials now r g → (middleware now later r g).0 ≡ next
      back (inl (disabled e)) = ground arith
      back (inl (health e)) = ground (arith, eq_iff r.path "/healthz")
      back (inl (login e)) = ground (arith, eq_iff r.path "/auth/login")
      back (inl (invoke e p)) = ground arith
      back (inr c) = ground (arith, (check_credentials_iff g g.token_manager refl).1 c)

-- The answer to a request that is not passed on, and the limiter after it.
pub record Refused (now later : ℕ) (r : Request) (before : Option Limiter) (out : Answer × Gate)
    : Type 0 where
  pub limiter : out.1.rate_limiter ≡ (allow now later (client_key r) before).1
  pub answer : (out.0 ≡ unauthorized) ↔ ((allow now later (client_key r) before).0.0 ≡ true)

module _ (now later : ℕ) (r : Request) where
  refuse-Refused : (g : Gate) → Refused now later r g.rate_limiter (refuse now later r g)
  unfolding refuse
  refuse-Refused g = record { limiter = refl; answer = ground arith }

  check_password-Refused :
      (g : Gate) (o : Option (String × String))
      → (check_password now later r g o).0 ≢ next
      → Refused now later r g.rate_limiter (check_password now later r g o)
  unfolding check_password
  check_password-Refused g none h = refuse-Refused g
  check_password-Refused g (some (u, p)) h =
      elim (Bool-cases (not (u == g.username) || not (p == g.password))) [
        | inl bad ↦ rw bad (refuse-Refused g)
        | inr good ↦ absurd (h (rw good refl))
      ]

  check_token-Refused :
      (g : Gate) (v : Option String × Manager)
      → (check_token now later r g v).0 ≢ next
      → Refused now later r g.rate_limiter (check_token now later r g v)
  unfolding check_token
  check_token-Refused g (some user, m) h = absurd (h refl)
  check_token-Refused g (none, m) h = refuse-Refused (record g { token_manager = some m })

  check_credentials-Refused :
      (g : Gate) (o : Option Manager)
      → (check_credentials now later r g o).0 ≢ next
      → Refused now later r g.rate_limiter (check_credentials now later r g o)
  unfolding check_credentials
  check_credentials-Refused g none h = check_password-Refused g r.basic_auth h
  check_credentials-Refused g (some m) h = elim (Bool-cases (bearer_token r.authorization == "")) [
    | inl e ↦ rw e (check_password-Refused g r.basic_auth (λ n. h (rw e n)))
    | inr e ↦ rw e (check_token-Refused g _ (λ n. h (rw e n)))
  ]

  open_path : Request → Gate → Bool
  open_path q g =
      q.path == "/healthz"
      || q.path == "/auth/login"
      || not g.enabled
      || (not g.require_function_auth && has_prefix (codes q.path) (codes "/function/"))

  middleware_of_open :
      (g : Gate)
      → middleware now later r g
        ≡ (if open_path r g then (next, g) else check_credentials now later r g g.token_manager)
  unfolding middleware open_path
  middleware_of_open g = ground arith

  -- A request that is not passed on has used one attempt of its client in the limiter, and is
  -- answered 401 exactly if the limiter allowed the attempt, and 429 otherwise.
  pub middleware-Refused :
      (g : Gate)
      → (middleware now later r g).0 ≢ next
      → Refused now later r g.rate_limiter (middleware now later r g)
  middleware-Refused g h = elim (Bool-cases (open_path r g)) [
    | inl e ↦ absurd (h (rw (middleware_of_open g, e) refl))
    | inr e ↦
        rw (middleware_of_open g, e)
          (check_credentials-Refused g g.token_manager (λ n. h (rw (middleware_of_open g, e) n)))
  ]
