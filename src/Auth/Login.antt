-- ===== src/Auth/Login.antt =====
-- `HandleLogin` and `HandleLogout` of pkg/gateway/auth_handlers.go over the token manager. The body of a
-- request is what the JSON decoder makes of it; the time of expiry stands for its text.
pub mod Issued
pub mod Tests
use docker_faas.Base.{
  ℕ, String, Bool, not, ◌&&◌, Option, none, some, if◌then◌else◌, ◌==◌, Result, ok, err, nat_eq,
  string_eq, bool_eq,
}
use docker_faas.Base.Text.{trim_space}
use docker_faas.Auth.Manager.{Manager, issue, revoke}
use docker_faas.Auth.Gate.{bearer_token}

pub record LoginRequest : Type 0 where
  pub username : String
  pub password : String

-- The fields of the gateway that `SetAuth` sets; a gateway without a manager has `none`.
pub record LoginGate : Type 0 where
  pub auth_mgr : Option Manager
  pub auth_user : String
  pub auth_pass : String

-- The token with its time of expiry, or a text
pub data LoginBody : Type 0 where
  granted : String → ℕ → LoginBody
  message : String → LoginBody

pub record LoginAnswer : Type 0 where
  pub status : ℕ
  pub body : LoginBody

abbrev pub login_error : ℕ → String → LoginAnswer
login_error status text = record { status = status; body = message text }

abbrev pub issue_answer : Result (String × ℕ) → LoginAnswer
issue_answer (ok t) = record { status = 200; body = granted t.0 t.1 }
issue_answer (err e) = login_error 500 "failed to issue token"

-- Both comparisons are done.
abbrev pub are_credentials : LoginGate → LoginRequest → Bool
are_credentials g req = (trim_space req.username == g.auth_user) && (req.password == g.auth_pass)

-- The request with the name trimmed, checked against the credentials
unfoldable pub login_with :
    Result String → ℕ → LoginGate → Manager → LoginRequest → LoginAnswer × LoginGate
login_with token now g m req =
    let out = issue token now (trim_space req.username) m in
    if are_credentials g req
    then (issue_answer out.0, record g { auth_mgr = some out.1 })
    else (login_error 401 "invalid credentials", g)

-- `token` is the text that the random source gives for a new token, or its error.
unfoldable pub handle_login :
    Result String → ℕ → Option LoginRequest → LoginGate → LoginAnswer × LoginGate
unfolding login_with
handle_login token now body g = elim g.auth_mgr [
  | none ↦ (login_error 503 "auth manager not configured", g)
  | some m ↦ elim body [
    | none ↦ (login_error 400 "invalid JSON body", g)
    | some req ↦ login_with token now g m req
  ]
]

-- The argument is the header `Authorization`; the answer 204 has no body.
unfoldable pub handle_logout : String → LoginGate → LoginAnswer × LoginGate
handle_logout authorization g = elim g.auth_mgr [
  | none ↦ (login_error 503 "auth manager not configured", g)
  | some m ↦
      let token = bearer_token authorization in
      if token == ""
      then (login_error 401 "missing token", g)
      else (login_error 204 "", record g { auth_mgr = some (revoke token m) })
]
