-- ===== src/Auth/Login/Issued.antt =====
-- A token that a login answers is valid until it expires or is revoked.
use docker_faas.Base.{
  ℕ, ◌+◌, ◌≤◌, String, ◌≡◌, refl, ap, ◌∙◌, ◌≢◌, ◌⊎◌, inl, inr, true, false, none, some, arith,
  eq_iff, ltb, ◌==◌, Bool-cases, ok, nat_eq, string_eq, bool_eq,
}
use docker_faas.Base.Assoc.{lookup, erase, lookup-erase}
use docker_faas.Base.Text.{trim_space}
use docker_faas.Auth.Manager.{Manager, issue, validate, revoke}
use docker_faas.Auth.Login.{LoginRequest, LoginGate, granted, LoginAnswer, handle_login}

same_text_true : (t : String) → (t == t) ≡ true
same_text_true t = (eq_iff t t).1 refl

not_empty : (t : String) → t ≢ "" → (t == "") ≡ false
not_empty t h = elim (Bool-cases (t == "")) [ inl e ↦ absurd (h ((eq_iff t "").0 e)) | inr e ↦ e ]

validate-issue :
    (token user : String) (now later : ℕ) (m : Manager)
    → (token == "") ≡ false
    → later ≤ now + m.ttl
    → (validate later token (issue (ok token) now user m).1).0 ≡ some user
unfolding validate issue lookup
validate-issue token user now later m e h =
    let alive : ltb (now + m.ttl) later ≡ false = ground arith in
    rw (e, same_text_true token, alive) refl

validate-revoke :
    (token : String) (later : ℕ) (m : Manager)
    → (token == "") ≡ false
    → (validate later token (revoke token m)).0 ≡ none
unfolding validate revoke
validate-revoke token later m e =
    let gone : lookup token (erase token m.tokens) ≡ none =
      rw (lookup-erase token token m.tokens, same_text_true token) refl in
    rw (e, gone) refl

-- The request carried the credentials, and the token names their user until it expires; once it is
-- revoked it names nobody.
abbrev pub TokenGranted :
    String → ℕ → LoginRequest → LoginGate → Manager → LoginAnswer × LoginGate → Type 0
TokenGranted token now req g m out =
    (trim_space req.username ≡ g.auth_user)
    × (req.password ≡ g.auth_pass)
    × (out.0.body ≡ granted token (now + m.ttl))
    × ((m' : Manager) × (out.1.auth_mgr ≡ some m')
        × ((later : ℕ) → later ≤ now + m.ttl → (validate later token m').0 ≡ some g.auth_user)
        × ((later : ℕ) → (validate later token (revoke token m')).0 ≡ none))

-- A login with a new token that is not empty is answered 200 exactly if the name, without the space
-- around it, and the password are the gateway's. Then the token of the answer names the user until it
-- expires, and nobody once it is revoked. With any other answer no token is issued.
pub handle_login_lem :
    (token : String) (now : ℕ) (g : LoginGate) (m : Manager) (req : LoginRequest)
    → g.auth_mgr ≡ some m
    → token ≢ ""
    → ((handle_login (ok token) now (some req) g).0.status ≡ 200)
        × TokenGranted token now req g m (handle_login (ok token) now (some req) g)
      ⊎ ((handle_login (ok token) now (some req) g).0.status ≡ 401)
        × ¬ ((trim_space req.username ≡ g.auth_user) × (req.password ≡ g.auth_pass))
        × ((handle_login (ok token) now (some req) g).1 ≡ g)
unfolding handle_login issue
handle_login_lem token now g m req h n =
    let user = trim_space req.username in
    let granted_m = (issue (ok token) now user m).1 in
    let named = eq_iff user g.auth_user in
    let secret = eq_iff req.password g.auth_pass in
    let filled = not_empty token n in
    elim (Bool-cases (user == g.auth_user)) [
      | inr a ↦ rw (h, a) (inr (refl, (λ (q, r). cc (rw (named.1 q) at a)), refl))
      | inl a ↦ elim (Bool-cases (req.password == g.auth_pass)) [
        | inr b ↦ rw (h, a, b) (inr (refl, (λ (q, r). cc (rw (secret.1 r) at b)), refl))
        | inl b ↦
            rw (h, a, b)
              (inl (
                refl,
                (
                  named.0 a,
                  secret.0 b,
                  refl,
                  (
                    granted_m,
                    refl,
                    (λ later k.
                        validate-issue token user now later m filled k ∙ ap some (named.0 a)),
                    λ later. validate-revoke token later granted_m filled,
                  ),
                ),
              ))
      ]
    ]
