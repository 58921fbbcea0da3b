-- ===== src/Auth/Login/Tests.antt =====
-- A login and a logout on a concrete gate.
use docker_faas.Base.{◌≡◌, refl, ◌⊎◌, none, some, [], ok}
use docker_faas.Base.Text.{trim_space, equal_fold, cut}
use docker_faas.Auth.Manager.{Manager, issue}
use docker_faas.Auth.Gate.{bearer_token}
use docker_faas.Auth.Login.Issued.{TokenGranted, handle_login_lem}
use docker_faas.Auth.Login.{LoginRequest, LoginGate, granted, handle_login, handle_logout}

abbrev no_tokens : Manager
no_tokens = record { ttl = 1800; tokens = [] }

abbrev gate : LoginGate
gate = record { auth_mgr = some no_tokens; auth_user = "admin"; auth_pass = "secret" }

abbrev request : LoginRequest
request = record { username = " admin"; password = "secret" }

logged_in :
    ((handle_login (ok "t1") 5 (some request) gate).0.body ≡ granted "t1" 1805)
    × ((handle_login (ok "t1") 5 none gate).0.status ≡ 400)
unfolding handle_login trim_space issue
logged_in = (refl, refl)

logged_out : (handle_logout "Bearer t1" gate).0.status ≡ 204
unfolding handle_logout bearer_token cut trim_space equal_fold
logged_out = refl

handle_login_lem_example :
    ((handle_login (ok "t1") 5 (some request) gate).0.status ≡ 200)
      × TokenGranted "t1" 5 request gate no_tokens (handle_login (ok "t1") 5 (some request) gate)
    ⊎ ((handle_login (ok "t1") 5 (some request) gate).0.status ≡ 401)
      × ¬ ((trim_space request.username ≡ gate.auth_user) × (request.password ≡ gate.auth_pass))
      × ((handle_login (ok "t1") 5 (some request) gate).1 ≡ gate)
handle_login_lem_example = handle_login_lem "t1" 5 gate no_tokens request refl (λ e. cc)
