-- ===== src/Gateway/Deploy/Checked.antt =====
-- What the check of a name ends in.
use docker_faas.Base.{
  String, ◌≡◌, refl, ◌⊎◌, inl, inr, Bool, true, false, ◌==◌, Result, ok, err, nat_eq, string_eq,
  bool_eq,
}
use docker_faas.Gateway.Services.{stop, go, respond}
use docker_faas.Gateway.Names.{validate_function_name, normalize_function_name}
use docker_faas.Gateway.Deploy.{checked, check_name}

checked-cases :
    {W : Type 0} (valid : Result (Unit {0})) (is_empty : Bool) (name missing : String) (w : W)
    → ((text : String) × (checked valid is_empty name missing w ≡ (stop (respond 400 text), w)))
      ⊎ ((valid ≡ ok tt) × (checked valid is_empty name missing w ≡ (go name, w)))
checked-cases (err e) is_empty name missing w = inl (e, refl)
checked-cases (ok u) true name missing w = inl (missing, refl)
checked-cases (ok u) false name missing w = inr (refl, refl)

-- Either the handler ends with 400, or it goes on with the normalized name, which is valid.
pub check_name-cases :
    {W : Type 0} (raw missing : String) (w : W)
    → ((text : String) × (check_name raw missing w ≡ (stop (respond 400 text), w)))
      ⊎ ((validate_function_name (normalize_function_name raw) ≡ ok tt)
          × (check_name raw missing w ≡ (go (normalize_function_name raw), w)))
unfolding check_name
check_name-cases raw missing w =
    let name = normalize_function_name raw in
    checked-cases (validate_function_name name) (name == "") name missing w
