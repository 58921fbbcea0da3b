-- ===== src/Gateway/Names.antt =====
-- `validateFunctionName` of pkg/gateway/validation.go, `normalizeFunctionName` of
-- pkg/gateway/handlers.go and `FunctionNetworkName` of pkg/provider/docker_provider.go.
use Prim.Native.String
use docker_faas.Base.{
  ℕ, String, ◌≡◌, refl, Bool, true, false, not, ◌&&◌, ◌||◌, List, [], ◌∷◌, leb, if◌then◌else◌, ◌==◌,
  on_option, Result, ok, err, nat_eq, string_eq, bool_eq,
}
use docker_faas.Base.Text.{codes, trim_space, contains_text, cut_suffix}
use docker_faas.Gateway.Types.{Container}

is_alphanumeric : ℕ → Bool
is_alphanumeric c =
    (leb b'a' c && leb c b'z') || (leb b'A' c && leb c b'Z') || (leb b'0' c && leb c b'9')

is_name_code : ℕ → Bool
unfolding is_alphanumeric
is_name_code c = is_alphanumeric c || c == b'_' || c == b'.' || c == b'-'

every_name_code : List ℕ → Bool
every_name_code [] = true
every_name_code (c ∷ s) = let rest = every_name_code s in if is_name_code c then rest else false

-- `functionNamePattern`: a letter or digit, then letters, digits, `_`, `.` and `-`
unfoldable pub matches_name : List ℕ → Bool
unfolding is_alphanumeric every_name_code is_name_code
matches_name [] = false
matches_name (c ∷ s) = is_alphanumeric c && every_name_code s

unfoldable pub validate_function_name : String → Result (Unit {0})
validate_function_name name =
    if name == ""
    then err "function name is required"
    else if not (matches_name (codes name))
    then err (String.◌++◌ "invalid function name: " name)
    else ok tt

unfoldable pub normalize_function_name : String → String
normalize_function_name name =
    let trimmed = trim_space name in
    on_option (cut_suffix trimmed ".openfaas-fn")
      (on_option (cut_suffix trimmed ".openfaas") trimmed (λ rest. rest)) (λ rest. rest)

unfoldable pub function_network_name : String → String → String
function_network_name base_network service =
    if base_network == "" then service else String.◌++◌ base_network (String.◌++◌ "-" service)

-- `strings.Contains(c.Status, "running") || strings.Contains(c.Status, "Up")`
unfoldable pub is_available : Container → Bool
is_available c =
    contains_text (codes c.status) (codes "running") || contains_text (codes c.status) (codes "Up")

names :
    (validate_function_name "hello-1.x" ≡ ok tt)
    × (validate_function_name "../x" ≡ err "invalid function name: ../x")
    × (normalize_function_name " hello.openfaas-fn" ≡ "hello")
unfolding validate_function_name normalize_function_name matches_name trim_space cut_suffix
names = (refl, refl, refl)
