-- ===== src/Secrets.antt =====
-- The secret manager of pkg/secrets/secrets.go. The file system, the base64 decoder and
-- `filepath.Join` are parameters. Each operation of one lock is one step; a value is the text of its
-- bytes. Log lines, file modes and the getters of the path are left out.
pub mod Files
pub mod Created
pub mod Ensured
pub mod Handlers
pub mod Writes
pub mod Tests
use docker_faas.Base.{
  String, Bool, true, false, not, none, some, List, [], ◌∷◌, ◌++◌, map, if◌then◌else◌, ◌==◌, keep,
  Result, ok, err, nat_eq, string_eq, bool_eq,
}
use docker_faas.Base.Calls.{Call, ◌>>=◌, ◌>>◌, pure, context, attempt}
use docker_faas.Base.Text.{trim_space, ◌<>◌}
use docker_faas.Secrets.Files.{Access, got, not_exist, failed, FileSystem}

pub record SecretManager : Type 0 where
  pub base_path : String

abbrev pub default_secrets_path : String
default_secrets_path = "/var/openfaas/secrets"

-- `os.IsNotExist(err)`
abbrev pub is_not_exist : {A : Type 0} → Access A → Bool
is_not_exist (got a) = false
is_not_exist (not_exist e) = true
is_not_exist (failed e) = false

-- `err == nil`
abbrev pub is_got : {A : Type 0} → Access A → Bool
is_got (got a) = true
is_got (not_exist e) = false
is_got (failed e) = false

-- The value, decoded where it is base64
abbrev pub secret_data : {F : Type 0} → FileSystem F → String → String
secret_data fs value = elim (fs.decode value) [ some bytes ↦ bytes | none ↦ value ]

abbrev read_answer : String → Access String → Result String
read_answer name (got bytes) = ok bytes
read_answer name (not_exist e) = err ("secret not found: " <> name)
read_answer name (failed e) = err ("failed to read secret: " <> e)

-- `%v` of a slice of strings
words : List String → String
words [] = ""
words (x ∷ []) = x
words (x ∷ y ∷ l) = x <> " " <> words (y ∷ l)

abbrev file_names : List (String × Bool) → List String
file_names entries = map (λ e. e.0) (keep (λ e. not e.1) entries)

abbrev validated : List String → Result (Unit {0})
validated [] = ok tt
validated (x ∷ l) = err ("missing secrets: [" <> words (x ∷ l) <> "]")

-- What a round of `EnsureSecrets` does
pub data Round : Type 0 where
  skipped : Round
  made : Round
  broken : String → Round

-- `CreateSecret` in the loop: after its error another process may have made the file.
abbrev round_of : Result (Unit {0}) → Bool → Round
round_of (ok u) exists = made
round_of (err e) true = skipped
round_of (err e) false = broken e

module _ {F : Type 0} where
  unfoldable pub new_secret_manager : FileSystem F → String → Call F SecretManager
  new_secret_manager fs base_path = do
    let path = if base_path == "" then default_secrets_path else base_path
    context "failed to create secrets directory: " (fs.mkdir_all path)
    pure (record { base_path = path })

  abbrev pub secret_path : FileSystem F → SecretManager → String → String
  secret_path fs sm name = fs.join sm.base_path name

  unfoldable pub create_secret : FileSystem F → SecretManager → String → String → Call F (Unit {0})
  create_secret fs sm name value f =
      let path = secret_path fs sm name in
      let written = context "failed to write secret: " (fs.write path (secret_data fs value)) f in
      if is_got (fs.stat f path) then (err ("secret already exists: " <> name), f) else written

  unfoldable pub update_secret : FileSystem F → SecretManager → String → String → Call F (Unit {0})
  update_secret fs sm name value f =
      let path = secret_path fs sm name in
      let replaced =
        (attempt (fs.remove path)
            >> context "failed to update secret: " (fs.write path (secret_data fs value)))
          f in
      if is_not_exist (fs.stat f path) then (err ("secret not found: " <> name), f) else replaced

  unfoldable pub delete_secret : FileSystem F → SecretManager → String → Call F (Unit {0})
  delete_secret fs sm name f =
      let path = secret_path fs sm name in
      let removed = context "failed to delete secret: " (fs.remove path) f in
      if is_not_exist (fs.stat f path) then (err ("secret not found: " <> name), f) else removed

  unfoldable pub get_secret : FileSystem F → SecretManager → String → F → Result String
  get_secret fs sm name f = read_answer name (fs.read f (secret_path fs sm name))

  unfoldable pub list_secrets : FileSystem F → SecretManager → F → Result (List String)
  list_secrets fs sm f = elim (fs.read_dir f sm.base_path) [
    | ok files ↦ ok (file_names files)
    | err e ↦ err ("failed to list secrets: " <> e)
  ]

  unfoldable pub secret_exists : FileSystem F → SecretManager → String → F → Bool
  secret_exists fs sm name f = is_got (fs.stat f (secret_path fs sm name))

  abbrev pub missing : FileSystem F → SecretManager → List String → F → List String
  missing fs sm names f = keep (λ name. is_not_exist (fs.stat f (secret_path fs sm name))) names

  unfoldable pub validate_secrets :
      FileSystem F → SecretManager → List String → F → Result (Unit {0})
  unfolding words
  validate_secrets fs sm names f = validated (missing fs sm names f)

  unfoldable pub ensure_round : FileSystem F → SecretManager → String → F → Round × F
  ensure_round fs sm name f =
      let call = create_secret fs sm name "" f in
      if trim_space name == ""
      then (skipped, f)
      else if secret_exists fs sm name f
      then (skipped, f)
      else (round_of call.0 (secret_exists fs sm name call.1), call.1)

  unfoldable pub ensure_from :
      FileSystem F
      → SecretManager
      → List String
      → List String
      → F
      → (List String × Result (Unit {0})) × F
  ensure_from fs sm [] created f = ((created, ok tt), f)
  ensure_from fs sm (name ∷ names) created f =
      let round = ensure_round fs sm name f in
      elim round.0 [
        | skipped ↦ ensure_from fs sm names created round.1
        | made ↦ ensure_from fs sm names (created ++ (name ∷ [])) round.1
        | broken e ↦ ((created, err e), round.1)
      ]

  -- The names that were created, and the error
  unfoldable pub ensure_secrets :
      FileSystem F → SecretManager → List String → F → (List String × Result (Unit {0})) × F
  ensure_secrets fs sm names f = ensure_from fs sm names [] f
