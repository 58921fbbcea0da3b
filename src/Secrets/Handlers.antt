-- ===== src/Secrets/Handlers.antt =====
-- The handlers of pkg/gateway/secrets_handlers.go. The body of a request is what the JSON decoder
-- makes of it, and `writeJSON` is the value that it writes.
use docker_faas.Base.{
  ℕ, String, ◌≡◌, refl, ◌≢◌, ◌⊎◌, inl, inr, true, false, not, ◌||◌, Option, none, some, List, arith,
  if◌then◌else◌, ◌==◌, Bool-cases, Result, ok, err, nat_eq, string_eq, bool_eq,
}
use docker_faas.Secrets.Files.{got, FileSystem, FileLaws}
use docker_faas.Secrets.Created.{create_secret_lem}
use docker_faas.Secrets.{
  SecretManager, secret_data, secret_path, create_secret, update_secret, delete_secret, get_secret,
  list_secrets, secret_exists,
}

pub record SecretRequest : Type 0 where
  pub name : String
  pub value : String

-- A text, a `SecretResponse` of a name, or a list of them
pub data Body : Type 0 where
  text : String → Body
  secret : String → Body
  secrets : List String → Body
  no_content : Body

pub record SecretAnswer : Type 0 where
  pub status : ℕ
  pub body : Body

abbrev pub error_answer : String → ℕ → SecretAnswer
error_answer e status = record { status = status; body = text e }

-- The answer to a call of the manager, whose error is the text of the body
abbrev pub answer_of : ℕ → Body → ℕ → Result (Unit {0}) → SecretAnswer
answer_of status body error_status (ok u) = record { status = status; body = body }
answer_of status body error_status (err e) = error_answer e error_status

abbrev pub list_answer : Result (List String) → SecretAnswer
list_answer (ok names) = record { status = 200; body = secrets names }
list_answer (err e) = error_answer "Failed to list secrets" 500

module _ {F : Type 0} (fs : FileSystem F) (sm : SecretManager) where
  unfoldable pub handle_create_secret : Option SecretRequest → F → SecretAnswer × F
  handle_create_secret none f = (error_answer "Invalid request body" 400, f)
  handle_create_secret (some req) f =
      let call = create_secret fs sm req.name req.value f in
      if req.name == "" || req.value == ""
      then (error_answer "Name and value are required" 400, f)
      else (answer_of 201 (secret req.name) 500 call.0, call.1)

  unfoldable pub handle_update_secret : Option SecretRequest → F → SecretAnswer × F
  handle_update_secret none f = (error_answer "Invalid request body" 400, f)
  handle_update_secret (some req) f =
      let call = update_secret fs sm req.name req.value f in
      if req.name == "" || req.value == ""
      then (error_answer "Name and value are required" 400, f)
      else (answer_of 200 (secret req.name) 404 call.0, call.1)

  -- The name is the query parameter.
  unfoldable pub handle_delete_secret : String → F → SecretAnswer × F
  handle_delete_secret name f =
      let call = delete_secret fs sm name f in
      if name == ""
      then (error_answer "name parameter is required" 400, f)
      else (answer_of 204 no_content 404 call.0, call.1)

  unfoldable pub handle_list_secrets : F → SecretAnswer
  handle_list_secrets f = list_answer (list_secrets fs sm f)

  -- The name is the one of the path.
  unfoldable pub handle_get_secret : String → F → SecretAnswer
  handle_get_secret name f =
      if name == ""
      then error_answer "Secret name is required" 400
      else if not (secret_exists fs sm name f)
      then error_answer "Secret not found" 404
      else record { status = 200; body = secret name }

module _ {F : Type 0} (fs : FileSystem F) (file : F → String → Option String)
    (Same : F → String → String → Type 0) (laws : FileLaws fs file Same) (sm : SecretManager) where
  pub exists-some :
      (name c : String) (f : F)
      → file f (secret_path fs sm name) ≡ some c
      → secret_exists fs sm name f ≡ true
  unfolding secret_exists
  exists-some name c f h = rw (laws.stat_some f (secret_path fs sm name) c h) refl

  found-200 :
      (name : String) (f : F)
      → (name == "") ≡ false
      → secret_exists fs sm name f ≡ true
      → (handle_get_secret fs sm name f).status ≡ 200
  unfolding handle_get_secret
  found-200 name f n e = rw (n, e) refl

  -- A create request is answered 201 only if it names a secret with a value for which `Stat` found nothing: then the
  -- get handler answers 200 for the name, and the decoded value can be read. With any other answer,
  -- each file that was there is as it was.
  pub handle_create_secret_lem :
      (body : Option SecretRequest) (f : F)
      → (((handle_create_secret fs sm body f).0.status ≡ 201)
          × ((req : SecretRequest) × (body ≡ some req)
              × (fs.stat f (secret_path fs sm req.name) ≢ got tt)
              × ((handle_get_secret fs sm req.name (handle_create_secret fs sm body f).1).status
                  ≡ 200)
              × (get_secret fs sm req.name (handle_create_secret fs sm body f).1
                  ≡ ok (secret_data fs req.value))))
        ⊎ (((handle_create_secret fs sm body f).0.status ≢ 201)
            × ((q c : String)
                → file f q ≡ some c
                → file (handle_create_secret fs sm body f).1 q ≡ some c))
  unfolding handle_create_secret
  handle_create_secret_lem none f = inr ((λ e. absurd (omega (arith, e))), λ q c k. k)
  handle_create_secret_lem (some req) f =
      let call = create_secret fs sm req.name req.value f in
      elim (Bool-cases (req.name == "")) [
        | inl n ↦ rw n (inr ((λ e. absurd (omega (arith, e))), λ q c k. k))
        | inr n ↦ elim (Bool-cases (req.value == "")) [
          | inl v ↦ rw (n, v) (inr ((λ e. absurd (omega (arith, e))), λ q c k. k))
          | inr v ↦ elim (create_secret_lem fs file Same laws sm req.name req.value f) [
            | inr (t, e, kept) ↦ rw (n, v, e) (inr ((λ q. absurd (omega (arith, q))), kept))
            | inl (e, gone, now, read, others) ↦
                let there = exists-some req.name (secret_data fs req.value) call.1 now in
                rw (n, v, e)
                  (inl (refl, (req, refl, gone, found-200 req.name call.1 n there, read)))
          ]
        ]
      ]
