-- ===== src/Secrets/Writes.antt =====
-- `EnsureSecrets` does nothing to the state but write files.
use docker_faas.Base.{
  String, ◌≡◌, refl, ◌∙◌, inl, inr, List, [], ◌∷◌, ◌++◌, ◌==◌, Bool-cases, Result, err, nat_eq,
  string_eq, bool_eq,
}
use docker_faas.Base.Calls.{Keeps}
use docker_faas.Base.Text.{trim_space}
use docker_faas.Secrets.Files.{FileSystem}
use docker_faas.Secrets.{
  SecretManager, is_got, secret_data, Round, skipped, made, broken, secret_path, create_secret,
  secret_exists, ensure_round, ensure_from, ensure_secrets,
}

-- The rest of the loop after a round
abbrev pub after_round :
    {F : Type 0}
    → FileSystem F
    → SecretManager
    → String
    → List String
    → List String
    → Round × F
    → (List String × Result (Unit {0})) × F
after_round fs sm name names created round = elim round.0 [
  | skipped ↦ ensure_from fs sm names created round.1
  | made ↦ ensure_from fs sm names (created ++ (name ∷ [])) round.1
  | broken e ↦ ((created, err e), round.1)
]

module _ {F V : Type 0} (fs : FileSystem F) (sm : SecretManager) (view : F → V)
    (written : (path text : String) → Keeps view (fs.write path text)) where
  create_secret-Keeps : (name value : String) → Keeps view (create_secret fs sm name value)
  unfolding create_secret
  create_secret-Keeps name value f =
      elim (Bool-cases (is_got (fs.stat f (secret_path fs sm name)))) [
        | inl e ↦ rw e refl
        | inr e ↦ rw e (written (secret_path fs sm name) (secret_data fs value) f)
      ]

  ensure_round-Keeps : (name : String) (f : F) → view (ensure_round fs sm name f).1 ≡ view f
  unfolding ensure_round
  ensure_round-Keeps name f = elim (Bool-cases (trim_space name == "")) [
    | inl e ↦ rw e refl
    | inr e ↦ elim (Bool-cases (secret_exists fs sm name f)) [
      | inl h ↦ rw (e, h) refl
      | inr h ↦ rw (e, h) (create_secret-Keeps name "" f)
    ]
  ]

  next-Keeps :
      (name : String) (names created : List String) (f : F) (round : Round × F)
      → view round.1 ≡ view f
      → ((l : List String) (g : F) → view (ensure_from fs sm names l g).1 ≡ view g)
      → view (after_round fs sm name names created round).1 ≡ view f
  next-Keeps name names created f (skipped, g) h next = next created g ∙ h
  next-Keeps name names created f (made, g) h next = next (created ++ (name ∷ [])) g ∙ h
  next-Keeps name names created f (broken e, g) h next = h

  ensure_from-Keeps :
      (names created : List String) (f : F) → view (ensure_from fs sm names created f).1 ≡ view f
  unfolding ensure_from
  ensure_from-Keeps [] created f = refl
  ensure_from-Keeps (name ∷ names) created f =
      next-Keeps name names created f (ensure_round fs sm name f) (ensure_round-Keeps name f)
        (λ l g. ensure_from-Keeps names l g)

  pub ensure_secrets-Keeps :
      (names : List String) (f : F) → view (ensure_secrets fs sm names f).1 ≡ view f
  unfolding ensure_secrets
  ensure_secrets-Keeps names f = ensure_from-Keeps names [] f
