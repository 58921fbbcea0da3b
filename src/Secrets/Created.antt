-- ===== src/Secrets/Created.antt =====
-- Secrets that are written can be read, and no other file changes.
use docker_faas.Base.{
  String, ◌≡◌, refl, ◌∙◌, ◌≢◌, ◌⊎◌, inl, inr, true, false, Option, none, some, Bool-cases,
  Option-cases, ok, err,
}
use docker_faas.Base.Calls.{Result-cases, context-ok}
use docker_faas.Secrets.Files.{Access, got, not_exist, failed, FileSystem, FileLaws}
use docker_faas.Secrets.{
  SecretManager, is_not_exist, is_got, secret_data, secret_path, create_secret, update_secret,
  delete_secret, get_secret,
}

-- What is at the paths that do not reach a file is as it was.
abbrev pub OthersKept :
    (String → Option String) → (String → Option String) → (String → Type 0) → Type 0
OthersKept before now reaches = (q : String) → ¬ reaches q → now q ≡ before q

pub is_got_eq : (a : Access (Unit {0})) → is_got a ≡ true → a ≡ got tt
is_got_eq (got u) h = refl
is_got_eq (not_exist e) h = cc
is_got_eq (failed e) h = cc

pub is_not_exist_eq :
    (a : Access (Unit {0})) → is_not_exist a ≡ true → (e : String) × (a ≡ not_exist e)
is_not_exist_eq (got u) h = cc
is_not_exist_eq (not_exist e) h = (e, refl)
is_not_exist_eq (failed e) h = cc

module _ {F : Type 0} (fs : FileSystem F) (file : F → String → Option String)
    (Same : F → String → String → Type 0) (laws : FileLaws fs file Same) where
  -- A path at which `Stat` finds nothing has no content.
  pub absent : (f : F) (p : String) → fs.stat f p ≢ got tt → file f p ≡ none
  absent f p h = elim (Option-cases (file f p)) [
    | inl e ↦ e
    | inr (c, e) ↦ absurd (h (laws.stat_some f p c e))
  ]

  not_found : (f : F) (p : String) → is_got (fs.stat f p) ≡ false → fs.stat f p ≢ got tt
  not_found f p h e = cc (rw e at h)

  -- What has content is not the file of a path without content.
  pub apart : (f : F) (p q c : String) → file f p ≡ none → file f q ≡ some c → ¬ Same f p q
  apart f p q c h k s = cc (laws.same_file f p q s, h, k)

  pub get_secret_lem :
      (sm : SecretManager) (name c : String) (f : F)
      → file f (secret_path fs sm name) ≡ some c
      → get_secret fs sm name f ≡ ok c
  unfolding get_secret
  get_secret_lem sm name c f h = rw (laws.read_some f (secret_path fs sm name) c h) refl

  -- A secret is created where `Stat` found nothing: then its decoded value can be read and no other
  -- file has changed. Where `CreateSecret` ends with an error, no file that was there has changed.
  pub create_secret_lem :
      (sm : SecretManager) (name value : String) (f : F)
      → (((create_secret fs sm name value f).0 ≡ ok tt)
          × (fs.stat f (secret_path fs sm name) ≢ got tt)
          × (file (create_secret fs sm name value f).1 (secret_path fs sm name)
              ≡ some (secret_data fs value))
          × (get_secret fs sm name (create_secret fs sm name value f).1 ≡ ok (secret_data fs value))
          × OthersKept
              (file f)
              (file (create_secret fs sm name value f).1)
              (Same f (secret_path fs sm name)))
        ⊎ ((e : String) × ((create_secret fs sm name value f).0 ≡ err e)
            × ((q c : String)
                → file f q ≡ some c
                → file (create_secret fs sm name value f).1 q ≡ some c))
  unfolding create_secret
  create_secret_lem sm name value f =
      let path = secret_path fs sm name in
      let written = fs.write path (secret_data fs value) f in
      elim (Bool-cases (is_got (fs.stat f path))) [
        | inl h ↦ rw h (inr (_, refl, λ q c k. k))
        | inr h ↦
            let gone = not_found f path h in
            elim (Result-cases written.0) [
              | inl (u, e) ↦
                  let now = laws.write_ok path (secret_data fs value) f gone e in
                  rw (h, e)
                    (inl (
                      refl,
                      gone,
                      now,
                      get_secret_lem sm name (secret_data fs value) written.1 now,
                      λ q k. laws.write_other path (secret_data fs value) q f k,
                    ))
              | inr (t, e) ↦
                  rw (h, e)
                    (inr (
                      _,
                      refl,
                      λ q c k.
                          laws.write_other path (secret_data fs value) q f
                            (apart f path q c (absent f path gone) k)
                          ∙ k,
                    ))
            ]
      ]

  -- `CreateSecret` takes nothing away that `Stat` finds.
  pub create_secret-stat :
      (sm : SecretManager) (name value : String) (f : F) (q : String)
      → fs.stat f q ≡ got tt
      → fs.stat (create_secret fs sm name value f).1 q ≡ got tt
  unfolding create_secret
  create_secret-stat sm name value f q s =
      let path = secret_path fs sm name in
      elim (Bool-cases (is_got (fs.stat f path))) [
        | inl h ↦ rw h s
        | inr h ↦ rw h (laws.write_stat path (secret_data fs value) q f s)
      ]

  -- A file that could be removed is replaced by the one that is written.
  replaced :
      (path value : String) (f : F)
      → (fs.remove path f).0 ≡ ok tt
      → (fs.write path value (fs.remove path f).1).0 ≡ ok tt
      → file (fs.write path value (fs.remove path f).1).1 path ≡ some value
  replaced path value f r w =
      laws.write_ok path value (fs.remove path f).1 (laws.remove_ok path f r) w

  -- `UpdateSecret` changes no other file, and nothing at all where `Stat` finds no file of that name.
  -- Where it succeeds and the old file could be removed, the decoded value can be read.
  pub update_secret_lem :
      (sm : SecretManager) (name value : String) (f : F)
      → OthersKept
          (file f)
          (file (update_secret fs sm name value f).1)
          (Same f (secret_path fs sm name))
        × ((update_secret fs sm name value f).0 ≡ ok tt
            → (fs.remove (secret_path fs sm name) f).0 ≡ ok tt
            → get_secret fs sm name (update_secret fs sm name value f).1
              ≡ ok (secret_data fs value))
        × (is_not_exist (fs.stat f (secret_path fs sm name)) ≡ true
            → (update_secret fs sm name value f).1 ≡ f)
  unfolding update_secret
  update_secret_lem sm name value f =
      let path = secret_path fs sm name in
      let removed = fs.remove path f in
      let written = fs.write path (secret_data fs value) removed.1 in
      let others : OthersKept (file f) (file written.1) (Same f path) = λ q k.
        laws.write_other path (secret_data fs value) q removed.1 (laws.remove_same path q f k)
        ∙ laws.remove_other path q f k in
      elim (Bool-cases (is_not_exist (fs.stat f path))) [
        | inl h ↦ rw h ((λ q k. refl), (λ e. absurd (cc e)), λ k. refl)
        | inr h ↦ rw h (
          others,
          λ e r. get_secret_lem sm name (secret_data fs value) written.1 (
              replaced path (secret_data fs value) f r (
                context-ok "failed to update secret: " (fs.write path (secret_data fs value))
                  removed.1 e)),
          λ k. cc,
        )
      ]

  -- `DeleteSecret` that succeeds leaves no file of that name, and one that fails changes no file of
  -- that name; other files stay as they are.
  pub delete_secret_lem :
      (sm : SecretManager) (name : String) (f : F)
      → OthersKept (file f) (file (delete_secret fs sm name f).1) (Same f (secret_path fs sm name))
        × ((((delete_secret fs sm name f).0 ≡ ok tt)
              × (file (delete_secret fs sm name f).1 (secret_path fs sm name) ≡ none))
            ⊎ ((e : String) × ((delete_secret fs sm name f).0 ≡ err e)
                × (file (delete_secret fs sm name f).1 (secret_path fs sm name)
                    ≡ file f (secret_path fs sm name))))
  unfolding delete_secret
  delete_secret_lem sm name f =
      let path = secret_path fs sm name in
      let removed = fs.remove path f in
      elim (Bool-cases (is_not_exist (fs.stat f path))) [
        | inl h ↦ rw h ((λ q k. refl), inr (_, refl, refl))
        | inr h ↦ elim (Result-cases removed.0) [
          | inl (u, e) ↦
              rw (h, e)
                (
                  (λ q k. laws.remove_other path q f k),
                  inl (refl, absent removed.1 path (laws.remove_ok path f e)),
                )
          | inr (t, e) ↦
              rw (h, e)
                ((λ q k. laws.remove_other path q f k), inr (_, refl, laws.remove_err path t f e))
        ]
      ]
