-- ===== src/Secrets/Ensured.antt =====
-- After `EnsureSecrets` the secrets are there, and no file that was there has changed.
use docker_faas.Base.{
  String, ◌≡◌, refl, ◌∙◌, ◌≢◌, ◌⊎◌, inl, inr, Option, some, List, [], ◌∷◌, ◌++◌, eq_iff, ◌==◌,
  Bool-cases, keep, All, All-append, Result, ok, err, nat_eq, string_eq, bool_eq,
}
use docker_faas.Base.Text.{trim_space}
use docker_faas.Secrets.Files.{got, FileSystem, FileLaws}
use docker_faas.Secrets.Writes.{after_round}
use docker_faas.Secrets.Created.{is_got_eq, absent, apart, create_secret_lem, create_secret-stat}
use docker_faas.Secrets.{
  SecretManager, is_got, Round, skipped, made, broken, round_of, secret_path, create_secret,
  secret_exists, missing, validate_secrets, ensure_round, ensure_from, ensure_secrets,
}

module _ {F : Type 0} (fs : FileSystem F) (file : F → String → Option String) where
  -- What had content has it still, and what `Stat` found is still found.
  abbrev pub Kept : F → F → Type 0
  Kept f g =
      ((q c : String) → file f q ≡ some c → file g q ≡ some c)
      × ((q : String) → fs.stat f q ≡ got tt → fs.stat g q ≡ got tt)

module _ {F : Type 0} (fs : FileSystem F) (file : F → String → Option String)
    (Same : F → String → String → Type 0) (laws : FileLaws fs file Same) (sm : SecretManager) where
  -- `Stat` finds something at the path of the secret.
  abbrev Present : F → String → Type 0
  Present f name = fs.stat f (secret_path fs sm name) ≡ got tt

  abbrev Absent : F → String → Type 0
  Absent f name = fs.stat f (secret_path fs sm name) ≢ got tt

  Kept-trans : (f g h : F) → Kept fs file f g → Kept fs file g h → Kept fs file f h
  Kept-trans f g h (k, s) (l, t) = ((λ q c x. l q c (k q c x)), λ q x. t q (s q x))

  create-Kept : (name value : String) (f : F) → Kept fs file f (create_secret fs sm name value f).1
  create-Kept name value f = (
    λ q c h. elim (create_secret_lem fs file Same laws sm name value f) [
      | inr (e, p, k) ↦ k q c h
      | inl (p, gone, now, read, others) ↦
          let path = secret_path fs sm name in
          others q (apart fs file Same laws f path q c (absent fs file Same laws f path gone) h) ∙ h
    ],
    create_secret-stat fs file Same laws sm name value f,
  )

  -- The name is blank, or the secret is there after the round; it was not there if it was made.
  abbrev Rounded : F → String → Round × F → Type 0
  Rounded before name (skipped, f) = (trim_space name ≡ "") ⊎ Present f name
  Rounded before name (made, f) = Absent before name × Present f name
  Rounded before name (broken e, f) = Unit

  created_lem :
      (name : String) (f : F)
      → let call = create_secret fs sm name "" f in
        Rounded f name (round_of call.0 (secret_exists fs sm name call.1), call.1)
  unfolding secret_exists
  created_lem name f =
      let call = create_secret fs sm name "" f in
      elim (create_secret_lem fs file Same laws sm name "" f) [
        | inl (p, gone, now, read, others) ↦
            rw p (gone, laws.stat_some call.1 (secret_path fs sm name) _ now)
        | inr (e, p, k) ↦ elim (Bool-cases (secret_exists fs sm name call.1)) [
          | inl x ↦ rw (p, x) (inr (is_got_eq _ x))
          | inr x ↦ rw (p, x) tt
        ]
      ]

  ensure_round_lem :
      (name : String) (f : F)
      → Kept fs file f (ensure_round fs sm name f).1 × Rounded f name (ensure_round fs sm name f)
  unfolding ensure_round secret_exists
  ensure_round_lem name f = elim (Bool-cases (trim_space name == "")) [
    | inl e ↦ rw e (((λ q c h. h), λ q h. h), inl ((eq_iff _ _).0 e))
    | inr e ↦ elim (Bool-cases (is_got (fs.stat f (secret_path fs sm name)))) [
      | inl g ↦ rw (e, g) (((λ q c h. h), λ q h. h), inr (is_got_eq _ g))
      | inr g ↦ rw (e, g) (create-Kept name "" f, created_lem name f)
    ]
  ]

  -- The names that are not blank
  abbrev Ensured : F → List String → Type 0
  Ensured f names = All (λ name. (trim_space name ≡ "") ⊎ Present f name) names

  Ensured-Kept :
      (names : List String) (f g : F) → Kept fs file f g → Ensured f names → Ensured g names
  Ensured-Kept [] f g k h = tt
  Ensured-Kept (x ∷ l) f g k (inl e, r) = (inl e, Ensured-Kept l f g k r)
  Ensured-Kept (x ∷ l) f g k (inr e, r) = (inr (k.1 _ e), Ensured-Kept l f g k r)

  -- What `EnsureSecrets` leaves: what was there is kept, the created names were not found before, and
  -- without an error the secrets are found.
  abbrev pub Ends : F → List String → (List String × Result (Unit {0})) × F → Type 0
  Ends before names out =
      Kept fs file before out.1
      × All (Absent before) out.0.0
      × ((out.0.1 ≡ ok tt) × Ensured out.1 names ⊎ ((e : String) × (out.0.1 ≡ err e)))

  rest-Kept :
      (name : String) (names created : List String) (f : F) (round : Round × F)
      → Kept fs file f round.1
      → ((l : List String) (g : F) → Kept fs file g (ensure_from fs sm names l g).1)
      → Kept fs file f (after_round fs sm name names created round).1
  rest-Kept name names created f (skipped, g) h next = Kept-trans f g _ h (next created g)
  rest-Kept name names created f (made, g) h next =
      Kept-trans f g _ h (next (created ++ (name ∷ [])) g)
  rest-Kept name names created f (broken e, g) h next = h

  ended :
      (name : String) (names : List String) (g now : F) (r : Result (Unit {0}))
      → Kept fs file g now
      → ((trim_space name ≡ "") ⊎ Present g name)
      → ((r ≡ ok tt) × Ensured now names ⊎ ((e : String) × (r ≡ err e)))
      → ((r ≡ ok tt) × Ensured now (name ∷ names) ⊎ ((e : String) × (r ≡ err e)))
  ended name names g now r k h (inr x) = inr x
  ended name names g now r k (inl e) (inl (p, l)) = inl (p, (inl e, l))
  ended name names g now r k (inr e) (inl (p, l)) = inl (p, (inr (k.1 _ e), l))

  ensure_from-Kept :
      (names created : List String) (f : F) → Kept fs file f (ensure_from fs sm names created f).1
  unfolding ensure_from
  ensure_from-Kept [] created f = ((λ q c h. h), λ q h. h)
  ensure_from-Kept (name ∷ names) created f =
      rest-Kept name names created f (ensure_round fs sm name f) (ensure_round_lem name f).0
        (λ l g. ensure_from-Kept names l g)

  -- The rest of the loop after a round
  rest_lem :
      (name : String) (names created : List String) (before f : F) (round : Round × F)
      → Kept fs file before f
      → All (Absent before) created
      → Kept fs file f round.1
      → Rounded f name round
      → ((l : List String) (g : F)
          → Kept fs file before g
          → All (Absent before) l
          → Ends before names (ensure_from fs sm names l g))
      → Ends before (name ∷ names) (after_round fs sm name names created round)
  rest_lem name names created before f (skipped, g) k a h r next =
      let (kept, fresh, end) = next created g (Kept-trans before f g k h) a in
      (kept, fresh, ended name names g _ _ (ensure_from-Kept names created g) r end)
  rest_lem name names created before f (made, g) k a h (r, s) next =
      let (kept, fresh, end) =
        next (created ++ (name ∷ [])) g (Kept-trans before f g k h)
          (All-append (Absent before) created (name ∷ []) a ((λ x. r (k.1 _ x)), tt)) in
      (kept, fresh, ended name names g _ _ (ensure_from-Kept names _ g) (inr s) end)
  rest_lem name names created before f (broken e, g) k a h r next =
      (Kept-trans before f g k h, a, inr (e, refl))

  ensure_from_lem :
      (names created : List String) (before f : F)
      → Kept fs file before f
      → All (Absent before) created
      → Ends before names (ensure_from fs sm names created f)
  unfolding ensure_from
  ensure_from_lem [] created before f k a = (k, a, inl (refl, tt))
  ensure_from_lem (name ∷ names) created before f k a =
      let (kept, done) = ensure_round_lem name f in
      rest_lem name names created before f (ensure_round fs sm name f) k a kept done
        (λ l g. ensure_from_lem names l before g)

  -- `EnsureSecrets` changes no content that is there and takes nothing away that `Stat` found, whatever
  -- the outcome, and it answers names for which `Stat` found nothing before. Where it answers no error,
  -- `Stat` finds something, a file or a directory, for each name that is not blank.
  pub ensure_secrets-Ends :
      (names : List String) (f : F) → Ends f names (ensure_secrets fs sm names f)
  unfolding ensure_secrets
  ensure_secrets-Ends names f = ensure_from_lem names [] f f ((λ q c h. h), λ q h. h) tt

  no_missing :
      (names : List String) (f : F)
      → Ensured f names
      → All (λ name. trim_space name ≢ "") names
      → missing fs sm names f ≡ []
  unfolding keep
  no_missing [] f h k = refl
  no_missing (x ∷ l) f (inl e, h) (n, k) = absurd (n e)
  no_missing (x ∷ l) f (inr e, h) (n, k) = rw e (no_missing l f h k)

  -- After `EnsureSecrets` of names that are not blank has succeeded, `ValidateSecrets` of them succeeds.
  pub validate-ensure_secrets :
      (names : List String) (f : F)
      → All (λ name. trim_space name ≢ "") names
      → (ensure_secrets fs sm names f).0.1 ≡ ok tt
      → validate_secrets fs sm names (ensure_secrets fs sm names f).1 ≡ ok tt
  unfolding validate_secrets
  validate-ensure_secrets names f h e =
      let (kept, fresh, end) = ensure_secrets-Ends names f in
      elim end [
        | inr (t, p) ↦ cc
        | inl (p, there) ↦ rw (no_missing names (ensure_secrets fs sm names f).1 there h) refl
      ]
