-- ===== src/Secrets/Tests.antt =====
-- A file system in memory: files by their paths. Only the text `c2VjcmV0` is base64.
use docker_faas.Base.{
  String, ◌≡◌, refl, ap, ◌≢◌, ◌⊎◌, inl, inr, false, Option, none, some, List, [], ◌∷◌, map, eq_iff,
  if◌then◌else◌, ◌==◌, Bool-cases, keep, All, Result, ok, err, nat_eq, string_eq, bool_eq,
}
use docker_faas.Base.Assoc.{Assoc, lookup, erase, insert, lookup-erase, lookup-insert}
use docker_faas.Base.Text.{trim_space, ◌<>◌}
use docker_faas.Secrets.Files.{Access, got, not_exist, FileSystem, FileLaws}
use docker_faas.Secrets.Created.{OthersKept, create_secret_lem}
use docker_faas.Secrets.Ensured.{Ends, ensure_secrets-Ends, validate-ensure_secrets}
use docker_faas.Secrets.Handlers.{
  SecretRequest, handle_create_secret, handle_get_secret, handle_create_secret_lem,
}
use docker_faas.Secrets.{
  SecretManager, secret_data, secret_path, create_secret, delete_secret, get_secret, secret_exists,
  validate_secrets, ensure_round, ensure_from, ensure_secrets,
}

abbrev Disk : Type 0
Disk = Assoc String String

abbrev stat_of : Option String → Access (Unit {0})
stat_of none = not_exist "no such file"
stat_of (some c) = got tt

abbrev read_of : Option String → Access String
read_of none = not_exist "no such file"
read_of (some c) = got c

abbrev remove_of : String → Option String → Disk → Result (Unit {0}) × Disk
remove_of p none d = (err "no such file", d)
remove_of p (some c) d = (ok tt, erase p d)

abbrev disk : FileSystem Disk
disk = record {
  join = λ a b. a <> "/" <> b;
  decode = λ s. if s == "c2VjcmV0" then some "secret" else none;
  stat = λ d p. stat_of (lookup p d);
  read = λ d p. read_of (lookup p d);
  read_dir = λ d p. ok (map (λ e. (e.0, false)) d);
  mkdir_all = λ p d. (ok tt, d);
  write = λ p c d. (ok tt, insert p c d);
  remove = λ p d. remove_of p (lookup p d) d;
}

differs : (p q : String) → p ≢ q → (p == q) ≡ false
differs p q h = elim (Bool-cases (p == q)) [ inl e ↦ absurd (h ((eq_iff p q).0 e)) | inr e ↦ e ]

lookup_self : (p c : String) (d : Disk) → lookup p (insert p c d) ≡ some c
lookup_self p c d = rw (lookup-insert p p c d, (eq_iff p p).1 refl) refl

lookup-other : (p q c : String) (d : Disk) → p ≢ q → lookup q (insert p c d) ≡ lookup q d
lookup-other p q c d h = rw (lookup-insert p q c d, differs p q h) refl

removed-ok :
    (p : String) (o : Option String) (d : Disk)
    → (remove_of p o d).0 ≡ ok tt
    → lookup p (remove_of p o d).1 ≡ none
removed-ok p none d h = cc
removed-ok p (some c) d h = rw (lookup-erase p p d, (eq_iff p p).1 refl) refl

kept_stat :
    (p c q : String) (d : Disk)
    → stat_of (lookup q d) ≡ got tt
    → stat_of (lookup q (insert p c d)) ≡ got tt
kept_stat p c q d h = elim (Bool-cases (p == q)) [
  | inl e ↦ rw (lookup-insert p q c d, e) refl
  | inr e ↦ rw (lookup-insert p q c d, e) h
]

removed-err :
    (p e : String) (o : Option String) (d : Disk)
    → (remove_of p o d).0 ≡ err e
    → (remove_of p o d).1 ≡ d
removed-err p e none d h = refl
removed-err p e (some c) d h = cc

removed-other :
    (p q : String) (o : Option String) (d : Disk)
    → p ≢ q
    → lookup q (remove_of p o d).1 ≡ lookup q d
removed-other p q none d h = refl
removed-other p q (some c) d h = rw (lookup-erase p q d, differs p q h) refl

abbrev file_at : Disk → String → Option String
file_at d p = lookup p d

abbrev SamePath : Disk → String → String → Type 0
SamePath d p q = p ≡ q

disk_laws : FileLaws disk file_at SamePath
disk_laws = record {
  stat_some = λ d p c h. rw h refl;
  read_some = λ d p c h. rw h refl;
  same_file = λ d p q h. ap (λ x. lookup x d) h;
  write_stat = λ p c q d h. kept_stat p c q d h;
  write_ok = λ p c d n h. lookup_self p c d;
  write_other = λ p c q d h. lookup-other p q c d h;
  remove_ok = λ p d h e. cc (rw (removed-ok p (lookup p d) d h) at e);
  remove_err = λ p e d h. ap (lookup p) (removed-err p e (lookup p d) d h);
  remove_other = λ p q d h. removed-other p q (lookup p d) d h;
  remove_same = λ p q d h. h;
}

abbrev manager : SecretManager
manager = record { base_path = "/secrets" }

abbrev key_only : Disk
key_only = ("/secrets/key", "k") ∷ []

secrets_run :
    ((create_secret disk manager "key" "x" key_only).0 ≡ err "secret already exists: key")
    × (get_secret disk manager "a" (create_secret disk manager "a" "c2VjcmV0" key_only).1
        ≡ ok "secret")
    × ((delete_secret disk manager "key" key_only).1 ≡ [])
    × (validate_secrets disk manager ("a" ∷ "key" ∷ "b" ∷ []) key_only
        ≡ err "missing secrets: [a b]")
    × ((ensure_secrets disk manager ("a" ∷ " " ∷ "key" ∷ "a" ∷ []) key_only).0 ≡ ("a" ∷ [], ok tt))
unfolding create_secret get_secret delete_secret validate_secrets ensure_secrets ensure_from
    ensure_round secret_exists lookup insert erase keep trim_space
secrets_run = (refl, refl, refl, refl, refl)

create_secret_lem_example :
    (((create_secret disk manager "a" "c2VjcmV0" key_only).0 ≡ ok tt)
      × (stat_of (lookup "/secrets/a" key_only) ≢ got tt)
      × (lookup "/secrets/a" (create_secret disk manager "a" "c2VjcmV0" key_only).1 ≡ some "secret")
      × (get_secret disk manager "a" (create_secret disk manager "a" "c2VjcmV0" key_only).1
          ≡ ok "secret")
      × OthersKept
          (file_at key_only)
          (file_at (create_secret disk manager "a" "c2VjcmV0" key_only).1)
          (SamePath key_only "/secrets/a"))
    ⊎ ((e : String) × ((create_secret disk manager "a" "c2VjcmV0" key_only).0 ≡ err e)
        × ((q c : String)
            → lookup q key_only ≡ some c
            → lookup q (create_secret disk manager "a" "c2VjcmV0" key_only).1 ≡ some c))
create_secret_lem_example =
    create_secret_lem disk file_at SamePath disk_laws manager "a" "c2VjcmV0" key_only

abbrev two_names : List String
two_names = "a" ∷ "key" ∷ []

ensure_secrets-Ends_example :
    Ends disk file_at SamePath disk_laws manager key_only two_names
      (ensure_secrets disk manager two_names key_only)
ensure_secrets-Ends_example =
    ensure_secrets-Ends disk file_at SamePath disk_laws manager two_names key_only

not_blank : All (λ name. trim_space name ≢ "") two_names
unfolding trim_space
not_blank = ((λ e. cc), ((λ e. cc), tt))

validate-ensure_secrets_example :
    validate_secrets disk manager two_names (ensure_secrets disk manager two_names key_only).1
    ≡ ok tt
unfolding ensure_secrets ensure_from ensure_round secret_exists create_secret lookup insert erase
    trim_space
validate-ensure_secrets_example =
    validate-ensure_secrets disk file_at SamePath disk_laws manager two_names key_only not_blank
      refl

abbrev request : SecretRequest
request = record { name = "a"; value = "c2VjcmV0" }

handle_create_secret_lem_example :
    (((handle_create_secret disk manager (some request) key_only).0.status ≡ 201)
      × ((req : SecretRequest) × (some request ≡ some req)
          × (stat_of (lookup (secret_path disk manager req.name) key_only) ≢ got tt)
          × ((handle_get_secret disk manager req.name
                (handle_create_secret disk manager (some request) key_only).1).status
              ≡ 200)
          × (get_secret disk manager req.name
                (handle_create_secret disk manager (some request) key_only).1
              ≡ ok (secret_data disk req.value))))
    ⊎ (((handle_create_secret disk manager (some request) key_only).0.status ≢ 201)
        × ((q c : String)
            → lookup q key_only ≡ some c
            → lookup q (handle_create_secret disk manager (some request) key_only).1 ≡ some c))
handle_create_secret_lem_example =
    handle_create_secret_lem disk file_at SamePath disk_laws manager (some request) key_only

-- A raw value that happens to be base64 is stored decoded.
raw_value :
    get_secret disk manager "a" (create_secret disk manager "a" "c2VjcmV0" []).1 ≢ ok "c2VjcmV0"
unfolding get_secret create_secret lookup insert erase
raw_value e = cc
