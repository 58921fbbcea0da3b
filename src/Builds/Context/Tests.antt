-- ===== src/Builds/Context/Tests.antt =====
-- An archive and inline files in a directory of a concrete file system.
use docker_faas.Base.{
  ℕ, String, ◌≡◌, refl, ◌≢◌, inl, inr, true, false, Option, none, some, List, [], ◌∷◌, eq_iff,
  if◌then◌else◌, ◌==◌, Bool-cases, ok, err, nat_eq, string_eq, bool_eq,
}
use docker_faas.Base.Calls.{Call, pure}
use docker_faas.Base.Text.{codes, has_prefix, contains_text, ◌<>◌}
use docker_faas.Builds.Archive.{ZipEntry, validate_zip_archive}
use docker_faas.Gateway.BuildRequest.{BuildInlineFile}
use docker_faas.Builds.Context.{
  Disk, base_clean, safe_join, extract_zip_file, extract_zip, write_inline_files, ensure_dir,
  resolve_single_subdir,
}
use docker_faas.Builds.Context.Inside.{DiskLaws, outside-Kept}

-- The contents of the files, by their path
abbrev Files : Type 0
Files = String → Option String

abbrev put : {A : Type 0} → String → Option String → A → Call Files A
put path text a f = (ok a, λ q. if path == q then text else f q)

abbrev entry : ZipEntry
entry = record {
  name = "fn.py";
  is_dir = false;
  is_symlink = false;
  uncompressed_size = 4;
  compressed_size = 4;
}

abbrev disk : Disk Files
disk = record {
  clean = λ s. s;
  join = λ base s. base <> "/" <> s;
  dir = λ s. s;
  is_abs = λ s. has_prefix (codes s) (codes "/");
  open_reader = λ p. pure (entry ∷ []);
  open_entry = λ file. pure tt;
  copy_entry = λ file p limit. put p (some "body") 4;
  create = λ p. put p (some "") tt;
  write = λ p text. put p (some text) tt;
  remove = λ p. put p none tt;
  is_not_exist = λ e. true;
  mkdir_all = λ p. pure tt;
  stat = λ f p. ok true;
  read_dir = λ f p. ok (("sub", true) ∷ []);
}

abbrev read : Files → String → Option String
read f q = f q

put-other :
    {A : Type 0} (p : String) (text : Option String) (a : A) (q : String) (f : Files)
    → p ≢ q
    → read (put p text a f).1 q ≡ read f q
put-other p text a q f n = elim (Bool-cases (p == q)) [
  | inl e ↦ absurd (n ((eq_iff p q).0 e))
  | inr e ↦ rw e refl
]

-- There are no links.
abbrev Linkless : Files → String → Type 0
Linkless f p = Unit

disk_laws : DiskLaws disk read Linkless
disk_laws = record {
  join_clean = λ base s. refl;
  open_reader = λ p q f. refl;
  open_entry = λ file q f. refl;
  mkdir_all = λ p q f. refl;
  create = λ p q f l k n. put-other p (some "") tt q f n;
  write = λ p text q f l k n. put-other p (some text) tt q f n;
  remove = λ p q f l k n. put-other p none tt q f n;
  copy_entry = λ file p q limit f l k n. put-other {A = ℕ} p (some "body") 4 q f n;
  open_reader_links = λ p r f l. l;
  open_entry_links = λ file r f l. l;
  mkdir_all_links = λ p r f l. l;
  create_links = λ p r f l. l;
  write_links = λ p text r f l. l;
  remove_links = λ p r f l. l;
  copy_entry_links = λ file p r limit f l. l;
}

abbrev inline : List BuildInlineFile
inline =
    record { path = "a\\b"; content = "x"; remove = false }
    ∷ record { path = "../c"; content = "y"; remove = false }
    ∷ []

abbrev no_files : Files
no_files q = if q == "/etc/passwd" then some "root" else none

written_files :
    ((write_inline_files disk "/tmp/b" inline no_files).0 ≡ err "invalid path: ../c")
    × ((write_inline_files disk "/tmp/b" inline no_files).1 "/tmp/b/a/b" ≡ some "x")
    × ((extract_zip disk "/tmp/b/a.zip" "/tmp/b" no_files).0 ≡ ok tt)
    × ((extract_zip disk "/tmp/b/a.zip" "/tmp/b" no_files).1 "/tmp/b/fn.py" ≡ some "body")
    × (safe_join disk "/tmp/b" "c:x" ≡ err "invalid path: c:x")
    × (ensure_dir disk "/tmp/b" no_files ≡ ok tt)
    × ((resolve_single_subdir disk "/tmp/b" no_files).0 ≡ "/tmp/b/sub")
unfolding write_inline_files extract_zip safe_join ensure_dir resolve_single_subdir has_prefix
    contains_text validate_zip_archive extract_zip_file
written_files = (refl, refl, refl, refl, refl, refl, refl)

outside_passwd : has_prefix (codes "/etc/passwd") (codes (base_clean disk "/tmp/b")) ≡ false
unfolding has_prefix
outside_passwd = refl

outside-Kept_example :
    (read (extract_zip disk "/tmp/b/a.zip" "/tmp/b" no_files).1 "/etc/passwd"
      ≡ read no_files "/etc/passwd")
    × (read (write_inline_files disk "/tmp/b" inline no_files).1 "/etc/passwd"
        ≡ read no_files "/etc/passwd")
outside-Kept_example =
    outside-Kept disk read Linkless disk_laws "/tmp/b" "/etc/passwd" outside_passwd "/tmp/b/a.zip"
      inline no_files ((λ r c i. tt), tt)
