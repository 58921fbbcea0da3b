-- ===== src/Builds/Context.antt =====
-- What puts files into a build's context: `extractZip`, `extractZipFile`, `writeInlineFiles` and
-- `safeJoin` of pkg/gateway/build_handlers.go, with `ensureDir` and `resolveSingleSubdir`. The file
-- system, `archive/zip` and `filepath` are parameters; file modes and the closing of files are left out.
use Prim.Native.Char.{code}
pub mod Inside
pub mod Tests
use docker_faas.Base.{
  ℕ, ◌+◌, ◌/◌, ◌%◌, String, Bool, not, ◌||◌, List, [], ◌∷◌, ltb, if◌then◌else◌, ◌==◌, Result, ok,
  err, nat_eq, string_eq, bool_eq,
}
use docker_faas.Base.Calls.{Call, ◌>>=◌, ◌>>◌, pure, throw, lift, context, attempt, or_undo}
use docker_faas.Base.Text.{codes, has_prefix, contains_text, ◌<>◌}
use docker_faas.Builds.Archive.{
  ZipEntry, max_zip_file_bytes, max_zip_total_bytes, u64_mod, validate_zip_archive,
}
use docker_faas.Gateway.BuildRequest.{BuildInlineFile, written}

-- `filepath.Clean`, `Join`, `Dir` and `IsAbs`; `zip.OpenReader`, `Open` of an entry and `io.Copy` of
-- at most so many bytes of it, with the count; `os.Create`, `os.WriteFile`, `os.Remove`, and
-- `os.IsNotExist` of its error; `os.MkdirAll`; `IsDir` of `os.Stat`; `os.ReadDir`, with `IsDir`.
pub record Disk (F : Type 0) : Type 0 where
  pub clean : String → String
  pub join : String → String → String
  pub dir : String → String
  pub is_abs : String → Bool
  pub open_reader : String → Call F (List ZipEntry)
  pub open_entry : ZipEntry → Call F (Unit {0})
  pub copy_entry : ZipEntry → String → ℕ → Call F ℕ
  pub create : String → Call F (Unit {0})
  pub write : String → String → Call F (Unit {0})
  pub remove : String → Call F (Unit {0})
  pub is_not_exist : String → Bool
  pub mkdir_all : String → Call F (Unit {0})
  pub stat : F → String → Result Bool
  pub read_dir : F → String → Result (List (String × Bool))

-- `strings.ReplaceAll(s, "\\", "/")`
unfoldable pub with_slashes : String → String
with_slashes String.[] = ""
with_slashes (String.◌∷◌ c s) =
    let rest = with_slashes s in if code c == b'\\' then "/" <> rest else String.◌∷◌ c rest

module _ {F : Type 0} where
  -- `filepath.Clean(base) + string(os.PathSeparator)`
  abbrev pub base_clean : Disk F → String → String
  base_clean disk base = disk.clean base <> "/"

  abbrev is_outward : Disk F → String → Bool
  is_outward disk clean = disk.is_abs clean || has_prefix (codes clean) (codes "..")

  unfoldable pub safe_join : Disk F → String → String → Result String
  unfolding with_slashes
  safe_join disk base target =
      let slashed = with_slashes target in
      let path = disk.join base (disk.clean slashed) in
      if contains_text (codes slashed) (codes ":")
      then err ("invalid path: " <> slashed)
      else if is_outward disk (disk.clean slashed)
      then err ("invalid path: " <> slashed)
      else if not (has_prefix (codes path) (codes (base_clean disk base)))
      then err ("invalid path: " <> slashed)
      else ok path

  -- `_ = os.Remove(path)`
  abbrev pub removed : Disk F → String → F → F
  removed disk path f = (disk.remove path f).1

  -- The checks of what was copied of an entry: the answer is the new total.
  unfoldable pub check_written : Disk F → ZipEntry → ℕ → ℕ → Call F ℕ
  check_written disk file total written =
      let total' = (total + written) % u64_mod in
      if ltb max_zip_file_bytes written
      then throw ("zip entry too large: " <> file.name)
      else if ltb max_zip_total_bytes total'
      then throw "zip uncompressed size exceeds 524288000 bytes"
      else pure total'

  -- Each error removes the file.
  unfoldable pub copy_to : Disk F → ZipEntry → String → ℕ → Call F ℕ
  unfolding check_written
  copy_to disk file path total = or_undo (removed disk path) (
      disk.copy_entry file path (max_zip_file_bytes + 1) >>= λ written.
      check_written disk file total written)

  unfoldable pub extract_to : Disk F → ZipEntry → String → ℕ → Call F ℕ
  unfolding copy_to
  extract_to disk file path total = do
    disk.mkdir_all (disk.dir path)
    disk.open_entry file
    disk.create path
    copy_to disk file path total

  abbrev pub extract_joined : Disk F → ZipEntry → ℕ → String → Call F ℕ
  extract_joined disk file total path =
      if file.is_dir then (disk.mkdir_all path >> pure total) else extract_to disk file path total

  unfoldable pub extract_zip_file : Disk F → ZipEntry → String → ℕ → Call F ℕ
  unfolding extract_to
  extract_zip_file disk file dest total =
      lift (safe_join disk dest file.name) >>= extract_joined disk file total

  unfoldable pub extract_from : Disk F → String → ℕ → List ZipEntry → Call F (Unit {0})
  extract_from disk dest total [] = pure tt
  extract_from disk dest total (file ∷ files) =
      extract_zip_file disk file dest total >>= λ next. extract_from disk dest next files

  unfoldable pub extract_zip : Disk F → String → String → Call F (Unit {0})
  unfolding extract_from
  extract_zip disk zip_path dest = do
    files ← context "failed to open zip: " (disk.open_reader zip_path)
    lift (validate_zip_archive files)
    extract_from disk dest 0 files

  abbrev pub forgive_missing : Disk F → String → Result (Unit {0}) → Call F (Unit {0})
  forgive_missing disk path (ok u) = pure tt
  forgive_missing disk path (err e) =
      if disk.is_not_exist e then pure tt else throw ("failed to remove " <> path <> ": " <> e)

  -- After `safeJoin`
  unfoldable pub write_at : Disk F → BuildInlineFile → String → Call F (Unit {0})
  write_at disk file path =
      if file.remove
      then (attempt (disk.remove path) >>= λ r. forgive_missing disk file.path r)
      else (disk.mkdir_all (disk.dir path)
          >> context ("failed to write " <> file.path <> ": ") (disk.write path file.content))

  unfoldable pub write_inline_file : Disk F → String → BuildInlineFile → Call F (Unit {0})
  unfolding write_at
  write_inline_file disk base file =
      if file.path == ""
      then throw "inline file path is required"
      else lift (safe_join disk base file.path) >>= λ path. write_at disk file path

  unfoldable pub write_inline_files : Disk F → String → List BuildInlineFile → Call F (Unit {0})
  unfolding write_inline_file
  write_inline_files disk base [] = pure tt
  write_inline_files disk base (file ∷ files) =
      write_inline_file disk base file >> write_inline_files disk base files

  unfoldable pub ensure_dir : Disk F → String → F → Result (Unit {0})
  ensure_dir disk path f = elim (disk.stat f path) [
    | ok is_dir ↦ if is_dir then ok tt else err (path <> " is not a directory")
    | err e ↦ err e
  ]

  abbrev single_subdir : Disk F → String → List (String × Bool) → String
  single_subdir disk path [] = path
  single_subdir disk path (e ∷ []) = if e.1 then disk.join path e.0 else path
  single_subdir disk path (e ∷ d ∷ entries) = path

  -- The path, and the error
  unfoldable pub resolve_single_subdir : Disk F → String → F → String × Result (Unit {0})
  resolve_single_subdir disk path f = elim (disk.read_dir f path) [
    | ok entries ↦ (single_subdir disk path entries, ok tt)
    | err e ↦ (path, err e)
  ]
