-- ===== src/Builds/Archive.antt =====
-- `validateZipArchive` of pkg/gateway/build_handlers.go. What archive/zip reads of an entry is a record;
-- sizes are `uint64`, and the running total wraps around.
pub mod Limits
use Prim.Native.String
use docker_faas.Base.{
  ℕ, ◌+◌, ◌*◌, ◌/◌, ◌%◌, ◌^◌, String, Bool, not, ◌&&◌, ◌||◌, List, [], ◌∷◌, ◌++◌, ltb,
  if◌then◌else◌, ◌==◌, length, contains, Result, ok, err, ◌>>=◌, ◌>>◌, nat_eq, string_eq, bool_eq,
}
use docker_faas.Base.Text.{codes, contains_text}

pub record ZipEntry : Type 0 where
  pub name : String
  pub is_dir : Bool
  pub is_symlink : Bool
  pub uncompressed_size : ℕ
  pub compressed_size : ℕ

abbrev pub max_zip_entries : ℕ
max_zip_entries = 2000

abbrev pub max_zip_file_bytes : ℕ
max_zip_file_bytes = 100 * 2 ^ 20

abbrev pub max_zip_total_bytes : ℕ
max_zip_total_bytes = 500 * 2 ^ 20

abbrev pub max_zip_compression_ratio : ℕ
max_zip_compression_ratio = 100

abbrev pub u64_mod : ℕ
u64_mod = 2 ^ 64

abbrev message : String → String → String
message text name = String.◌++◌ text name

-- The checks of one entry before its size is added.
unfoldable pub check_entry : ZipEntry → Result (Unit {0})
check_entry file =
    if file.name == ""
    then err "zip entry has empty name"
    else if contains_text (codes file.name) (0 ∷ []) || contains_text (codes file.name) (codes ":")
    then err (message "zip entry has invalid name: " file.name)
    else if file.is_symlink
    then err (message "zip entry uses symlink: " file.name)
    else if not file.is_dir && ltb max_zip_file_bytes file.uncompressed_size
    then err (message "zip entry too large: " file.name)
    else if ltb 0 file.compressed_size
        && ltb (2 ^ 20) file.uncompressed_size
        && ltb max_zip_compression_ratio (file.uncompressed_size / file.compressed_size)
    then err (message "zip entry compression ratio too high: " file.name)
    else ok tt

-- The loop over the entries, with the total so far.
unfoldable pub validate_entries : ℕ → List ZipEntry → Result (Unit {0})
unfolding check_entry
validate_entries total [] = ok tt
validate_entries total (file ∷ files) = do
  check_entry file
  let total' = (total + file.uncompressed_size) % u64_mod
  let rest = validate_entries total' files
  if ltb max_zip_total_bytes total'
      then err "zip uncompressed size exceeds 524288000 bytes"
      else rest

unfoldable pub validate_zip_archive : List ZipEntry → Result (Unit {0})
unfolding validate_entries
validate_zip_archive files =
    if ltb max_zip_entries (length files)
    then err "zip contains too many entries (max 2000)"
    else validate_entries 0 files
