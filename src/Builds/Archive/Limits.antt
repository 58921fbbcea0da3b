-- ===== src/Builds/Archive/Limits.antt =====
-- What an archive that passes the checks can hold.
use mathlib.Core.Bool.{false≢true}
use docker_faas.Base.{
  ℕ, ◌+◌, ◌/◌, ◌%◌, ◌^◌, ◌≤◌, ◌<◌, String, ◌≡◌, sym, ◌∙◌, ◌≢◌, ◌⊎◌, inl, inr, true, false, List, [],
  ◌∷◌, arith, eq_iff, ltb, if◌then◌else◌, length, All, Result, ok, err, >>-eq-ok,
}
use docker_faas.Base.Text.{codes, contains_text}
use docker_faas.Builds.Archive.{
  ZipEntry, max_zip_entries, max_zip_file_bytes, max_zip_total_bytes, max_zip_compression_ratio,
  u64_mod, check_entry, validate_entries, validate_zip_archive,
}

-- An entry that is safe to extract. `size` bounds files only: the code does not bound what a
-- directory entry declares.
pub record IsSafe (file : ZipEntry) : Type 0 where
  pub named : file.name ≢ ""
  pub no_nul : contains_text (codes file.name) (0 ∷ []) ≡ false
  pub no_colon : contains_text (codes file.name) (codes ":") ≡ false
  pub no_symlink : file.is_symlink ≡ false
  pub size : (file.is_dir ≡ true) ⊎ (file.uncompressed_size ≤ max_zip_file_bytes)
  pub ratio :
      (file.compressed_size ≡ 0)
      ⊎ (file.uncompressed_size ≤ 2 ^ 20)
      ⊎ (file.uncompressed_size / file.compressed_size ≤ max_zip_compression_ratio)

pub declared : List ZipEntry → ℕ
declared [] = 0
declared (file ∷ files) = file.uncompressed_size + declared files

check_entry-IsSafe : (file : ZipEntry) → check_entry file ≡ ok tt → IsSafe file
unfolding check_entry
check_entry-IsSafe file h = record {
  named = ground (arith, eq_iff file.name "");
  no_nul = ground arith;
  no_colon = ground arith;
  no_symlink = ground arith;
  size = ground arith;
  ratio = ground arith;
}

-- A directory entry that declares less than 2^64 bytes less the limit of the total.
abbrev pub SmallDirectory : ZipEntry → Type 0
SmallDirectory file =
    (file.is_dir ≡ false) ⊎ (file.uncompressed_size + max_zip_total_bytes < u64_mod)

size_fits :
    (file : ZipEntry)
    → IsSafe file
    → SmallDirectory file
    → file.uncompressed_size + max_zip_total_bytes < u64_mod
size_fits file safe small = elim small [
  | inr fits ↦ fits
  | inl plain ↦ elim safe.size [
    | inl dir ↦ absurd (false≢true (sym plain ∙ dir))
    | inr bound ↦ omega (arith, bound)
  ]
]

rest_of_ok :
    (n : ℕ) (rest : Result (Unit {0})) (e : String)
    → (if ltb max_zip_total_bytes n then err e else rest) ≡ ok tt
    → (n ≤ max_zip_total_bytes) × (rest ≡ ok tt)
rest_of_ok n rest e h = ground arith

validate_entries-IsSafe :
    (total : ℕ) (files : List ZipEntry)
    → total ≤ max_zip_total_bytes
    → All SmallDirectory files
    → validate_entries total files ≡ ok tt
    → All IsSafe files × (total + declared files ≤ max_zip_total_bytes)
unfolding validate_entries declared
validate_entries-IsSafe total [] t d h = (tt, omega arith)
validate_entries-IsSafe total (file ∷ files) t (small, d) h =
    let (checked, rest) = >>-eq-ok (check_entry file) _ h in
    let safe = check_entry-IsSafe file checked in
    let fits : file.uncompressed_size + max_zip_total_bytes < u64_mod = size_fits file safe small in
    let e : (total + file.uncompressed_size) % u64_mod ≡ total + file.uncompressed_size =
      omega arith in
    let (room, later) = rest_of_ok _ _ _ (rw e at rest) in
    let (all_safe, bound) =
      validate_entries-IsSafe (total + file.uncompressed_size) files room d later in
    ((safe, all_safe), omega arith)

-- Where no directory entry declares nearly 2^64 bytes, an archive that passes the checks has at
-- most 2000 entries, each of them safe, and its entries declare at most the total limit together.
pub validate_zip_archive-IsSafe :
    (files : List ZipEntry)
    → All SmallDirectory files
    → validate_zip_archive files ≡ ok tt
    → (length files ≤ max_zip_entries) × All IsSafe files × (declared files ≤ max_zip_total_bytes)
unfolding validate_zip_archive
validate_zip_archive-IsSafe files d h =
    let (all_safe, bound) = validate_entries-IsSafe 0 files (omega arith) d (ground arith) in
    (ground arith, all_safe, omega arith)
