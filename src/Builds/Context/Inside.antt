-- ===== src/Builds/Context/Inside.antt =====
-- The files that a build's sources write are inside the directory of its context.
use docker_faas.Base.{
  ℕ, ◌+◌, String, ◌≡◌, refl, sym, ap, ◌∙◌, ◌≢◌, inl, inr, Bool, true, false, List, [], ◌∷◌, arith,
  if◌then◌else◌, ◌==◌, Result, ok, err, nat_eq, string_eq, bool_eq,
}
use docker_faas.Base.Calls.{
  Call, ◌>>=◌, ◌>>◌, pure, throw, lift, context, attempt, or_undo, Result-cases, Keeps,
}
use docker_faas.Base.Text.{codes, has_prefix, ◌<>◌}
use docker_faas.Builds.Archive.{ZipEntry, max_zip_file_bytes, validate_zip_archive}
use docker_faas.Gateway.BuildRequest.{BuildInlineFile, written}
use docker_faas.Builds.Context.{
  Disk, with_slashes, base_clean, safe_join, removed, check_written, copy_to, extract_to,
  extract_joined, extract_zip_file, extract_from, extract_zip, forgive_missing, write_at,
  write_inline_file, write_inline_files,
}

-- What is relied on of the file system. `read` is the content of the file at a path, if there is one.
-- `Linkless` says of a path that it is clean and absolute, goes through no link, and that its file has
-- no other name: two such paths have two files. A call changes the content at its own path at most,
-- where the paths are such, and no call makes a link. `filepath.Join` answers a clean path.
pub record DiskLaws {F V : Type 0} (disk : Disk F) (read : F → String → V)
    (Linkless : F → String → Type 0) : Type 0 where
  pub join_clean : (base s : String) → disk.clean (disk.join base s) ≡ disk.join base s
  pub open_reader : (p q : String) → Keeps (λ f. read f q) (disk.open_reader p)
  pub open_entry : (file : ZipEntry) (q : String) → Keeps (λ f. read f q) (disk.open_entry file)
  pub mkdir_all : (p q : String) → Keeps (λ f. read f q) (disk.mkdir_all p)
  pub create :
      (p q : String) (f : F)
      → Linkless f p
      → Linkless f q
      → p ≢ q
      → read (disk.create p f).1 q ≡ read f q
  pub write :
      (p text q : String) (f : F)
      → Linkless f p
      → Linkless f q
      → p ≢ q
      → read (disk.write p text f).1 q ≡ read f q
  pub remove :
      (p q : String) (f : F)
      → Linkless f p
      → Linkless f q
      → p ≢ q
      → read (disk.remove p f).1 q ≡ read f q
  pub copy_entry :
      (file : ZipEntry) (p q : String) (limit : ℕ) (f : F)
      → Linkless f p
      → Linkless f q
      → p ≢ q
      → read (disk.copy_entry file p limit f).1 q ≡ read f q
  pub open_reader_links :
      (p r : String) (f : F) → Linkless f r → Linkless (disk.open_reader p f).1 r
  pub open_entry_links :
      (file : ZipEntry) (r : String) (f : F) → Linkless f r → Linkless (disk.open_entry file f).1 r
  pub mkdir_all_links : (p r : String) (f : F) → Linkless f r → Linkless (disk.mkdir_all p f).1 r
  pub create_links : (p r : String) (f : F) → Linkless f r → Linkless (disk.create p f).1 r
  pub write_links : (p text r : String) (f : F) → Linkless f r → Linkless (disk.write p text f).1 r
  pub remove_links : (p r : String) (f : F) → Linkless f r → Linkless (disk.remove p f).1 r
  pub copy_entry_links :
      (file : ZipEntry) (p r : String) (limit : ℕ) (f : F)
      → Linkless f r
      → Linkless (disk.copy_entry file p limit f).1 r

safe_join-prefix :
    {F : Type 0} (disk : Disk F) (base target path : String)
    → safe_join disk base target ≡ ok path
    → has_prefix (codes path) (codes (base_clean disk base)) ≡ true
unfolding safe_join
safe_join-prefix disk base target path h = ground (arith, h)

safe_join-join :
    {F : Type 0} (disk : Disk F) (base target path : String)
    → safe_join disk base target ≡ ok path
    → path ≡ disk.join base (disk.clean (with_slashes target))
unfolding safe_join
safe_join-join disk base target path h = ground (arith, h)

-- A call keeps the invariant of the state, and what is seen of a state with it.
abbrev Frames : {W V A : Type 0} → (W → Type 0) → (W → V) → Call W A → Type 0
Frames {W = W} I view call = (w : W) → I w → I (call w).1 × (view (call w).1 ≡ view w)

module _ {W V : Type 0} (I : W → Type 0) (view : W → V) where
  Frames-if :
      {A : Type 0} (b : Bool) (m k : Call W A)
      → Frames I view m
      → Frames I view k
      → Frames I view (if b then m else k)
  Frames-if true m k h i = h
  Frames-if false m k h i = i

  Frames-bind :
      {A B : Type 0} (m : Call W A) (f : A → Call W B)
      → Frames I view m
      → ((a : A) → Frames I view (f a))
      → Frames I view (m >>= f)
  Frames-bind m f h k w v = elim (Result-cases (m w).0) [
    | inl (a, e) ↦ let (v1, e1) = h w v in let (v2, e2) = k a (m w).1 v1 in rw e (v2, e2 ∙ e1)
    | inr (t, e) ↦ rw e (h w v)
  ]

  Frames-seq :
      {A B : Type 0} (m : Call W A) (k : Call W B)
      → Frames I view m
      → Frames I view k
      → Frames I view (m >> k)
  Frames-seq m k h i = Frames-bind m (λ _. k) h (λ _. i)

  Frames-or_undo :
      {A : Type 0} (undo : W → W) (call : Call W A)
      → ((w : W) → I w → I (undo w) × (view (undo w) ≡ view w))
      → Frames I view call
      → Frames I view (or_undo undo call)
  Frames-or_undo undo call u h w v = elim (Result-cases (call w).0) [
    | inl (a, e) ↦ rw e (h w v)
    | inr (t, e) ↦ let (v1, e1) = h w v in let (v2, e2) = u (call w).1 v1 in rw e (v2, e2 ∙ e1)
  ]

module _ {F V : Type 0} (disk : Disk F) (read : F → String → V) (Linkless : F → String → Type 0)
    (laws : DiskLaws disk read Linkless) (base q : String)
    (outside : has_prefix (codes q) (codes (base_clean disk base)) ≡ false) where
  -- No clean path inside the directory goes through a link, and the path outside does not, either.
  abbrev pub NoLinks : F → Type 0
  NoLinks f =
      ((r : String)
        → disk.clean r ≡ r
        → has_prefix (codes r) (codes (base_clean disk base)) ≡ true
        → Linkless f r)
      × Linkless f q

  abbrev seen : F → V
  seen f = read f q

  -- A clean path inside the directory
  abbrev Inside : String → Type 0
  Inside p = (disk.clean p ≡ p) × (has_prefix (codes p) (codes (base_clean disk base)) ≡ true)

  safe_join-Inside : (target path : String) → safe_join disk base target ≡ ok path → Inside path
  safe_join-Inside target path h =
      let joined = safe_join-join disk base target path h in
      (
        ap disk.clean joined ∙ laws.join_clean base (disk.clean (with_slashes target)) ∙ sym joined,
        safe_join-prefix disk base target path h,
      )

  Inside-apart : (p : String) → Inside p → p ≢ q
  Inside-apart p (c, i) e =
      let inside : has_prefix (codes q) (codes (base_clean disk base)) ≡ true = rw (sym e) i in
      cc (inside, outside)

  -- A call that makes no link and changes nothing
  quiet-Frames :
      {A : Type 0} (call : Call F A)
      → ((r : String) (f : F) → Linkless f r → Linkless (call f).1 r)
      → Keeps seen call
      → Frames NoLinks seen call
  quiet-Frames call l k f (n, o) = (((λ r c i. l r f (n r c i)), l q f o), k f)

  -- A call that makes no link and changes the content at a path inside the directory at most
  Inside-Frames :
      {A : Type 0} (p : String) (call : Call F A)
      → Inside p
      → ((r : String) (f : F) → Linkless f r → Linkless (call f).1 r)
      → ((f : F) → Linkless f p → Linkless f q → p ≢ q → seen (call f).1 ≡ seen f)
      → Frames NoLinks seen call
  Inside-Frames p call (c, i) l k f (n, o) =
      (((λ r d j. l r f (n r d j)), l q f o), k f (n p c i) o (Inside-apart p (c, i)))

  removed-Frames :
      (p : String)
      → Inside p
      → (f : F) → NoLinks f
      → NoLinks (removed disk p f) × (seen (removed disk p f) ≡ seen f)
  removed-Frames p i =
      Inside-Frames p (disk.remove p) i (laws.remove_links p) (λ f. laws.remove p q f)

  made-Frames : (p : String) → Frames NoLinks seen (disk.mkdir_all p)
  made-Frames p = quiet-Frames (disk.mkdir_all p) (laws.mkdir_all_links p) (laws.mkdir_all p q)

  still : {A : Type 0} (r : Result A) → Frames NoLinks seen (lift r)
  still r f v = (v, refl)

  -- A call on a path that was joined to the base
  joined-Frames :
      {A : Type 0} (target : String) (k : String → Call F A)
      → ((path : String) → Inside path → Frames NoLinks seen (k path))
      → Frames NoLinks seen (lift (safe_join disk base target) >>= k)
  joined-Frames target k h w v = elim (Result-cases (safe_join disk base target)) [
    | inl (path, e) ↦ rw e (h path (safe_join-Inside target path e) w v)
    | inr (t, e) ↦ rw e (v, refl)
  ]

  check_written-state :
      (file : ZipEntry) (total written : ℕ) (w : F)
      → (check_written disk file total written w).1 ≡ w
  unfolding check_written
  check_written-state file total written w = ground arith

  check_written-Frames :
      (file : ZipEntry) (total written : ℕ)
      → Frames NoLinks seen (check_written disk file total written)
  check_written-Frames file total written w v =
      rw (check_written-state file total written w) (v, refl)

  copy_to-Frames :
      (file : ZipEntry) (path : String) (total : ℕ)
      → Inside path
      → Frames NoLinks seen (copy_to disk file path total)
  unfolding copy_to
  copy_to-Frames file path total n =
      let copied = disk.copy_entry file path (max_zip_file_bytes + 1) in
      Frames-or_undo NoLinks seen (removed disk path) (copied >>= check_written disk file total)
        (removed-Frames path n)
        (Frames-bind NoLinks seen copied (check_written disk file total)
          (Inside-Frames path copied n
            (λ r. laws.copy_entry_links file path r (max_zip_file_bytes + 1))
            (laws.copy_entry file path q (max_zip_file_bytes + 1)))
          (check_written-Frames file total))

  extract_to-Frames :
      (file : ZipEntry) (path : String) (total : ℕ)
      → Inside path
      → Frames NoLinks seen (extract_to disk file path total)
  unfolding extract_to
  extract_to-Frames file path total n =
      let copied = copy_to disk file path total in
      let created = disk.create path >> copied in
      Frames-seq NoLinks seen (disk.mkdir_all (disk.dir path)) (disk.open_entry file >> created)
        (made-Frames (disk.dir path))
        (Frames-seq NoLinks seen (disk.open_entry file) created
          (quiet-Frames (disk.open_entry file) (laws.open_entry_links file)
            (laws.open_entry file q))
          (Frames-seq NoLinks seen (disk.create path) copied
            (Inside-Frames path (disk.create path) n (laws.create_links path) (laws.create path q))
            (copy_to-Frames file path total n)))

  extract_joined-Frames :
      (file : ZipEntry) (total : ℕ) (path : String)
      → Inside path
      → Frames NoLinks seen (extract_joined disk file total path)
  extract_joined-Frames file total path n =
      let made = disk.mkdir_all path >> pure total in
      Frames-if NoLinks seen file.is_dir made (extract_to disk file path total)
        (Frames-seq NoLinks seen (disk.mkdir_all path) (pure total) (made-Frames path)
          (still (ok total)))
        (extract_to-Frames file path total n)

  extract_zip_file-Frames :
      (file : ZipEntry) (total : ℕ) → Frames NoLinks seen (extract_zip_file disk file base total)
  unfolding extract_zip_file
  extract_zip_file-Frames file total =
      joined-Frames file.name (extract_joined disk file total) (extract_joined-Frames file total)

  extract_from-Frames :
      (total : ℕ) (files : List ZipEntry) → Frames NoLinks seen (extract_from disk base total files)
  unfolding extract_from
  extract_from-Frames total [] = still (ok tt)
  extract_from-Frames total (file ∷ files) =
      Frames-bind NoLinks seen (extract_zip_file disk file base total)
        (λ next. extract_from disk base next files) (extract_zip_file-Frames file total)
        (λ next. extract_from-Frames next files)

  extract_zip-Frames : (zip_path : String) → Frames NoLinks seen (extract_zip disk zip_path base)
  unfolding extract_zip
  extract_zip-Frames zip_path =
      let extracted : List ZipEntry → Call F (Unit {0}) =
        λ files. lift (validate_zip_archive files) >> extract_from disk base 0 files in
      Frames-bind NoLinks seen (context "failed to open zip: " (disk.open_reader zip_path))
        extracted
        (quiet-Frames (disk.open_reader zip_path) (laws.open_reader_links zip_path)
          (laws.open_reader zip_path q))
        (λ files.
          Frames-seq NoLinks seen (lift (validate_zip_archive files))
            (extract_from disk base 0 files) (still (validate_zip_archive files))
            (extract_from-Frames 0 files))

  forgive_missing-Frames :
      (path : String) (r : Result (Unit {0})) → Frames NoLinks seen (forgive_missing disk path r)
  forgive_missing-Frames path (ok u) = still (ok tt)
  forgive_missing-Frames path (err e) =
      Frames-if NoLinks seen (disk.is_not_exist e) (pure tt)
        (throw ("failed to remove " <> path <> ": " <> e)) (still (ok tt)) (λ w v. (v, refl))

  write_at-Frames :
      (file : BuildInlineFile) (path : String)
      → Inside path
      → Frames NoLinks seen (write_at disk file path)
  unfolding write_at
  write_at-Frames file path n =
      let forgiven = forgive_missing disk file.path in
      let made = disk.mkdir_all (disk.dir path) in
      let written =
        context ("failed to write " <> file.path <> ": ") (disk.write path file.content) in
      Frames-if NoLinks seen file.remove (attempt (disk.remove path) >>= forgiven) (made >> written)
        (Frames-bind NoLinks seen (attempt (disk.remove path)) forgiven (removed-Frames path n)
          (forgive_missing-Frames file.path))
        (Frames-seq NoLinks seen made written (made-Frames (disk.dir path)) (
          Inside-Frames path (disk.write path file.content) n (laws.write_links path file.content)
            (laws.write path file.content q)))

  write_inline_file-Frames :
      (file : BuildInlineFile) → Frames NoLinks seen (write_inline_file disk base file)
  unfolding write_inline_file
  write_inline_file-Frames file =
      Frames-if NoLinks seen (file.path == "") (throw "inline file path is required")
        (lift (safe_join disk base file.path) >>= write_at disk file) (λ w v. (v, refl))
        (joined-Frames file.path (write_at disk file) (write_at-Frames file))

  write_inline_files-Frames :
      (files : List BuildInlineFile) → Frames NoLinks seen (write_inline_files disk base files)
  unfolding write_inline_files
  write_inline_files-Frames [] = still (ok tt)
  write_inline_files-Frames (file ∷ files) =
      Frames-seq NoLinks seen (write_inline_file disk base file)
        (write_inline_files disk base files) (write_inline_file-Frames file)
        (write_inline_files-Frames files)

  -- In a directory in which no path goes through a link: the content at a path outside the directory,
  -- one that does not begin with its name and a slash and goes through no link, is the same after an
  -- archive is extracted into the directory and after inline files are written to it, also where these
  -- fail.
  pub outside-Kept :
      (zip_path : String) (files : List BuildInlineFile) (f : F)
      → NoLinks f
      → (read (extract_zip disk zip_path base f).1 q ≡ read f q)
        × (read (write_inline_files disk base files f).1 q ≡ read f q)
  outside-Kept zip_path files f n =
      ((extract_zip-Frames zip_path f n).1, (write_inline_files-Frames files f n).1)
