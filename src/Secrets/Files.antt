-- ===== src/Secrets/Files.antt =====
-- What the secret manager asks of the file system and of the base64 decoder, and what it relies on.
use docker_faas.Base.{String, ◌≡◌, ◌≢◌, Bool, Option, some, List, Result, ok, err}
use docker_faas.Base.Calls.{Call}

-- An answer with an error for which `os.IsNotExist` holds, or another error
pub data Access (A : Type 0) : Type 0 where
  got : A → Access A
  not_exist : String → Access A
  failed : String → Access A

-- `filepath.Join`, `base64.StdEncoding.DecodeString`, and the calls of `os`. `read_dir` lists the
-- names and whether they are directories.
pub record FileSystem (F : Type 0) : Type 0 where
  pub join : String → String → String
  pub decode : String → Option String
  pub stat : F → String → Access (Unit {0})
  pub read : F → String → Access String
  pub read_dir : F → String → Result (List (String × Bool))
  pub mkdir_all : String → Call F (Unit {0})
  pub write : String → String → Call F (Unit {0})
  pub remove : String → Call F (Unit {0})

-- What is relied on of `os`. `file` is the content that a path has for `ReadFile`: `none` where there is
-- nothing, or a directory, or no right to read. `Same` says that two paths reach one file, as aliases
-- and links do: a call changes what is at those paths that reach the file of its own path, at most.
-- A write that fails may leave a part of the file; one to a path where `Stat` found nothing makes a
-- file when it succeeds. No write takes away what `Stat` found.
pub record FileLaws {F : Type 0} (fs : FileSystem F) (file : F → String → Option String)
    (Same : F → String → String → Type 0) : Type 0 where
  pub stat_some : (f : F) (p c : String) → file f p ≡ some c → fs.stat f p ≡ got tt
  pub read_some : (f : F) (p c : String) → file f p ≡ some c → fs.read f p ≡ got c
  pub same_file : (f : F) (p q : String) → Same f p q → file f p ≡ file f q
  pub write_stat :
      (p c q : String) (f : F) → fs.stat f q ≡ got tt → fs.stat (fs.write p c f).1 q ≡ got tt
  pub write_ok :
      (p c : String) (f : F)
      → fs.stat f p ≢ got tt
      → (fs.write p c f).0 ≡ ok tt
      → file (fs.write p c f).1 p ≡ some c
  pub write_other : (p c q : String) (f : F) → ¬ Same f p q → file (fs.write p c f).1 q ≡ file f q
  pub remove_ok :
      (p : String) (f : F) → (fs.remove p f).0 ≡ ok tt → fs.stat (fs.remove p f).1 p ≢ got tt
  pub remove_err :
      (p e : String) (f : F) → (fs.remove p f).0 ≡ err e → file (fs.remove p f).1 p ≡ file f p
  pub remove_other : (p q : String) (f : F) → ¬ Same f p q → file (fs.remove p f).1 q ≡ file f q
  pub remove_same : (p q : String) (f : F) → ¬ Same f p q → ¬ Same (fs.remove p f).1 p q
