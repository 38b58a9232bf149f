-- ===== src/Registry.antt =====
-- The registry: MobiCoreDriverLib/Registry/PrivateRegistry.cpp, over a file system.
-- A path has the hex digits of the name, as numbers, and an extension; the registry's own folder is
-- left out. What the C library's calls on files may refuse is a parameter, in `Disk`.
pub mod Paths
pub mod Containers
pub mod Files
pub mod Names
pub mod RoundTrips
pub mod Data
pub mod TaBlob
pub mod TaChecks
pub mod TaReads
pub mod TaStored
pub mod Tests
use trustonic_tee_user_space.Prelude.{
  ℕ, Bool, true, false, not, List, [], ◌∷◌, Option, none, some, ◌==◌, ◌&&◌, if◌then◌else◌, length,
  take,
}
use trustonic_tee_user_space.Status.{
  mc_drv_ok, invalid_device_file, invalid_parameter, out_of_resources,
}

-- The extensions of the registry's files.
pub data Extension : Type 0 where
  authtokcont authtokcont_backup rootcont spcont tlcont datacont tabin spid_file : Extension

abbrev pub ext_number : Extension → ℕ
ext_number authtokcont = 0
ext_number authtokcont_backup = 1
ext_number rootcont = 2
ext_number spcont = 3
ext_number tlcont = 4
ext_number datacont = 5
ext_number tabin = 6
ext_number spid_file = 7

pub record FilePath : Type 0 where
  pub folder : List ℕ
  pub name : List ℕ
  pub ext : Extension

abbrev pub same_digits : List ℕ → List ℕ → Bool
same_digits [] [] = true
same_digits [] (y ∷ ys) = false
same_digits (x ∷ xs) [] = false
same_digits (x ∷ xs) (y ∷ ys) = x == y && same_digits xs ys

unfoldable pub same_path : FilePath → FilePath → Bool
same_path p q =
    same_digits p.folder q.folder
    && same_digits p.name q.name
    && ext_number p.ext == ext_number q.ext

-- The newest entry of a path counts.
pub record FileSystem : Type 0 where
  pub files : List (FilePath × List ℕ)
  pub folders : List (List ℕ)

unfoldable pub lookup_file : FilePath → List (FilePath × List ℕ) → Option (List ℕ)
lookup_file p [] = none
lookup_file p ((q, content) ∷ fs) = if same_path q p then some content else lookup_file p fs

unfoldable pub without_file : FilePath → List (FilePath × List ℕ) → List (FilePath × List ℕ)
without_file p [] = []
without_file p ((q, content) ∷ fs) =
    let rest = without_file p fs in if same_path q p then rest else (q, content) ∷ rest

abbrev pub put_file : FilePath → List ℕ → FileSystem → FileSystem
put_file p content fs = record fs { files = (p, content) ∷ fs.files }

pub record Disk : Type 0 where
  pub can_create : FileSystem → FilePath → Bool
  pub can_open : FileSystem → FilePath → Bool
  pub can_seek : FileSystem → FilePath → Bool
  -- the number of bytes after which writing fails, if it does
  pub write_error : FileSystem → FilePath → (size : ℕ) → Option ℕ
  pub can_read : FileSystem → FilePath → Bool
  pub can_rename : FileSystem → Bool
  pub can_mkdir : FileSystem → (folder : List ℕ) → Bool
  -- the folder that the environment gives for the authentication token
  pub auth_token_folder : List ℕ
  -- sizeof(mcSoAuthTokenCont_t), sizeof(mcSoRootCont_t) and sizeof(mcSoDataCont_t)
  pub auth_token_size : ℕ
  pub root_cont_size : ℕ
  pub data_cont_size : ℕ

-- `fopen` for writing, which truncates, `fseek`, `fwrite`, `fclose`, with the codes of the registry.
unfoldable pub write_file : Disk → FileSystem → FilePath → List ℕ → ℕ × FileSystem
write_file disk fs p bytes =
    let opened = put_file p [] fs in
    if not (disk.can_create fs p)
    then (invalid_device_file, fs)
    else if not (disk.can_seek opened p)
    then (invalid_parameter, opened)
    else elim (disk.write_error opened p (length bytes)) [
      | none ↦ (mc_drv_ok, put_file p bytes opened)
      | some n ↦ (out_of_resources, put_file p (take n bytes) opened)
    ]

-- `fopen` for reading.
unfoldable pub open_file : Disk → FileSystem → FilePath → Option (List ℕ)
unfolding lookup_file
open_file disk fs p = if disk.can_open fs p then lookup_file p fs.files else none

-- At most `size` bytes of a file, but at least one.
unfoldable pub read_some : Disk → FileSystem → FilePath → (size : ℕ) → ℕ × Option (List ℕ)
unfolding open_file
read_some disk fs p size = elim (open_file disk fs p) [
  | none ↦ (invalid_device_file, none)
  | some content ↦
      if disk.can_read fs p
      then elim (take size content) [
        | [] ↦ (invalid_device_file, none)
        | b ∷ bs ↦ (mc_drv_ok, some (b ∷ bs))
      ]
      else (invalid_parameter, none)
]

-- A file of exactly the size.
unfoldable pub read_exact : Disk → FileSystem → FilePath → (size : ℕ) → ℕ × Option (List ℕ)
unfolding open_file
read_exact disk fs p size = elim (open_file disk fs p) [
  | none ↦ (invalid_device_file, none)
  | some content ↦
      if not (disk.can_seek fs p)
      then (invalid_parameter, none)
      else if not (size == length content)
      then (out_of_resources, none)
      else if disk.can_read fs p
      then (mc_drv_ok, some content)
      else (invalid_parameter, none)
]
