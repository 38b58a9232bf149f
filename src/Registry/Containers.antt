-- ===== src/Registry/Containers.antt =====
-- mcRegistryStore… and mcRegistryRead… of the authentication token, the root, service provider and
-- Trustlet containers, and mcRegistryStoreData.
use trustonic_tee_user_space.Prelude.{
  ℕ, ◌*◌, Bool, false, not, List, [], ◌∷◌, Option, none, some, ◌==◌, ◌||◌, if◌then◌else◌, ltb,
  length, take,
}
use trustonic_tee_user_space.Status.{
  mc_drv_ok, invalid_device_file, invalid_parameter, mc_drv_err_unknown,
}
use trustonic_tee_user_space.Registry.{
  FileSystem, Disk, FilePath, same_digits, lookup_file, without_file, put_file, write_file,
  open_file, read_some, read_exact,
}
use trustonic_tee_user_space.Registry.Paths.{
  auth_token_path, auth_token_path_backup, root_cont_path, sp_cont_path, tl_cont_path,
  tl_data_folder, tl_data_path,
}

abbrev pub max_so_cont_size : ℕ
max_so_cont_size = 512

-- `none` is the null pointer; the size is that of the bytes.
unfoldable pub store_container : Disk → FileSystem → FilePath → Option (List ℕ) → ℕ × FileSystem
unfolding write_file
store_container disk fs p none = (invalid_parameter, fs)
store_container disk fs p (some so) =
    if ltb (3 * max_so_cont_size) (length so)
    then (invalid_parameter, fs)
    else write_file disk fs p so

unfoldable pub store_auth_token : Disk → FileSystem → Option (List ℕ) → ℕ × FileSystem
unfolding store_container
store_auth_token disk fs so = store_container disk fs (auth_token_path disk) so

unfoldable pub read_auth_token : Disk → FileSystem → ℕ × Option (List ℕ)
unfolding read_exact
read_auth_token disk fs = read_exact disk fs (auth_token_path disk) disk.auth_token_size

unfoldable pub read_auth_token_backup : Disk → FileSystem → ℕ × Option (List ℕ)
unfolding read_exact
read_auth_token_backup disk fs =
    read_exact disk fs (auth_token_path_backup disk) disk.auth_token_size

-- The token is renamed to its backup.
unfoldable pub delete_auth_token : Disk → FileSystem → ℕ × FileSystem
unfolding lookup_file without_file
delete_auth_token disk fs = elim (lookup_file (auth_token_path disk) fs.files) [
  | none ↦ (mc_drv_err_unknown, fs)
  | some content ↦
      if disk.can_rename fs
      then (
        mc_drv_ok,
        put_file (auth_token_path_backup disk) content
            (record fs { files = without_file (auth_token_path disk) fs.files }),
      )
      else (mc_drv_err_unknown, fs)
]

unfoldable pub store_root : Disk → FileSystem → Option (List ℕ) → ℕ × FileSystem
unfolding store_container
store_root disk fs so = store_container disk fs root_cont_path so

unfoldable pub read_root : Disk → FileSystem → (size : ℕ) → ℕ × Option (List ℕ)
unfolding read_some
read_root disk fs size = read_some disk fs root_cont_path size

unfoldable pub store_sp : Disk → FileSystem → (spid : ℕ) → Option (List ℕ) → ℕ × FileSystem
unfolding store_container
store_sp disk fs spid so =
    if spid == 0 then (invalid_parameter, fs) else store_container disk fs (sp_cont_path spid) so

unfoldable pub read_sp : Disk → FileSystem → (spid size : ℕ) → ℕ × Option (List ℕ)
unfolding read_some
read_sp disk fs spid size =
    if spid == 0 then (invalid_parameter, none) else read_some disk fs (sp_cont_path spid) size

unfoldable pub store_trustlet_con :
    Disk → FileSystem → (uuid : List ℕ) (spid : ℕ) → Option (List ℕ) → ℕ × FileSystem
unfolding store_container
store_trustlet_con disk fs uuid spid so = store_container disk fs (tl_cont_path uuid spid) so

unfoldable pub read_trustlet_con :
    Disk → FileSystem → (uuid : List ℕ) (spid size : ℕ) → ℕ × Option (List ℕ)
unfolding read_some open_file
read_trustlet_con disk fs uuid spid size = elim (open_file disk fs (tl_cont_path uuid spid)) [
  | none ↦ (invalid_device_file, none)
  | some content ↦
      if disk.can_seek fs (tl_cont_path uuid spid)
      then read_some disk fs (tl_cont_path uuid spid) size
      else (invalid_parameter, none)
]

-- CONT_TYPE_TLDATA
abbrev pub cont_type_tldata : ℕ
cont_type_tldata = 5

-- What the code reads of an `mcSoDataCont_t`; `so_size` is MC_SO_SIZE of its lengths, and the bytes
-- start with the container.
pub record DataCont : Type 0 where
  pub cont_type : ℕ
  pub uuid : List ℕ
  pub pid : ℕ
  pub so_size : ℕ
  pub bytes : List ℕ

unfoldable pub has_folder : List ℕ → List (List ℕ) → Bool
has_folder folder [] = false
has_folder folder (f ∷ fs) = same_digits f folder || has_folder folder fs

-- `mkdir` fails on a folder that is there.
unfoldable pub make_folder : Disk → FileSystem → List ℕ → Option FileSystem
unfolding has_folder
make_folder disk fs folder =
    if has_folder folder fs.folders
    then none
    else if disk.can_mkdir fs folder
    then some (record fs { folders = folder ∷ fs.folders })
    else none

unfoldable pub store_data : Disk → FileSystem → (size : ℕ) → Option DataCont → ℕ × FileSystem
unfolding make_folder write_file
store_data disk fs size none = (invalid_parameter, fs)
store_data disk fs size (some c) =
    if not (size == disk.data_cont_size)
    then (invalid_parameter, fs)
    else if c.cont_type == cont_type_tldata
    then elim (make_folder disk fs (tl_data_folder c.uuid)) [
      | none ↦ (invalid_parameter, fs)
      | some made ↦ write_file disk made (tl_data_path c.uuid c.pid) (take c.so_size c.bytes)
    ]
    else (invalid_parameter, fs)
