-- ===== src/Registry/Paths.antt =====
-- The names of the registry's files: uint32ToString, byteArrayToString and the get…FilePath functions.
use trustonic_tee_user_space.Prelude.{ℕ, zero, suc, ◌/◌, ◌%◌, List, [], ◌∷◌, ◌++◌}
use trustonic_tee_user_space.Registry.{
  FilePath, Disk, authtokcont, authtokcont_backup, rootcont, spcont, tlcont, datacont, tabin,
  spid_file,
}

-- The hex digits of a number, the lowest first.
unfoldable pub digits : (count value : ℕ) → List ℕ
digits zero value = []
digits (suc count) value = value % 16 ∷ digits count (value / 16)

-- `%08X`, reversed.
unfoldable pub uint32_to_string : ℕ → List ℕ
unfolding digits
uint32_to_string value = digits 8 value

-- `%02x` for each byte.
unfoldable pub byte_array_to_string : List ℕ → List ℕ
byte_array_to_string [] = []
byte_array_to_string (b ∷ bs) = b / 16 % 16 ∷ b % 16 ∷ byte_array_to_string bs

abbrev pub eight_zeros : List ℕ
eight_zeros = 0 ∷ 0 ∷ 0 ∷ 0 ∷ 0 ∷ 0 ∷ 0 ∷ 0 ∷ []

abbrev pub auth_token_path : Disk → FilePath
auth_token_path disk = record {
  folder = disk.auth_token_folder;
  name = eight_zeros;
  ext = authtokcont;
}

abbrev pub auth_token_path_backup : Disk → FilePath
auth_token_path_backup disk = record {
  folder = disk.auth_token_folder;
  name = eight_zeros;
  ext = authtokcont_backup;
}

abbrev pub root_cont_path : FilePath
root_cont_path = record { folder = []; name = eight_zeros; ext = rootcont }

abbrev pub sp_cont_path : ℕ → FilePath
sp_cont_path spid = record { folder = []; name = uint32_to_string spid; ext = spcont }

-- The point between the two parts of the name is the number 16.
abbrev pub tl_cont_path : (uuid : List ℕ) (spid : ℕ) → FilePath
tl_cont_path uuid spid = record {
  folder = [];
  name = byte_array_to_string uuid ++ 16 ∷ uint32_to_string spid;
  ext = tlcont;
}

abbrev pub tl_data_folder : (uuid : List ℕ) → List ℕ
tl_data_folder uuid = byte_array_to_string uuid

abbrev pub tl_data_path : (uuid : List ℕ) (pid : ℕ) → FilePath
tl_data_path uuid pid = record {
  folder = tl_data_folder uuid;
  name = uint32_to_string pid;
  ext = datacont;
}

-- In the writable registry.
abbrev pub ta_bin_path : (uuid : List ℕ) → FilePath
ta_bin_path uuid = record { folder = []; name = byte_array_to_string uuid; ext = tabin }

abbrev pub ta_spid_path : (uuid : List ℕ) → FilePath
ta_spid_path uuid = record { folder = []; name = byte_array_to_string uuid; ext = spid_file }
