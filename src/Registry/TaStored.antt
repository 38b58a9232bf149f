-- ===== src/Registry/TaStored.antt =====
-- What mcRegistryStoreTABlob leaves in the registry.
use trustonic_tee_user_space.Prelude.{ℕ, ◌≡◌, List, some}
use trustonic_tee_user_space.Registry.{FileSystem, lookup_file}
use trustonic_tee_user_space.Registry.Paths.{ta_bin_path, ta_spid_path}
use trustonic_tee_user_space.Registry.TaBlob.{TaName, refused, system_ta, sp_ta, spid_bytes}

-- What the registry holds after a binary was stored under what the checks found.
unfoldable pub Stored : (fs : FileSystem) (spid : ℕ) (blob : List ℕ) → TaName → Type 0
Stored fs spid blob (refused code) = ⊥
Stored fs spid blob (system_ta uuid) = lookup_file (ta_bin_path uuid) fs.files ≡ some blob
Stored fs spid blob (sp_ta uuid) =
    (lookup_file (ta_bin_path uuid) fs.files ≡ some blob)
    × (lookup_file (ta_spid_path uuid) fs.files ≡ some (spid_bytes spid))
