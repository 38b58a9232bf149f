-- ===== src/Registry/TaBlob.antt =====
-- mcRegistryStoreTABlob: the checks of a Trusted Application's binary and the files it is stored in.
-- The binary is its bytes; a field is read at its offset in mclfHeaderV24_t (common/MobiCore/inc/
-- mcLoadFormat.h) or uuid_attestation, and `none` is a read past the end of the binary.
use trustonic_tee_user_space.Prelude.{
  ℕ, ◌+◌, ◌*◌, ◌^◌, ◌/◌, ◌%◌, not, List, [], ◌∷◌, Option, none, some, ◌==◌, ◌&&◌, if◌then◌else◌,
  ltb, length, take, drop,
}
use trustonic_tee_user_space.Prelude.Words.{add32}
use trustonic_tee_user_space.Status.{
  mc_drv_ok, invalid_parameter, ta_header_error, ta_attestation_error,
}
use trustonic_tee_user_space.Registry.{Disk, FileSystem, same_digits, write_file}
use trustonic_tee_user_space.Registry.Paths.{ta_bin_path, ta_spid_path}

infixl 5 ◌>>=◌
abbrev pub ◌>>=◌ {ℓ κ} : {A : Type ℓ} {B : Type κ} → Option A → (A → Option B) → Option B
none >>= f = none
some a >>= f = f a

-- `count` bytes at an offset.
unfoldable pub bytes_at : (blob : List ℕ) (offset count : ℕ) → Option (List ℕ)
bytes_at blob offset count =
    if ltb (length blob) (offset + count) then none else some (take count (drop offset blob))

-- The value of bytes, the lowest first.
unfoldable pub little_endian : List ℕ → ℕ
little_endian [] = 0
little_endian (b ∷ bs) = b + 256 * little_endian bs

-- getAsUint32BE
unfoldable pub big_endian : (high : ℕ) → List ℕ → ℕ
big_endian high [] = high
big_endian high (b ∷ bs) = big_endian (high * 256 + b) bs

unfoldable pub word_at : (blob : List ℕ) (offset : ℕ) → Option ℕ
unfolding bytes_at little_endian
word_at blob offset = bytes_at blob offset 4 >>= λ bytes. some (little_endian bytes)

unfoldable pub get_as_uint32_be : (blob : List ℕ) (offset : ℕ) → Option ℕ
unfolding bytes_at big_endian
get_as_uint32_be blob offset = bytes_at blob offset 4 >>= λ bytes. some (big_endian 0 bytes)

abbrev pub header_size : ℕ
header_size = 104

-- MC_MAKE_VERSION(2, 4)
abbrev pub version_2_4 : ℕ
version_2_4 = 2 * 2 ^ 16 + 4

abbrev pub mc_spid_system : ℕ
mc_spid_system = 0xFFFFFFFE

abbrev pub service_type_sp_trustlet : ℕ
service_type_sp_trustlet = 2

abbrev pub service_type_system_trustlet : ℕ
service_type_system_trustlet = 3

-- sizeof(uuid_attestation)
abbrev pub attestation_size : ℕ
attestation_size = 40

-- "TAUUID\0" and the zero that ends it
abbrev pub attestation_magic : List ℕ
attestation_magic = 84 ∷ 65 ∷ 85 ∷ 85 ∷ 73 ∷ 68 ∷ 0 ∷ 0 ∷ []

abbrev pub at_version : ℕ
at_version = 1

-- What the checks find: a code, or the UUID that names the files.
pub data TaName : Type 0 where
  refused : (code : ℕ) → TaName
  system_ta : (ta_uuid : List ℕ) → TaName
  sp_ta : (ta_uuid : List ℕ) → TaName

-- The UUID of the attestation at an offset.
unfoldable pub attested_uuid : (blob : List ℕ) (offset : ℕ) → Option TaName
unfolding bytes_at get_as_uint32_be
attested_uuid blob offset = do
  size ← get_as_uint32_be blob (offset + 8)
  if ltb (length blob) offset && ltb (length blob) (add32 offset size)
      then some (refused ta_header_error)
      else if ltb size attestation_size
      then some (refused ta_attestation_error)
      else do
        magic ← bytes_at blob offset 8
        if not (same_digits magic attestation_magic)
            then some (refused ta_attestation_error)
            else do
              version ← get_as_uint32_be blob (offset + 12)
              if not (version == at_version)
                  then some (refused ta_attestation_error)
                  else do uuid ← bytes_at blob (offset + 16) 16; some (sp_ta uuid)

-- The checks of the fields, in the order of the code.
unfoldable pub check_header :
    (spid : ℕ) (blob : List ℕ) (version gp_level service_type attestation_offset : ℕ)
    → Option TaName
unfolding bytes_at attested_uuid
check_header spid blob version gp_level service_type attestation_offset =
    if ltb version version_2_4
    then some (refused ta_header_error)
    else if not (gp_level == 1)
    then some (refused ta_header_error)
    else if service_type == service_type_system_trustlet
    then if not (spid == mc_spid_system)
      then some (refused invalid_parameter)
      else (bytes_at blob 24 16 >>= λ uuid. some (system_ta uuid))
    else if service_type == service_type_sp_trustlet
    then if not (ltb spid mc_spid_system)
      then some (refused invalid_parameter)
      else attested_uuid blob attestation_offset
    else some (refused invalid_parameter)

unfoldable pub ta_name : (spid : ℕ) (blob : List ℕ) → Option TaName
unfolding bytes_at word_at check_header
ta_name spid blob = if ltb (length blob) header_size then some (refused invalid_parameter) else do
  version ← word_at blob 4
  gp_level ← word_at blob 96
  service_type ← word_at blob 16
  attestation_offset ← word_at blob 100
  check_header spid blob version gp_level service_type attestation_offset

abbrev pub spid_bytes : (spid : ℕ) → List ℕ
spid_bytes spid = spid % 256 ∷ spid / 2 ^ 8 % 256 ∷ spid / 2 ^ 16 % 256 ∷ spid / 2 ^ 24 % 256 ∷ []

unfoldable pub store_named :
    Disk → FileSystem → (spid : ℕ) (blob : List ℕ) → TaName → ℕ × FileSystem
unfolding write_file
store_named disk fs spid blob (refused code) = (code, fs)
store_named disk fs spid blob (system_ta uuid) = write_file disk fs (ta_bin_path uuid) blob
store_named disk fs spid blob (sp_ta uuid) =
    let (ret, stored) = write_file disk fs (ta_bin_path uuid) blob in
    if ret == mc_drv_ok
    then write_file disk stored (ta_spid_path uuid) (spid_bytes spid)
    else (ret, stored)

unfoldable pub store_ta_blob :
    Disk → FileSystem → (spid : ℕ) (blob : List ℕ) → Option (ℕ × FileSystem)
unfolding ta_name store_named
store_ta_blob disk fs spid blob = do
  found ← ta_name spid blob
  some (store_named disk fs spid blob found)
