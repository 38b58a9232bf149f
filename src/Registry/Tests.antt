-- ===== src/Registry/Tests.antt =====
-- A disk on which every call succeeds, and the registry's theorems on it.
use trustonic_tee_user_space.Prelude.{
  ℕ, ◌+◌, ◌≤◌, ap, length, zero, suc, ◌++◌, ◌≡◌, refl, true, [], ◌∷◌, some, none, arith, List,
}
use trustonic_tee_user_space.Status.{mc_drv_ok, invalid_parameter, invalid_device_file}
use trustonic_tee_user_space.Registry.{Disk, FileSystem, lookup_file, same_path}
use trustonic_tee_user_space.Registry.Paths.{sp_cont_path, auth_token_path}
use trustonic_tee_user_space.Registry.Containers.{
  DataCont, store_sp, delete_auth_token, read_auth_token, read_auth_token_backup, store_data,
  cont_type_tldata,
}
use trustonic_tee_user_space.Registry.RoundTrips.{store_sp-others, delete_auth_token-read}
use trustonic_tee_user_space.Registry.Data.{store_data-once}
use trustonic_tee_user_space.Registry.TaBlob.{
  sp_ta, store_named, word_at, store_ta_blob, attestation_magic,
}
use trustonic_tee_user_space.Registry.TaReads.{store_ta_blob-in_bounds}

abbrev pub working : Disk
working = record {
  can_create = λ fs p. true;
  can_open = λ fs p. true;
  can_seek = λ fs p. true;
  write_error = λ fs p size. none;
  can_read = λ fs p. true;
  can_rename = λ fs. true;
  can_mkdir = λ fs folder. true;
  auth_token_folder = 1 ∷ [];
  auth_token_size = 3;
  root_cont_size = 4;
  data_cont_size = 2;
}

abbrev pub with_token : FileSystem
with_token = record { files = (auth_token_path working, 7 ∷ 8 ∷ 9 ∷ []) ∷ []; folders = [] }

abbrev trustlet_data : DataCont
trustlet_data = record {
  cont_type = cont_type_tldata;
  uuid = 1 ∷ 2 ∷ [];
  pid = 4;
  so_size = 2;
  bytes = 5 ∷ 6 ∷ [];
}

store_sp-others_example :
    lookup_file (sp_cont_path 0x21) (store_sp working with_token 0x12 (some (5 ∷ []))).1.files
    ≡ lookup_file (sp_cont_path 0x21) with_token.files
store_sp-others_example =
    store_sp-others working with_token 0x12 0x21 (some (5 ∷ [])) (omega arith) (omega arith)
      (omega arith)

delete_auth_token-read_example :
    ((delete_auth_token working with_token).0 ≡ mc_drv_ok)
    × (read_auth_token working (delete_auth_token working with_token).1
        ≡ (invalid_device_file, none))
    × (read_auth_token_backup working (delete_auth_token working with_token).1
        ≡ (mc_drv_ok, some (7 ∷ 8 ∷ 9 ∷ [])))
unfolding lookup_file same_path
delete_auth_token-read_example =
    delete_auth_token-read working with_token (7 ∷ 8 ∷ 9 ∷ []) refl refl refl (λ f p. refl)
      (λ f p. refl) (λ f p. refl)

store_data-once_example :
    store_data working
      (store_data working with_token 2 (some trustlet_data)).1
      2
      (some trustlet_data)
    ≡ (invalid_parameter, (store_data working with_token 2 (some trustlet_data)).1)
unfolding store_data
store_data-once_example =
    store_data-once working with_token 2 2 trustlet_data trustlet_data refl refl

abbrev repeat : ℕ → ℕ → List ℕ
repeat zero b = []
repeat (suc n) b = b ∷ repeat n b

-- A service provider's binary of version 2.4 with an attestation at an offset, of 40 bytes.
abbrev ta_header : (offset : ℕ) → List ℕ
ta_header offset =
    repeat 4 77
    ++ 4 ∷ 0 ∷ 2 ∷ 0 ∷ []
    ++ repeat 8 0
    ++ 2 ∷ 0 ∷ 0 ∷ 0 ∷ []
    ++ repeat 76 0
    ++ 1 ∷ 0 ∷ 0 ∷ 0 ∷ []
    ++ offset ∷ 0 ∷ 0 ∷ 0 ∷ []

abbrev attested : List ℕ
attested =
    ta_header 104
    ++ attestation_magic
    ++ 0 ∷ 0 ∷ 0 ∷ 40 ∷ []
    ++ 0 ∷ 0 ∷ 0 ∷ 1 ∷ []
    ++ repeat 16 9
    ++ repeat 8 0

attested_files : FileSystem
attested_files = (store_named working with_token 0x12 attested (sp_ta (repeat 16 9))).1

attested-room : (offset : ℕ) → word_at attested 100 ≡ some offset → offset + 32 ≤ length attested
unfolding word_at
attested-room offset e =
    let here : 104 ≡ offset = ap (λ r. elim r [ none ↦ 104 | some n ↦ n ]) e in omega (arith, here)

store_ta_blob-in_bounds_example :
    (code : ℕ) × (fs' : FileSystem) × (store_ta_blob working with_token 0x12 attested
      ≡ some (code, fs'))
store_ta_blob-in_bounds_example =
    store_ta_blob-in_bounds working with_token 0x12 attested attested-room

-- With an offset past the end, the size of the attestation is read past the binary.
reads_past : store_ta_blob working with_token 0x12 (ta_header 200) ≡ none
unfolding store_ta_blob
reads_past = refl
