-- ===== src/Registry/Data.antt =====
-- The folder of a Trustlet's data, which mcRegistryStoreData makes.
use trustonic_tee_user_space.Prelude.{
  ℕ, ◌≡◌, refl, subst, sym, ap, true, List, [], ◌∷◌, some, none, arith, ◌==◌, take, Bool-cases,
  Option-cases, inl, inr,
}
use trustonic_tee_user_space.Status.{mc_drv_ok, invalid_parameter}
use trustonic_tee_user_space.Registry.{Disk, FileSystem}
use trustonic_tee_user_space.Registry.Paths.{tl_data_folder, tl_data_path}
use trustonic_tee_user_space.Registry.Containers.{
  DataCont, has_folder, make_folder, cont_type_tldata, store_data,
}
use trustonic_tee_user_space.Registry.Files.{same_digits_refl, write_file-folders}

make_folder-has :
    (disk : Disk) (fs made : FileSystem) (folder : List ℕ)
    → make_folder disk fs folder ≡ some made
    → has_folder folder made.folders ≡ true
unfolding make_folder has_folder
make_folder-has disk fs made folder = elim (Bool-cases (has_folder folder fs.folders)) [
  | inl e ↦ rw (e, make_folder) (λ h. ground (arith, h))
  | inr e ↦ elim (Bool-cases (disk.can_mkdir fs folder)) [
    | inr k ↦ rw (e, k, make_folder) (λ h. ground (arith, h))
    | inl k ↦
        rw (e, k, make_folder)
          (λ h.
            let folders : folder ∷ fs.folders ≡ made.folders =
              ap (λ r. elim r [ none ↦ [] | some f ↦ f.folders ]) h in
            subst (λ fs. has_folder folder fs ≡ true) folders (rw (same_digits_refl folder) refl))
  ]
]

store_data-has :
    (disk : Disk) (fs : FileSystem) (size : ℕ) (c : DataCont)
    → (store_data disk fs size (some c)).0 ≡ mc_drv_ok
    → has_folder (tl_data_folder c.uuid) (store_data disk fs size (some c)).1.folders ≡ true
unfolding store_data
store_data-has disk fs size c = elim (Bool-cases (size == disk.data_cont_size)) [
  | inr e ↦ rw (e, store_data) (λ ok. ground (arith, ok))
  | inl e ↦ elim (Bool-cases (c.cont_type == cont_type_tldata)) [
    | inr t ↦ rw (e, t, store_data) (λ ok. ground (arith, ok))
    | inl t ↦ elim (Option-cases (make_folder disk fs (tl_data_folder c.uuid))) [
      | inl m ↦ rw (e, t, m, store_data) (λ ok. ground (arith, ok))
      | inr (made, m) ↦
          rw (e, t, m, store_data)
            (λ ok.
              subst (λ folders. has_folder (tl_data_folder c.uuid) folders ≡ true)
                (sym (
                  write_file-folders disk made (tl_data_path c.uuid c.pid)
                    (take c.so_size c.bytes)))
                (make_folder-has disk fs made (tl_data_folder c.uuid) m))
    ]
  ]
]

store_data-refused :
    (disk : Disk) (fs : FileSystem) (size : ℕ) (c : DataCont)
    → has_folder (tl_data_folder c.uuid) fs.folders ≡ true
    → store_data disk fs size (some c) ≡ (invalid_parameter, fs)
unfolding store_data make_folder
store_data-refused disk fs size c h = elim (Bool-cases (size == disk.data_cont_size)) [
  | inr e ↦ rw (e, store_data) refl
  | inl e ↦ elim (Bool-cases (c.cont_type == cont_type_tldata)) [
    | inr t ↦ rw (e, t, store_data) refl
    | inl t ↦ rw (e, t, h, store_data, make_folder) refl
  ]
]

-- After the data of a Trustlet was stored with success, none is stored for that Trustlet again: a
-- second call with the same UUID, whatever its container and size, is refused and changes no file.
pub store_data-once :
    (disk : Disk) (fs : FileSystem) (size size' : ℕ) (c c' : DataCont)
    → (store_data disk fs size (some c)).0 ≡ mc_drv_ok
    → c.uuid ≡ c'.uuid
    → store_data disk (store_data disk fs size (some c)).1 size' (some c')
      ≡ (invalid_parameter, (store_data disk fs size (some c)).1)
store_data-once disk fs size size' c c' ok same =
    store_data-refused disk (store_data disk fs size (some c)).1 size' c' (
      subst
        (λ uuid.
          has_folder (tl_data_folder uuid) (store_data disk fs size (some c)).1.folders ≡ true)
        same (store_data-has disk fs size c ok))
