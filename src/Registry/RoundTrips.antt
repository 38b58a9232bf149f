-- ===== src/Registry/RoundTrips.antt =====
-- Reading the registry's containers after they were stored.
use trustonic_tee_user_space.Prelude.{
  ℕ, ◌≤◌, ◌<◌, ◌^◌, ◌*◌, ◌≡◌, ◌≢◌, refl, ◌∙◌, true, false, List, ◌∷◌, Option, some, none, arith,
  ◌==◌, ltb, length, Bool-cases, inl, inr,
}
use trustonic_tee_user_space.Status.{mc_drv_ok, invalid_device_file}
use trustonic_tee_user_space.Registry.{
  FilePath, Disk, FileSystem, same_path, same_digits, lookup_file, without_file, put_file,
}
use trustonic_tee_user_space.Registry.Paths.{sp_cont_path, auth_token_path, auth_token_path_backup}
use trustonic_tee_user_space.Registry.Containers.{
  store_container, store_sp, read_sp, delete_auth_token, read_auth_token, read_auth_token_backup,
  max_so_cont_size,
}
use trustonic_tee_user_space.Registry.Files.{
  lookup_file-without_file, lookup_file-put_file, lookup_file-put_file_other, read_exact-missing,
  read_exact-lookup_file, write_file-ok, write_file-others, read_some-lookup_file,
}
use trustonic_tee_user_space.Registry.Names.{sp_cont_path-other}

store_container-ok :
    (disk : Disk) (fs : FileSystem) (p : FilePath) (bytes : List ℕ)
    → (store_container disk fs p (some bytes)).0 ≡ mc_drv_ok
    → lookup_file p (store_container disk fs p (some bytes)).1.files ≡ some bytes
unfolding store_container
store_container-ok disk fs p bytes = elim (Bool-cases (ltb (3 * max_so_cont_size) (length bytes))) [
  | inl e ↦ rw (e, store_container) (λ ok. ground (arith, ok))
  | inr e ↦ rw (e, store_container) (write_file-ok disk fs p bytes)
]

store_container-others :
    (disk : Disk) (fs : FileSystem) (p q : FilePath) (so : Option (List ℕ))
    → same_path p q ≡ false
    → lookup_file q (store_container disk fs p so).1.files ≡ lookup_file q fs.files
unfolding store_container
store_container-others disk fs p q none other = refl
store_container-others disk fs p q (some bytes) other =
    elim (Bool-cases (ltb (3 * max_so_cont_size) (length bytes))) [
      | inl e ↦ rw (e, store_container) refl
      | inr e ↦ rw (e, store_container) (write_file-others disk fs p q bytes other)
    ]

-- A service provider's container that was stored with success is read back whole, when its file can
-- be opened and read and the reader asks for at least as many bytes as it has, which is not none.
pub read_sp-store_sp :
    (disk : Disk) (fs : FileSystem) (spid b : ℕ) (bs : List ℕ) (size : ℕ)
    → (store_sp disk fs spid (some (b ∷ bs))).0 ≡ mc_drv_ok
    → disk.can_open (store_sp disk fs spid (some (b ∷ bs))).1 (sp_cont_path spid) ≡ true
    → disk.can_read (store_sp disk fs spid (some (b ∷ bs))).1 (sp_cont_path spid) ≡ true
    → length (b ∷ bs) ≤ size
    → read_sp disk (store_sp disk fs spid (some (b ∷ bs))).1 spid size ≡ (mc_drv_ok, some (b ∷ bs))
unfolding store_sp read_sp
read_sp-store_sp disk fs spid b bs size = elim (Bool-cases (spid == 0)) [
  | inl e ↦ rw (e, store_sp) (λ ok o r fits. ground (arith, ok))
  | inr e ↦
      rw (e, store_sp, read_sp)
        (λ ok o r fits.
          read_some-lookup_file disk _ (sp_cont_path spid) b bs size
            (store_container-ok disk fs (sp_cont_path spid) (b ∷ bs) ok) o r fits)
]

-- Storing the container of one service provider, with success or not, leaves the container of every
-- other as it was; both identifiers are 32-bit words.
pub store_sp-others :
    (disk : Disk) (fs : FileSystem) (spid other : ℕ) (so : Option (List ℕ))
    → spid < 2 ^ 32
    → other < 2 ^ 32
    → spid ≢ other
    → lookup_file (sp_cont_path other) (store_sp disk fs spid so).1.files
      ≡ lookup_file (sp_cont_path other) fs.files
unfolding store_sp
store_sp-others disk fs spid other so p q different = elim (Bool-cases (spid == 0)) [
  | inl e ↦ rw (e, store_sp) refl
  | inr e ↦
      rw (e, store_sp)
        (store_container-others disk fs (sp_cont_path spid) (sp_cont_path other) so
          (sp_cont_path-other spid other p q different))
]

backup-other :
    (disk : Disk) → same_path (auth_token_path_backup disk) (auth_token_path disk) ≡ false
unfolding same_path
backup-other disk = elim (Bool-cases (same_digits disk.auth_token_folder disk.auth_token_folder)) [
  | inl e ↦ rw e refl
  | inr e ↦ rw e refl
]

-- Deleting the authentication token, when there is one and the rename is done, succeeds: the token
-- can no longer be opened, and the backup holds its bytes, which a read of the backup gives when the
-- calls on its file succeed and the token has the size of the container.
pub delete_auth_token-read :
    (disk : Disk) (fs : FileSystem) (token : List ℕ)
    → lookup_file (auth_token_path disk) fs.files ≡ some token
    → disk.can_rename fs ≡ true
    → disk.auth_token_size ≡ length token
    → ((f : FileSystem) (p : FilePath) → disk.can_open f p ≡ true)
    → ((f : FileSystem) (p : FilePath) → disk.can_seek f p ≡ true)
    → ((f : FileSystem) (p : FilePath) → disk.can_read f p ≡ true)
    → ((delete_auth_token disk fs).0 ≡ mc_drv_ok)
      × (read_auth_token disk (delete_auth_token disk fs).1 ≡ (invalid_device_file, none))
      × (read_auth_token_backup disk (delete_auth_token disk fs).1 ≡ (mc_drv_ok, some token))
unfolding delete_auth_token read_auth_token read_auth_token_backup
delete_auth_token-read disk fs token e k size o s r =
    let rest : FileSystem = record fs { files = without_file (auth_token_path disk) fs.files } in
    let left = put_file (auth_token_path_backup disk) token rest in
    let gone : lookup_file (auth_token_path disk) left.files ≡ none =
      lookup_file-put_file_other (auth_token_path_backup disk) (auth_token_path disk) token rest
        (backup-other disk)
      ∙ lookup_file-without_file (auth_token_path disk) fs.files in
    rw (e, k, delete_auth_token)
      (
        refl,
        read_exact-missing disk left (auth_token_path disk) disk.auth_token_size gone,
        read_exact-lookup_file disk left (auth_token_path_backup disk) token disk.auth_token_size
            (lookup_file-put_file (auth_token_path_backup disk) token rest) size (o _ _) (s _ _)
            (r _ _),
      )
