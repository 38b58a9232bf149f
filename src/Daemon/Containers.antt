-- ===== src/Daemon/Containers.antt =====
-- What a client reads of a container that a client wrote, through the daemon's commands.
use trustonic_tee_user_space.Prelude.{
  ℕ, ◌*◌, ◌≤◌, ◌≡◌, ◌≢◌, refl, ap, true, false, List, [], ◌∷◌, some, none, arith, ◌==◌, ltb, length,
  take,
}
use trustonic_tee_user_space.Status.{mc_drv_ok}
use trustonic_tee_user_space.Registry.{
  FilePath, Disk, FileSystem, put_file, write_file, open_file, read_some,
}
use trustonic_tee_user_space.Registry.Paths.{sp_cont_path}
use trustonic_tee_user_space.Registry.Containers.{
  store_container, store_sp, read_sp, max_so_cont_size,
}
use trustonic_tee_user_space.Registry.Files.{lookup_file-put_file}
use trustonic_tee_user_space.Daemon.{World, Daemon, container, write_data, write_result}
use trustonic_tee_user_space.Daemon.RegistryCommands.{
  Peer, check_permission, reg_read_sp_cont, reg_write_sp_cont, max_data_size, read_container,
  write_container, send_container, process_registry_read_data, process_registry_write_data,
}

-- The files after the container was written.
abbrev pub sp_stored : FileSystem → (spid : ℕ) (so : List ℕ) → FileSystem
sp_stored fs spid so = put_file (sp_cont_path spid) so (put_file (sp_cont_path spid) [] fs)

module _ (disk : Disk) (creates : (fs : FileSystem) (p : FilePath) → disk.can_create fs p ≡ true)
    (seeks : (fs : FileSystem) (p : FilePath) → disk.can_seek fs p ≡ true)
    (writes : (fs : FileSystem) (p : FilePath) (size : ℕ) → disk.write_error fs p size ≡ none)
    (opens : (fs : FileSystem) (p : FilePath) → disk.can_open fs p ≡ true)
    (reads : (fs : FileSystem) (p : FilePath) → disk.can_read fs p ≡ true) where
  store_sp-stored :
      (fs : FileSystem) (spid : ℕ) (so : List ℕ)
      → spid ≢ 0
      → length so ≤ 3 * max_so_cont_size
      → store_sp disk fs spid (some so) ≡ (mc_drv_ok, sp_stored fs spid so)
  unfolding store_sp store_container write_file
  store_sp-stored fs spid so given fits =
      let other : (spid == 0) ≡ false = ground (arith, given) in
      let short : ltb (3 * max_so_cont_size) (length so) ≡ false = ground (arith, fits) in
      let p = sp_cont_path spid in
      rw
        (
          other,
          short,
          creates fs p,
          seeks (put_file p [] fs) p,
          writes (put_file p [] fs) p (length so),
        )
        refl

  read_sp-stored :
      (fs : FileSystem) (spid b : ℕ) (bs : List ℕ)
      → spid ≢ 0
      → read_sp disk (sp_stored fs spid (b ∷ bs)) spid max_data_size
        ≡ (mc_drv_ok, some (take max_data_size (b ∷ bs)))
  unfolding read_sp read_some open_file
  read_sp-stored fs spid b bs given =
      let other : (spid == 0) ≡ false = ground (arith, given) in
      let p = sp_cont_path spid in
      let left = sp_stored fs spid (b ∷ bs) in
      rw
        (
          other,
          opens left p,
          lookup_file-put_file p (b ∷ bs) (put_file p [] fs),
          reads left p,
          read_some,
          open_file,
        )
        refl

  -- On a disk where no call fails, a client that may use the registry writes a service provider's
  -- container of at most 1536 bytes, and not none, with success; a client that may then reads of
  -- it the first 512 bytes, which are all only if it has no more.
  pub process_registry_read_data-write :
      (w : World) (peer reader : Peer) (d d' : Daemon) (fs : FileSystem)
      (connection connection' size address spid b : ℕ) (bs : List ℕ)
      → check_permission peer ≡ true
      → check_permission reader ≡ true
      → w.malloc d.device.log size ≡ some address
      → spid ≢ 0
      → length (b ∷ bs) ≤ 3 * max_so_cont_size
      → (fs' : FileSystem) × (process_registry_write_data disk w peer d fs connection
            (some size)
            (reg_write_sp_cont (some spid) (some (b ∷ bs)))
          ≡ some (write_result connection mc_drv_ok d, fs'))
        × (process_registry_read_data disk fs' reader d' connection' (reg_read_sp_cont (some spid))
            ≡ write_data connection'
                (container (take 512 (b ∷ bs)))
                (write_result connection' mc_drv_ok d'))
  unfolding process_registry_write_data process_registry_read_data write_container read_container
      send_container
  process_registry_read_data-write w peer reader d d' fs connection connection' size address spid b
        bs may may' m given fits =
      (
        sp_stored fs spid (b ∷ bs),
        rw (may, m, store_sp-stored fs spid (b ∷ bs) given fits) refl,
        rw (may', process_registry_read_data)
            (ap (λ t. send_container d' connection' (t.0, t.1, max_data_size))
              (read_sp-stored fs spid b bs given)),
      )
