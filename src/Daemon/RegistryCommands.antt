-- ===== src/Daemon/RegistryCommands.antt =====
-- MobiCoreDriverDaemon::checkPermission, processRegistryReadData and processRegistryWriteData.
-- What `getData` reads from the connection is `none` when it fails.
use trustonic_tee_user_space.Prelude.{
  ℕ, Bool, true, false, not, List, Option, none, some, ◌==◌, ◌||◌, if◌then◌else◌,
}
use trustonic_tee_user_space.Status.{mc_drv_ok, invalid_operation, no_free_memory}
use trustonic_tee_user_space.Registry.{Disk, FileSystem}
use trustonic_tee_user_space.Registry.Containers.{
  DataCont, store_auth_token, read_auth_token, store_root, read_root, store_sp, read_sp,
  store_trustlet_con, read_trustlet_con, store_data,
}
use trustonic_tee_user_space.Registry.TaBlob.{store_ta_blob}
use trustonic_tee_user_space.Daemon.{
  World, Daemon, container, unread_buffer, write_data, write_result,
}
use trustonic_tee_user_space.Daemon.Services.{process_load_check, install_token}

-- `checks` is whether the build defines REGISTRY_CHECK_PERMISSIONS; the peer's uid and gid are
-- `none` if the socket does not give them.
pub record Peer : Type 0 where
  pub checks : Bool
  pub credentials : Option (ℕ × ℕ)
  pub uid : ℕ
  pub gid : ℕ

unfoldable pub check_permission : Peer → Bool
check_permission peer =
    if peer.checks
    then elim peer.credentials [
      | none ↦ false
      | some (uid, gid) ↦ peer.gid == gid || peer.uid == uid
    ]
    else true

pub data ReadRequest : Type 0 where
  reg_read_auth_token : ReadRequest
  reg_read_root_cont : ReadRequest
  reg_read_sp_cont : (spid : Option ℕ) → ReadRequest
  reg_read_tl_cont : (trustlet : Option (List ℕ × ℕ)) → ReadRequest

abbrev pub max_data_size : ℕ
max_data_size = 512

-- The code, the bytes read, and the length of the buffer.
unfoldable pub read_container : Disk → FileSystem → ReadRequest → ℕ × Option (List ℕ) × ℕ
read_container disk fs reg_read_auth_token =
    let (code, so) = read_auth_token disk fs in (code, so, disk.auth_token_size)
read_container disk fs reg_read_root_cont =
    let (code, so) = read_root disk fs max_data_size in (code, so, max_data_size)
read_container disk fs (reg_read_sp_cont none) = (invalid_operation, none, max_data_size)
read_container disk fs (reg_read_sp_cont (some spid)) =
    let (code, so) = read_sp disk fs spid max_data_size in (code, so, max_data_size)
read_container disk fs (reg_read_tl_cont none) = (invalid_operation, none, max_data_size)
read_container disk fs (reg_read_tl_cont (some (uuid, spid))) =
    let (code, so) = read_trustlet_con disk fs uuid spid max_data_size in (code, so, max_data_size)

-- The buffer is sent unless the code is that of an invalid operation.
unfoldable pub send_container : Daemon → (connection : ℕ) → ℕ × Option (List ℕ) × ℕ → Daemon
send_container d connection (code, so, len) =
    let answered = write_result connection code d in
    if code == invalid_operation then answered else elim so [
      | none ↦ write_data connection (unread_buffer len) answered
      | some bytes ↦ write_data connection (container bytes) answered
    ]

unfoldable pub process_registry_read_data :
    Disk → FileSystem → Peer → Daemon → (connection : ℕ) → ReadRequest → Daemon
unfolding check_permission read_container send_container
process_registry_read_data disk fs peer d connection r =
    if not (check_permission peer)
    then write_result connection invalid_operation d
    else send_container d connection (read_container disk fs r)

-- After the size; the bytes are as many as it says. `allocated` is whether the second `malloc` of a
-- binary succeeds.
pub data WriteRequest : Type 0 where
  reg_store_auth_token : (so : Option (List ℕ)) → WriteRequest
  reg_write_root_cont : (so : Option (List ℕ)) → WriteRequest
  reg_write_sp_cont : (spid : Option ℕ) (so : Option (List ℕ)) → WriteRequest
  reg_write_tl_cont : (trustlet : Option (List ℕ × ℕ)) (so : Option (List ℕ)) → WriteRequest
  reg_write_so_data : (so : Option DataCont) → WriteRequest
  reg_store_ta_blob : (spid : Option ℕ) (allocated : Bool) (blob : Option (List ℕ)) → WriteRequest

-- A stored token or root container is given to the secure world, whatever it says.
unfoldable pub update_secure_world :
    World → (address size : ℕ) → Daemon → ℕ × FileSystem → Option (ℕ × Daemon × FileSystem)
unfolding install_token
update_secure_world w address size d (code, fs) =
    if code == mc_drv_ok
    then some (code, (install_token w d address size).1, fs)
    else some (code, d, fs)

unfoldable pub check_and_store :
    Disk
    → World
    → Daemon
    → FileSystem
    → (spid : ℕ) (blob : List ℕ) → Option (ℕ × Daemon × FileSystem)
unfolding process_load_check store_ta_blob
check_and_store disk w d fs spid blob =
    let (loaded, checked) = process_load_check w d spid blob in
    if not (loaded == mc_drv_ok)
    then some (loaded, checked, fs)
    else elim (store_ta_blob disk fs spid blob) [
      | none ↦ none
      | some (code, stored) ↦ some (code, checked, stored)
    ]

-- The cases of the `switch`; `none` is a read past the binary.
unfoldable pub write_container :
    Disk
    → World
    → Daemon
    → FileSystem
    → (address size : ℕ) → WriteRequest
    → Option (ℕ × Daemon × FileSystem)
write_container disk w d fs address size (reg_store_auth_token none) =
    some (invalid_operation, d, fs)
write_container disk w d fs address size (reg_store_auth_token (some so)) =
    update_secure_world w address disk.auth_token_size d (store_auth_token disk fs (some so))
write_container disk w d fs address size (reg_write_root_cont none) =
    some (invalid_operation, d, fs)
write_container disk w d fs address size (reg_write_root_cont (some so)) =
    update_secure_world w address disk.root_cont_size d (store_root disk fs (some so))
write_container disk w d fs address size (reg_write_sp_cont none so) =
    some (invalid_operation, d, fs)
write_container disk w d fs address size (reg_write_sp_cont (some spid) none) =
    some (invalid_operation, d, fs)
write_container disk w d fs address size (reg_write_sp_cont (some spid) (some so)) =
    let (code, stored) = store_sp disk fs spid (some so) in some (code, d, stored)
write_container disk w d fs address size (reg_write_tl_cont none so) =
    some (invalid_operation, d, fs)
write_container disk w d fs address size (reg_write_tl_cont (some trustlet) none) =
    some (invalid_operation, d, fs)
write_container disk w d fs address size (reg_write_tl_cont (some (uuid, spid)) (some so)) =
    let (code, stored) = store_trustlet_con disk fs uuid spid (some so) in some (code, d, stored)
write_container disk w d fs address size (reg_write_so_data none) = some (invalid_operation, d, fs)
write_container disk w d fs address size (reg_write_so_data (some so)) =
    let (code, stored) = store_data disk fs size (some so) in some (code, d, stored)
write_container disk w d fs address size (reg_store_ta_blob none allocated blob) =
    some (invalid_operation, d, fs)
write_container disk w d fs address size (reg_store_ta_blob (some spid) false blob) =
    some (no_free_memory, d, fs)
write_container disk w d fs address size (reg_store_ta_blob (some spid) true none) =
    some (invalid_operation, d, fs)
write_container disk w d fs address size (reg_store_ta_blob (some spid) true (some blob)) =
    check_and_store disk w d fs spid blob

unfoldable pub process_registry_write_data :
    Disk
    → World
    → Peer
    → Daemon
    → FileSystem
    → (connection : ℕ) → (so_size : Option ℕ) → WriteRequest
    → Option (Daemon × FileSystem)
unfolding check_permission write_container
process_registry_write_data disk w peer d fs connection so_size r =
    if not (check_permission peer)
    then some (write_result connection invalid_operation d, fs)
    else elim so_size [
      | none ↦ some (write_result connection invalid_operation d, fs)
      | some size ↦ elim (w.malloc d.device.log size) [
        | none ↦ some (write_result connection no_free_memory d, fs)
        | some address ↦ elim (write_container disk w d fs address size r) [
          | none ↦ none
          | some (code, left, stored) ↦ some (write_result connection code left, stored)
        ]
      ]
    ]
