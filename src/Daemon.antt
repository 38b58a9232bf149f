-- ===== src/Daemon.antt =====
-- The daemon's command server: class MobiCoreDriverDaemon
-- (MobiCoreDriverLib/Daemon/MobiCoreDriverDaemon.cpp) with the commands of
-- Daemon/public/MobiCoreDriverCmd.h. A connection is a number.
-- The kernel module's registration of buffers, the allocator and the registry's look-ups are
-- parameters, in `World`. Commands run one after the other, as the mutex of the MCP makes them.
pub mod Services
pub mod Trustlet
pub mod Process
pub mod Dispatch
pub mod Reading
pub mod Kept
pub mod Isolation
pub mod Others
pub mod Answers
pub mod Unopened
pub mod Connect
pub mod BufferLocks
pub mod RegistryCommands
pub mod Containers
mod Tests
use trustonic_tee_user_space.Prelude.{
  ℕ, Bool, true, false, List, [], ◌∷◌, Option, none, some, ◌==◌, ◌||◌, if◌then◌else◌,
}
use trustonic_tee_user_space.Status.{daemon_socket, daemon_device_not_open}
use trustonic_tee_user_space.Device.{Device, Env, Event}
use trustonic_tee_user_space.Device.Open.{OpenPayload}

-- `regObject_t`: a service that the registry found. `value` is the address of the blob, which
-- starts with a header that has the uuid at `tl_start_offset`.
pub record RegObject : Type 0 where
  pub value : ℕ
  pub len : ℕ
  pub tl_start_offset : ℕ
  pub uuid : ℕ

pub record World : Type 0 where
  pub env : Env
  -- kernel module: handle and physical address of a buffer, or an error
  pub register_wsm : List Event → (buffer len : ℕ) → Option (ℕ × ℕ)
  pub unregister_wsm : List Event → (handle : ℕ) → Bool
  -- the registry: by uuid, and from a blob that the client sends
  pub service_blob : List Event → (uuid : ℕ) → (is_gp_uuid : Bool) → Option RegObject
  pub mem_service_blob : List Event → (spid : ℕ) → (blob : List ℕ) → Option RegObject
  -- where `malloc` puts so many bytes, if anywhere
  pub malloc : List Event → (size : ℕ) → Option ℕ
  pub socket_descriptor : (connection : ℕ) → ℕ

-- What the daemon writes to a connection: a result code, or a response with its payload.
pub data Reply : Type 0 where
  result : ℕ → Reply
  session_opened : OpenPayload → Reply
  bulk_mapped : (session_id secure_virtual_adr : ℕ) → Reply
  daemon_version : ℕ → Reply
  mobicore_version : ℕ → Reply
  -- a container of the registry, or as many bytes of a buffer that nothing was read into
  container : List ℕ → Reply
  unread_buffer : (len : ℕ) → Reply

pub record Daemon : Type 0 where
  pub device : Device
  -- the connections whose `connectionData` is the device
  pub opened : List ℕ
  -- the connections that the servers listen on
  pub attached : List ℕ
  -- newest first
  pub replies : List (ℕ × Reply)

-- What reading a command's payload from the socket gives.
pub data Received {ℓ} (A : Type ℓ) : Type ℓ where
  read_failed : Received A
  wrong_length : Received A
  payload : A → Received A

unfoldable pub has_device : ℕ → List ℕ → Bool
has_device connection [] = false
has_device connection (c ∷ cs) = c == connection || has_device connection cs

unfoldable pub remove_connection : ℕ → List ℕ → List ℕ
remove_connection connection [] = []
remove_connection connection (c ∷ cs) =
    let rest = remove_connection connection cs in if c == connection then rest else c ∷ rest

-- `connection->writeData`: whether it fails is not looked at.
abbrev pub write_data : ℕ → Reply → Daemon → Daemon
write_data connection r d = record d { replies = (connection, r) ∷ d.replies }

abbrev pub write_result : ℕ → ℕ → Daemon → Daemon
write_result connection code d = write_data connection (result code) d

-- `RECV_PAYLOAD_FROM_CLIENT`: either error is answered alike. A handler that gives `none` does not
-- return.
unfoldable pub recv_payload {ℓ} :
    {A : Type ℓ} → ℕ → Received A → Daemon → (A → Option Daemon) → Option Daemon
recv_payload connection read_failed d next = some (write_result connection daemon_socket d)
recv_payload connection wrong_length d next = some (write_result connection daemon_socket d)
recv_payload connection (payload a) d next = next a

-- `CHECK_DEVICE`
unfoldable pub check_device : ℕ → Daemon → Option Daemon → Option Daemon
check_device connection d next =
    if has_device connection d.opened
    then next
    else some (write_result connection daemon_device_not_open d)
