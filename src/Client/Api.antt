-- ===== src/Client/Api.antt =====
-- The client API: MobiCoreDriverLib/ClientLib/ClientLib.cpp, on the devices and sessions of
-- `Client`. Every call but the wait for a notification holds `devMutex`, so calls follow one
-- another. The sockets, the daemon's answers and the kernel module are parameters, in `Platform`:
-- each answers by the history of what the library did.
pub mod Devices
pub mod Codes
pub mod Sessions
pub mod Memory
pub mod Wait
pub mod Drains
pub mod Lookup
pub mod Opened
pub mod Openings
pub mod Refused
pub mod ExitCodes
mod Tests
use trustonic_tee_user_space.Prelude.{
  ℕ, Bool, false, List, [], ◌∷◌, Option, none, some, ◌==◌, if◌then◌else◌,
}
use trustonic_tee_user_space.Status.{daemon_unreachable, unknown_device, unknown_session}
use trustonic_tee_user_space.Client.{Kernel, KernelEvent, ClientDevice, ClientSession}
use trustonic_tee_user_space.Client.Device.{delete_device, resolve_session_id}

-- What is sent to the daemon.
pub data Message : Type 0 where
  msg_open_device : (device_id : ℕ) → Message
  msg_close_device : Message
  msg_open_session msg_open_trusted_app : (device_id uuid tci handle len : ℕ) → Message
  msg_open_trustlet : (device_id spid trustlet_len tci handle len : ℕ) → Message
  msg_trustlet_data : (trustlet trustlet_len : ℕ) → Message
  msg_nq_connect : (device_id session_id device_session_id session_magic : ℕ) → Message
  msg_close_session msg_notify : (session_id : ℕ) → Message
  msg_map_bulk_buf : (session_id handle p_addr_l2 offset_payload len_bulk_mem : ℕ) → Message
  msg_unmap_bulk_buf : (session_id handle secure_virtual_adr len_bulk_mem : ℕ) → Message
  msg_get_version msg_get_mobicore_version : Message

-- What the library did, beside its calls of the kernel module.
pub data ApiEvent : Type 0 where
  connected socket_deleted : (connection : ℕ) → ApiEvent
  connect_failed : ApiEvent
  sent send_failed : (connection : ℕ) → Message → ApiEvent
  received : (connection : ℕ) → ApiEvent
  -- a device was deleted, with the history of its kernel module
  device_deleted : List KernelEvent → ApiEvent

-- What a read from the daemon gives: an error or a closed connection, a length that is neither
-- that of the structure nor that of a result code, or the structure.
pub data Received {ℓ} (A : Type ℓ) : Type ℓ where
  read_failed wrong_length : Received A
  got : A → Received A

-- `mcDrvRspOpenSessionPayload_t`
pub record OpenedPayload : Type 0 where
  pub session_id : ℕ
  pub device_session_id : ℕ
  pub session_magic : ℕ

pub record Platform : Type 0 where
  pub kernel : Kernel
  -- a new connection to the daemon's socket
  pub connect : List ApiEvent → Option ℕ
  pub send : List ApiEvent → (connection : ℕ) → Message → Bool
  pub recv_number : List ApiEvent → (connection : ℕ) → Received ℕ
  pub recv_opened : List ApiEvent → (connection : ℕ) → Received OpenedPayload
  pub is_alive : List ApiEvent → (connection : ℕ) → Bool
  -- `CMcKMod::open` gives a code
  pub open_kernel : List ApiEvent → ℕ
  -- the address of the next descriptor
  pub new_object : List ApiEvent → ℕ

-- `Device`, with what `ClientDevice` has of it. `open_count` is a uint32_t.
pub record OpenDevice : Type 0 where
  pub device_id : ℕ
  pub connection : ℕ
  pub open_count : ℕ
  pub device : ClientDevice

-- `devices`, and the value that the call in progress has written through its pointer argument.
pub record Api : Type 0 where
  pub devices : List OpenDevice
  pub out : Option ℕ
  -- newest first
  pub log : List ApiEvent

abbrev pub happened : ApiEvent → Api → Api
happened e a = record a { log = e ∷ a.log }

unfoldable pub resolve_device_id : List OpenDevice → (device_id : ℕ) → Option OpenDevice
resolve_device_id [] device_id = none
resolve_device_id (d ∷ ds) device_id =
    if d.device_id == device_id then some d else resolve_device_id ds device_id

-- Without the first device of that id, and that device.
unfoldable pub without_device : List OpenDevice → (device_id : ℕ) → List OpenDevice
without_device [] device_id = []
without_device (d ∷ ds) device_id =
    if d.device_id == device_id then ds else d ∷ without_device ds device_id

unfoldable pub remove_device : Platform → Api → (device_id : ℕ) → Api
remove_device p a device_id = elim (resolve_device_id a.devices device_id) [
  | none ↦ a
  | some d ↦
      happened (device_deleted (delete_device p.kernel d.device d.connection))
        (record a { devices = without_device a.devices device_id })
]

-- A write through a pointer to the device.
unfoldable pub update_device :
    (device_id : ℕ) → (OpenDevice → OpenDevice) → List OpenDevice → List OpenDevice
update_device device_id f [] = []
update_device device_id f (d ∷ ds) =
    if d.device_id == device_id then f d ∷ ds else d ∷ update_device device_id f ds

abbrev pub set_device : (device_id : ℕ) → ClientDevice → Api → Api
set_device device_id c a = record a {
  devices = update_device device_id (λ d. record d { device = c }) a.devices;
}

-- `SEND_TO_DAEMON`
unfoldable pub send_to_daemon :
    Platform → (connection : ℕ) → Message → Api → (Api → ℕ × Api) → ℕ × Api
send_to_daemon p connection m a next =
    if p.send a.log connection m
    then next (happened (sent connection m) a)
    else (daemon_unreachable, happened (send_failed connection m) a)

-- `RECV_FROM_DAEMON`: the codes for the two errors are the same.
unfoldable pub received_from {ℓ} :
    {A : Type ℓ} → (connection : ℕ) → Received A → Api → (A → Api → ℕ × Api) → ℕ × Api
received_from connection read_failed a next = (daemon_unreachable, happened (received connection) a)
received_from connection wrong_length a next =
    (daemon_unreachable, happened (received connection) a)
received_from connection (got x) a next = next x (happened (received connection) a)

abbrev pub recv_code : Platform → (connection : ℕ) → Api → (ℕ → Api → ℕ × Api) → ℕ × Api
recv_code p connection a next = received_from connection (p.recv_number a.log connection) a next

-- `CHECK_DEVICE`
unfoldable pub check_device : Api → (device_id : ℕ) → (OpenDevice → ℕ × Api) → ℕ × Api
check_device a device_id next = elim (resolve_device_id a.devices device_id) [
  | none ↦ (unknown_device, a)
  | some d ↦ next d
]

-- `CHECK_SESSION`
unfoldable pub check_session :
    Api → OpenDevice → (session_id : ℕ) → (ClientSession → ℕ × Api) → ℕ × Api
check_session a d session_id next = elim (resolve_session_id d.device.session_list session_id) [
  | none ↦ (unknown_session, a)
  | some s ↦ next s
]
