-- ===== src/Daemon/Dispatch.antt =====
-- MobiCoreDriverDaemon::readCommand, handleCommand and dropConnection, and what the server's thread
-- does with a client (Daemon/Server/Server.cpp, Client.h). The registry's commands are in
-- `RegistryCommands`.
use trustonic_tee_user_space.Prelude.{
  ℕ, Bool, true, false, Option, none, some, ◌&&◌, ◌||◌, if◌then◌else◌, leb,
}
use trustonic_tee_user_space.Daemon.{World, Daemon, Received, has_device}
use trustonic_tee_user_space.Daemon.Services.{OpenSessionRequest, process_open_session}
use trustonic_tee_user_space.Daemon.Trustlet.{Reads, OpenTrustletRequest, process_open_trustlet}
use trustonic_tee_user_space.Daemon.Process.{
  NqRequest, MapRequest, UnmapRequest, process_open_device, close_device, process_close_device,
  process_close_session, process_nq_connect, process_notify, process_map_bulk_buf,
  process_unmap_bulk_buf, process_get_version, process_get_mobicore_version,
}

-- A command after its header, with what reading its payload gives.
pub data Request : Type 0 where
  open_device : Received ℕ → Request
  close_device_request : Request
  open_session_request : Received OpenSessionRequest → Request
  open_trustlet : Reads → Received OpenTrustletRequest → Request
  open_trusted_app : Received OpenSessionRequest → Request
  close_session_request : Received ℕ → Request
  nq_connect : Received NqRequest → Request
  notify_request : Received ℕ → Request
  map_bulk_buf_request : Received MapRequest → Request
  unmap_bulk_buf_request : Received UnmapRequest → Request
  get_version : Request
  get_mobicore_version_request : Request

-- `mcDrvCmd_t`
unfoldable pub command_id : Request → ℕ
command_id (open_device _) = 2
command_id close_device_request = 3
command_id (nq_connect _) = 4
command_id (open_session_request _) = 5
command_id (close_session_request _) = 6
command_id (notify_request _) = 7
command_id (map_bulk_buf_request _) = 8
command_id (unmap_bulk_buf_request _) = 9
command_id get_version = 10
command_id get_mobicore_version_request = 11
command_id (open_trustlet _ _) = 12
command_id (open_trusted_app _) = 13

-- The case labels of readCommand: without PING and GET_INFO.
abbrev pub is_known : ℕ → Bool
is_known id = leb 2 id && leb id 13 || leb 0x100000 id && leb id 0x10000E

-- The command id of the header, which is `none` for a closed or failed connection. Nothing is read
-- once the secure world has faulted.
unfoldable pub read_command : Daemon → (header : Option ℕ) → Option ℕ
read_command d header =
    if d.device.mc_fault
    then none
    else elim header [ none ↦ none | some id ↦ if is_known id then some id else none ]

unfoldable pub drop_connection : ℕ → World → Daemon → (connection : ℕ) → Option Daemon
drop_connection fuel w d connection =
    if has_device connection d.opened then close_device fuel w d connection else some d

-- `none`: the handler does not return. The fuel bounds the rounds of the loops in Device::close and
-- processOpenTrustlet.
unfoldable pub handle_command : ℕ → World → Daemon → (connection : ℕ) → Request → Option Daemon
handle_command fuel w d connection (open_device r) = process_open_device d connection r
handle_command fuel w d connection close_device_request = process_close_device fuel w d connection
handle_command fuel w d connection (open_session_request r) =
    process_open_session w d connection false r
handle_command fuel w d connection (open_trustlet reads r) =
    process_open_trustlet fuel w d connection reads r
handle_command fuel w d connection (open_trusted_app r) = process_open_session w d connection true r
handle_command fuel w d connection (close_session_request r) =
    process_close_session w d connection r
handle_command fuel w d connection (nq_connect r) = process_nq_connect d connection r
handle_command fuel w d connection (notify_request r) = some (process_notify d connection r)
handle_command fuel w d connection (map_bulk_buf_request r) = process_map_bulk_buf w d connection r
handle_command fuel w d connection (unmap_bulk_buf_request r) =
    process_unmap_bulk_buf w d connection r
handle_command fuel w d connection get_version = some (process_get_version d connection)
handle_command fuel w d connection get_mobicore_version_request =
    process_get_mobicore_version w d connection
