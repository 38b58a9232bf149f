-- ===== src/Device.antt =====
-- The daemon's device: class MobiCoreDevice
-- (MobiCoreDriverLib/Daemon/Device/MobiCoreDevice.cpp, public/MobiCoreDevice.h) with the methods of
-- its subclass TrustZoneDevice (Device/Platforms/Generic/TrustZoneDevice.cpp), and the MCP messages
-- of common/MobiCore/inc/Mci/mcimcp.h.
-- The secure world, the kernel module and the allocator are parameters, in `Env`: each answers by
-- the history of what the daemon did so far.
pub mod Irq
pub mod Mcp
pub mod Sessions
pub mod Commands
pub mod Open
pub mod Close
pub mod TaExit
pub mod Timeout
pub mod Skeleton
pub mod Ownership
pub mod Faults
pub mod Replies
pub mod Lookups
pub mod Mapping
pub mod Opening
pub mod Closing
pub mod Locks
pub mod Cleanup
pub mod CloseAll
pub mod Delivery
pub mod Tests
use trustonic_tee_user_space.Prelude.{ℕ, ◌≡◌, Bool, List, [], ◌∷◌, Option, none, some, ◌^◌, ◌+◌}
use trustonic_tee_user_space.NotificationQueue.{Notification, NotificationQueue}
use trustonic_tee_user_space.TrustletSession.{TrustletSession}

-- How load data and TCI buffers are referenced: WSM_INVALID and so on.
pub data WsmType : Type 0 where
  wsm_invalid wsm_contiguous wsm_l2 wsm_l1 : WsmType

-- `loadDataOpenSession_t`; the header and the uuid in it stand for their bytes.
pub record LoadData : Type 0 where
  pub base_addr : ℕ
  pub offs : ℕ
  pub len : ℕ
  pub tl_header : ℕ
  pub uuid : ℕ
  pub is_gpta : Bool

-- `mcpCmdOpen_t`, less the command id.
pub record OpenCommand : Type 0 where
  pub wsm_type_tci : WsmType
  pub adr_tci : ℕ
  pub ofs_tci : ℕ
  pub len_tci : ℕ
  pub wsm_type_load : WsmType
  pub load : LoadData

-- The command that is written to the MCP buffer.
pub data Command : Type 0 where
  cmd_open : OpenCommand → Command
  cmd_check_load : WsmType → LoadData → Command
  cmd_close : ℕ → Command
  cmd_map : (session_id : ℕ) → WsmType → (adr ofs len : ℕ) → Command
  cmd_unmap : (session_id : ℕ) → WsmType → (adr len : ℕ) → Command
  cmd_get_mobicore_version : Command
  cmd_load_token : WsmType → (adr ofs len : ℕ) → Command

-- The MC_MCP_CMD_… number of a command, and the bit that marks its response.
abbrev pub cmd_id : Command → ℕ
cmd_id (cmd_open _) = 0x1
cmd_id (cmd_check_load _ _) = 0xC
cmd_id (cmd_close _) = 0x3
cmd_id (cmd_map _ _ _ _ _) = 0x4
cmd_id (cmd_unmap _ _ _ _) = 0x5
cmd_id cmd_get_mobicore_version = 0x9
cmd_id (cmd_load_token _ _ _ _) = 0xB

-- `cmd | FLAG_RESPONSE`: the command numbers leave bit 31 clear.
abbrev pub response_id : Command → ℕ
response_id c = cmd_id c + 2 ^ 31

-- What the MCP buffer holds as a response.
pub record Response : Type 0 where
  pub rsp_id : ℕ
  pub result : ℕ
  pub session_id : ℕ
  pub secure_virtual_adr : ℕ
  pub version_info : ℕ

-- What the daemon did, as the rest of the system sees it.
pub data Event : Type 0 where
  sent : Command → Event
  nsiq : Event
  locked unlocked : (handle : ℕ) → Event
  lock_failed : (handle : ℕ) → Event
  registered unregistered unregister_failed : (handle : ℕ) → Event
  register_failed : Event
  written : (connection : ℕ) → Notification → Event
  notification_socket_closed : (connection : ℕ) → Event
  ta_exit_wakeup : Event
  scheduler_wakeup : Event
  status_dumped : Event
  threads_joined : Event

pub record Device : Type 0 where
  pub sessions : List TrustletSession
  pub notifications : List Notification
  pub mc_fault : Bool
  pub mc_version_info : Option ℕ
  pub mci_reused : Bool
  pub nq : NotificationQueue
  pub rsp : Response
  -- newest first
  pub log : List Event

-- What happens between the notification of a command and the end of the wait for its response.
pub record Exchange : Type 0 where
  -- taken from the incoming ring and handled by the IRQ thread meanwhile
  pub delivered : List Notification
  -- whether the i-th wait of ten seconds got the semaphore, and the status read where it did not
  pub signalled : ℕ → Bool
  pub status : ℕ → ℕ
  -- one of the three threads of the device is exiting
  pub thread_exiting : Bool
  -- the response that stands in the MCP buffer, and the rings, afterwards
  pub rsp : Response
  pub nq : NotificationQueue

pub record Env : Type 0 where
  pub exchange : List Event → Command → Exchange
  -- kernel module: `lockWsmL2` returns 0; `findContiguousWsm` gives address and length;
  -- `findWsmL2` gives an address, 0 for none
  pub lock_wsm : List Event → (handle : ℕ) → Bool
  pub find_contiguous_wsm : List Event → (handle fd : ℕ) → Option (ℕ × ℕ)
  pub find_wsm : List Event → (handle fd : ℕ) → ℕ
  -- the address that `new` gives the next session, and its `rand()`
  pub new_address : List Event → ℕ
  pub rand : List Event → ℕ

abbrev pub logged : Device → Event → Device
logged d e = record d { log = e ∷ d.log }

abbrev pub mc_status_halt : ℕ
mc_status_halt = 3
