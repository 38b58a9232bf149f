-- ===== src/Client.antt =====
-- What the client library keeps of its devices and sessions:
-- MobiCoreDriverLib/ClientLib/Session.cpp and Device.cpp. A virtual address is a number, 0 for null.
-- The kernel module is a parameter that answers by the history of the calls that succeeded.
pub mod Session
pub mod Device
pub mod Buffers
pub mod Memory
pub mod Api
mod Tests
use trustonic_tee_user_space.Prelude.{ℕ, List}
use trustonic_tee_user_space.Status.{bulk_mapping, bulk_unmapping, no_free_memory}

pub data KernelEvent : Type 0 where
  registered unregistered mapped freed : (handle : ℕ) → KernelEvent
  connection_closed : (connection : ℕ) → KernelEvent

-- `CMcKMod`: each call gives a code, 0 for success, and what it hands out.
pub record Kernel : Type 0 where
  pub register_wsm_l2 : List KernelEvent → (buf len : ℕ) → ℕ × ℕ
  pub unregister_wsm_l2 : List KernelEvent → (handle : ℕ) → ℕ
  pub map_wsm : List KernelEvent → (len : ℕ) → ℕ × ℕ × ℕ
  pub free : List KernelEvent → (handle virt_addr len : ℕ) → ℕ

pub record BulkBufferDescriptor : Type 0 where
  pub virt_addr : ℕ
  pub s_virtual_addr : ℕ
  pub len : ℕ
  pub handle : ℕ

pub data ClientState : Type 0 where
  session_state_initial session_state_open session_state_trustlet_dead : ClientState

-- `last_err` is the int32_t as its bit pattern.
pub record ClientSession : Type 0 where
  pub session_id : ℕ
  pub notification_connection : ℕ
  pub last_err : ℕ
  pub state : ClientState
  pub bulk_buffer_descriptors : List BulkBufferDescriptor

-- `CWsm` with the address of the object.
pub record ClientWsm : Type 0 where
  pub object : ℕ
  pub virt_addr : ℕ
  pub len : ℕ
  pub handle : ℕ

pub record ClientDevice : Type 0 where
  pub session_list : List ClientSession
  pub wsm_l2_list : List ClientWsm
  pub log : List KernelEvent

abbrev pub buffer_already_mapped : ℕ
buffer_already_mapped = bulk_mapping

abbrev pub blk_buff_not_found : ℕ
blk_buff_not_found = bulk_unmapping

abbrev pub invalid_length : ℕ
invalid_length = no_free_memory
