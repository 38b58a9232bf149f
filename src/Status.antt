-- ===== src/Status.antt =====
-- Result codes: MobiCoreDriverLib/ClientLib/public/MobiCoreDriverApi.h (driver) and
-- common/MobiCore/inc/Mci/mcimcp.h (MobiCore Control Protocol). A code is a uint32_t.
pub mod Codes
mod Tests
use trustonic_tee_user_space.Prelude.{ℕ, ◌+◌, ◌-◌, ◌*◌, ◌/◌, ◌^◌, bit_and, bit_or}

abbrev pub mc_drv_ok : ℕ
mc_drv_ok = 0

abbrev pub out_of_resources : ℕ
out_of_resources = 0x04

abbrev pub mc_drv_err_unknown : ℕ
mc_drv_err_unknown = 0x06

abbrev pub unknown_device : ℕ
unknown_device = 0x07

abbrev pub unknown_session : ℕ
unknown_session = 0x08

abbrev pub invalid_operation : ℕ
invalid_operation = 0x09

abbrev pub daemon_unreachable : ℕ
daemon_unreachable = 0x0f

abbrev pub invalid_device_file : ℕ
invalid_device_file = 0x10

abbrev pub invalid_parameter : ℕ
invalid_parameter = 0x11

abbrev pub bulk_mapping : ℕ
bulk_mapping = 0x13

abbrev pub bulk_unmapping : ℕ
bulk_unmapping = 0x14

abbrev pub mc_drv_err_notification : ℕ
mc_drv_err_notification = 0x02

abbrev pub timeout_error : ℕ
timeout_error = 0x0b

abbrev pub session_pending : ℕ
session_pending = 0x0e

abbrev pub info_notification : ℕ
info_notification = 0x15

abbrev pub daemon_version_error : ℕ
daemon_version_error = 0x17

abbrev pub interrupted_by_signal : ℕ
interrupted_by_signal = 0x23

abbrev pub nq_failed : ℕ
nq_failed = 0x16

abbrev pub daemon_device_not_open : ℕ
daemon_device_not_open = 0x21

abbrev pub no_free_memory : ℕ
no_free_memory = 0x0c

abbrev pub wrong_public_key : ℕ
wrong_public_key = 0x19

abbrev pub container_type_mismatch : ℕ
container_type_mismatch = 0x1a

abbrev pub container_locked : ℕ
container_locked = 0x1b

abbrev pub sp_no_child : ℕ
sp_no_child = 0x1c

abbrev pub tl_no_child : ℕ
tl_no_child = 0x1d

abbrev pub unwrap_root_failed : ℕ
unwrap_root_failed = 0x1e

abbrev pub unwrap_sp_failed : ℕ
unwrap_sp_failed = 0x1f

abbrev pub unwrap_trustlet_failed : ℕ
unwrap_trustlet_failed = 0x20

abbrev pub service_blocked : ℕ
service_blocked = 0x24

abbrev pub service_locked : ℕ
service_locked = 0x25

abbrev pub service_killed : ℕ
service_killed = 0x26

abbrev pub no_free_instances : ℕ
no_free_instances = 0x27

-- The names that the header derives from the codes above.
abbrev pub daemon_mci_error : ℕ
daemon_mci_error = daemon_unreachable

abbrev pub daemon_socket : ℕ
daemon_socket = daemon_unreachable

abbrev pub daemon_kmod_error : ℕ
daemon_kmod_error = daemon_unreachable

abbrev pub device_already_open : ℕ
device_already_open = invalid_operation

abbrev pub trustlet_not_found : ℕ
trustlet_not_found = invalid_device_file

abbrev pub mcp_error : ℕ
mcp_error = daemon_unreachable

abbrev pub wsm_handle_not_found : ℕ
wsm_handle_not_found = invalid_parameter

abbrev pub tci_greater_than_wsm : ℕ
tci_greater_than_wsm = invalid_parameter

-- `mcpResult_t`
abbrev pub mcp_ok : ℕ
mcp_ok = 0

abbrev pub mcp_signature_verification_failed : ℕ
mcp_signature_verification_failed = 15

abbrev pub mcp_close_task_failed : ℕ
mcp_close_task_failed = 28

abbrev pub mcp_unknown_uuid : ℕ
mcp_unknown_uuid = 2

abbrev pub mcp_no_more_sessions : ℕ
mcp_no_more_sessions = 4

abbrev pub mcp_wrong_public_key : ℕ
mcp_wrong_public_key = 16

abbrev pub mcp_container_type_mismatch : ℕ
mcp_container_type_mismatch = 17

abbrev pub mcp_container_locked : ℕ
mcp_container_locked = 18

abbrev pub mcp_sp_no_child : ℕ
mcp_sp_no_child = 19

abbrev pub mcp_tl_no_child : ℕ
mcp_tl_no_child = 20

abbrev pub mcp_unwrap_root_failed : ℕ
mcp_unwrap_root_failed = 21

abbrev pub mcp_unwrap_sp_failed : ℕ
mcp_unwrap_sp_failed = 22

abbrev pub mcp_unwrap_trustlet_failed : ℕ
mcp_unwrap_trustlet_failed = 23

abbrev pub mcp_service_blocked : ℕ
mcp_service_blocked = 29

abbrev pub mcp_service_locked : ℕ
mcp_service_locked = 30

abbrev pub mcp_service_killed : ℕ
mcp_service_killed = 31

-- `MAKE_MC_DRV_MCP_ERROR`
unfoldable pub make_mcp_error : ℕ → ℕ
make_mcp_error code = bit_or mcp_error (bit_and code 0x000FFFFF * 2 ^ 8)

-- `MC_DRV_ERROR_MAJOR`
unfoldable pub error_major : ℕ → ℕ
error_major code = bit_and code 0xFF

-- `MC_DRV_ERROR_MCP`
unfoldable pub error_mcp : ℕ → ℕ
error_mcp code = bit_and (code / 2 ^ 8) 0xFF

-- MC_DRV_ERR_TA_HEADER_ERROR
abbrev pub ta_header_error : ℕ
ta_header_error = 0x21

-- MC_DRV_ERR_TA_ATTESTATION_ERROR
abbrev pub ta_attestation_error : ℕ
ta_attestation_error = 0x22

-- `MC_DRV_ERROR_DETAIL`
unfoldable pub error_detail : ℕ → ℕ
error_detail code = bit_and (code / 2 ^ 16) 0x0FFF
