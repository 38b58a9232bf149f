-- ===== src/Daemon/Services.antt =====
-- Handing a service to the secure world: TrustZoneDevice::registerWsmL2 and unregisterWsmL2, and
-- MobiCoreDriverDaemon::processOpenSession, processLoadCheck and loadToken.
use trustonic_tee_user_space.Prelude.{
  ℕ, ◌+◌, ◌%◌, ◌^◌, Bool, true, false, Option, none, some, ◌==◌, ◌&&◌, List, if◌then◌else◌,
}
use trustonic_tee_user_space.Status.{mc_drv_ok, mcp_ok, trustlet_not_found, daemon_kmod_error}
use trustonic_tee_user_space.TrustletSession.{Wsm}
use trustonic_tee_user_space.Device.{
  Device, LoadData, logged, registered, unregistered, unregister_failed, register_failed,
}
use trustonic_tee_user_space.Device.Open.{OpenPayload, open_session}
use trustonic_tee_user_space.Device.Commands.{load_token, check_load}
use trustonic_tee_user_space.Daemon.{
  World, Daemon, RegObject, Received, session_opened, write_data, write_result, recv_payload,
  check_device,
}

unfoldable pub register_service : World → Device → (buffer len : ℕ) → Option Wsm × Device
register_service w d buffer len = elim (w.register_wsm d.log buffer len) [
  | none ↦ (none, logged d register_failed)
  | some (handle, phys_addr) ↦ (
    some (record { len = len; handle = handle; phys_addr = phys_addr }),
    logged d (registered handle),
  )
]

unfoldable pub unregister_service : World → Device → Wsm → Bool × Device
unregister_service w d wsm =
    if w.unregister_wsm d.log wsm.handle
    then (true, logged d (unregistered wsm.handle))
    else (false, logged d (unregister_failed wsm.handle))

-- `loadDataOpenSession` for a service at the buffer.
unfoldable pub load_data : RegObject → Wsm → (is_gpta : Bool) → LoadData
load_data obj wsm is_gpta = record {
  base_addr = wsm.phys_addr;
  offs = obj.value % 2 ^ 12;
  len = obj.len;
  tl_header = obj.value + obj.tl_start_offset;
  uuid = obj.uuid;
  is_gpta = is_gpta;
}

-- The TCI buffer that a client names when it opens a session.
pub record TciRequest : Type 0 where
  pub handle : ℕ
  pub len : ℕ
  pub tci : ℕ

-- `MC_DRV_CMD_OPEN_SESSION_struct`; the device id in it is not read.
pub record OpenSessionRequest : Type 0 where
  pub uuid : ℕ
  pub buffer : TciRequest

-- The answer to an open: an error code alone, or the payload.
unfoldable pub answer_open : ℕ → ℕ → Option OpenPayload → Daemon → Daemon
answer_open connection ret p d =
    if ret == mc_drv_ok
    then elim p [ none ↦ d | some sent ↦ write_data connection (session_opened sent) d ]
    else write_result connection ret d

-- With the service's buffer registered: opens, unregisters, answers. If unregistering fails, the
-- outcome of the open is not told.
unfoldable pub open_registered :
    World → Daemon → (connection : ℕ) → RegObject → (is_gpta : Bool) → TciRequest → Wsm → Daemon
unfolding unregister_service load_data answer_open
open_registered w d connection obj is_gpta t wsm =
    let (ret, p, opened) =
      open_session w.env d.device connection (w.socket_descriptor connection)
        (load_data obj wsm is_gpta) t.handle t.len t.tci in
    let (done, left) = unregister_service w opened wsm in
    let d' : Daemon = record d { device = left } in
    if done then answer_open connection ret p d' else write_result connection daemon_kmod_error d'

-- The part of processOpenSession and processOpenTrustlet that follows the look-up.
unfoldable pub open_service :
    World → Daemon → (connection : ℕ) → RegObject → (is_gpta : Bool) → TciRequest → Daemon
unfolding register_service open_registered
open_service w d connection obj is_gpta t =
    let (found, shared) = register_service w d.device obj.value obj.len in
    let d' : Daemon = record d { device = shared } in
    if obj.len == 0 then write_result connection trustlet_not_found d else elim found [
      | none ↦ write_result connection daemon_kmod_error d'
      | some wsm ↦ open_registered w d' connection obj is_gpta t wsm
    ]

-- sizeof(mclfHeaderV2_t), and of the regObject_t before it.
abbrev pub mclf_header_v2_size : ℕ
mclf_header_v2_size = 76

abbrev pub reg_object_size : ℕ
reg_object_size = 8

-- Without a blob the secure world is asked for the uuid: the blob is a header with it.
dummy_service : World → Daemon → (uuid : ℕ) → Option RegObject
dummy_service w d uuid = elim (w.malloc d.device.log (reg_object_size + mclf_header_v2_size)) [
  | none ↦ none
  | some address ↦ some (record {
    value = address + reg_object_size;
    len = mclf_header_v2_size;
    tl_start_offset = 0;
    uuid = uuid;
  })
]

unfoldable pub find_service : World → Daemon → (uuid : ℕ) → (is_gp_uuid : Bool) → Option RegObject
unfolding dummy_service
find_service w d uuid is_gp_uuid = elim (w.service_blob d.device.log uuid is_gp_uuid) [
  | none ↦ dummy_service w d uuid
  | some obj ↦ some obj
]

unfoldable pub process_open_session :
    World
    → Daemon
    → (connection : ℕ) → (is_gp_uuid : Bool) → Received OpenSessionRequest
    → Option Daemon
unfolding recv_payload check_device find_service open_service
process_open_session w d connection is_gp_uuid r = recv_payload connection r d (λ cmd.
    check_device connection d (
      some (elim (find_service w d cmd.uuid is_gp_uuid) [
        | none ↦ write_result connection trustlet_not_found d
        | some obj ↦ open_service w d connection obj is_gp_uuid cmd.buffer
      ])))

-- With the blob's buffer registered. The flag of the load data is not set there, and not read.
check_registered : World → Device → RegObject → Wsm → ℕ × Device
unfolding unregister_service load_data
check_registered w d obj wsm =
    let (ret, checked) = check_load w.env d (load_data obj wsm false) in
    let (done, left) = unregister_service w checked wsm in
    (if done then ret else daemon_kmod_error, left)

-- What the registry makes of a blob is tried on the secure world before the blob is stored.
unfoldable pub process_load_check : World → Daemon → (spid : ℕ) → (blob : List ℕ) → ℕ × Daemon
unfolding register_service check_registered
process_load_check w d spid blob = elim (w.mem_service_blob d.device.log spid blob) [
  | none ↦ (trustlet_not_found, d)
  | some obj ↦
      let (found, shared) = register_service w d.device obj.value obj.len in
      if obj.len == 0 then (trustlet_not_found, d) else elim found [
        | none ↦ (daemon_kmod_error, record d { device = shared })
        | some wsm ↦
            let (ret, left) = check_registered w shared obj wsm in (ret, record d { device = left })
      ]
]

-- `MobiCoreDriverDaemon::loadToken` of a token at the address.
unfoldable pub install_token : World → Daemon → (token so_size : ℕ) → Bool × Daemon
unfolding register_service unregister_service
install_token w d token so_size =
    let (found, shared) = register_service w d.device token so_size in
    elim found [
      | none ↦ (false, record d { device = shared })
      | some wsm ↦
          let (ret, loaded) = load_token w.env shared wsm.phys_addr (token % 2 ^ 12) so_size in
          let (done, left) = unregister_service w loaded wsm in
          (done && ret == mcp_ok, record d { device = left })
    ]
