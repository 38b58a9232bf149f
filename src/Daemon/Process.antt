-- ===== src/Daemon/Process.antt =====
-- The handlers of the commands of MobiCoreDriverDaemon, beside those that open a session, with
-- MobiCoreDevice::open.
use trustonic_tee_user_space.Prelude.{
  ℕ, ◌*◌, ◌+◌, ◌^◌, List, [], ◌∷◌, Option, none, some, ◌==◌, if◌then◌else◌,
}
use trustonic_tee_user_space.Status.{
  mc_drv_ok, unknown_device, device_already_open, mc_drv_err_unknown, nq_failed,
  wsm_handle_not_found,
}
use trustonic_tee_user_space.NotificationQueue.{Notification}
use trustonic_tee_user_space.TrustletSession.{TrustletSession, process_queued_notifications}
use trustonic_tee_user_space.Device.{Device, logged, written, unlocked}
use trustonic_tee_user_space.Device.Irq.{update_at}
use trustonic_tee_user_space.Device.Sessions.{NqConnect, register_trustlet_connection, notify}
use trustonic_tee_user_space.Device.Commands.{map_bulk, unmap_bulk, get_mobicore_version}
use trustonic_tee_user_space.Device.Open.{lock_wsm_l2}
use trustonic_tee_user_space.Device.Close.{close_session, close}
use trustonic_tee_user_space.Daemon.{
  World, Daemon, Received, read_failed, wrong_length, payload, bulk_mapped, daemon_version,
  mobicore_version, has_device, remove_connection, write_data, write_result, recv_payload,
  check_device,
}

abbrev pub device_id_default : ℕ
device_id_default = 0

unfoldable pub process_open_device : Daemon → (connection : ℕ) → Received ℕ → Option Daemon
unfolding recv_payload
process_open_device d connection r = recv_payload connection r d (λ device_id. some (
    if has_device connection d.opened
    then write_result connection device_already_open d
    else if device_id == device_id_default
    then write_result connection mc_drv_ok (record d { opened = connection ∷ d.opened })
    else write_result connection unknown_device d))

-- `device->close(connection)`, which also clears the connection's device.
unfoldable pub close_device : ℕ → World → Daemon → (connection : ℕ) → Option Daemon
close_device fuel w d connection = elim (close fuel w.env d.device connection) [
  | none ↦ none
  | some left ↦ some (record d { device = left; opened = remove_connection connection d.opened })
]

unfoldable pub process_close_device : ℕ → World → Daemon → (connection : ℕ) → Option Daemon
unfolding check_device close_device
process_close_device fuel w d connection =
    check_device connection d (elim (close_device fuel w d connection) [
      | none ↦ none
      | some d' ↦ some (write_result connection mc_drv_ok d')
    ])

unfoldable pub process_close_session :
    World → Daemon → (connection : ℕ) → Received ℕ → Option Daemon
unfolding recv_payload check_device
process_close_session w d connection r = recv_payload connection r d (λ session_id.
    let (ret, left) = close_session w.env d.device connection session_id in
    check_device connection d (some (write_result connection ret (record d { device = left }))))

-- `MC_DRV_CMD_NQ_CONNECT_struct`
pub record NqRequest : Type 0 where
  pub device_id : ℕ
  pub target : NqConnect

unfoldable pub log_written : List (ℕ × Notification) → Device → Device
log_written [] d = d
log_written ((connection, n) ∷ ns) d = log_written ns (logged d (written connection n))

-- `ts->processQueuedNotifications()`
unfoldable pub flush_session : Device → TrustletSession → Device
unfolding log_written
flush_session d s =
    let sent = (process_queued_notifications s).1 in
    log_written sent (record d {
      sessions = update_at s.address (λ t. (process_queued_notifications t).0) d.sessions;
    })

unfoldable pub connect_session : Daemon → (connection : ℕ) → NqConnect → Daemon
unfolding flush_session
connect_session d connection target =
    let (found, device) = register_trustlet_connection d.device connection target in
    elim found [
      | none ↦ write_result connection mc_drv_err_unknown (record d { device = device })
      | some s ↦ write_result connection mc_drv_ok (record d { device = flush_session device s })
    ]

-- The servers stop listening on the connection before the request is checked.
unfoldable pub process_nq_connect : Daemon → (connection : ℕ) → Received NqRequest → Option Daemon
unfolding recv_payload connect_session
process_nq_connect d connection r = recv_payload connection r d (λ cmd.
    let detached : Daemon = record d { attached = remove_connection connection d.attached } in
    some (
      if has_device connection d.opened
      then write_result connection nq_failed d
      else if cmd.device_id == device_id_default
      then connect_session detached connection cmd.target
      else write_result connection unknown_device detached))

-- There is no response at all.
unfoldable pub process_notify : Daemon → (connection : ℕ) → Received ℕ → Daemon
process_notify d connection read_failed = d
process_notify d connection wrong_length = d
process_notify d connection (payload session_id) =
    if has_device connection d.opened
    then record d { device = (notify d.device connection session_id).1 }
    else d

-- `MC_DRV_CMD_MAP_BULK_BUF_struct`
pub record MapRequest : Type 0 where
  pub session_id : ℕ
  pub handle : ℕ
  pub offset_payload : ℕ
  pub len_bulk_mem : ℕ

-- With the buffer locked: the lock stays if the buffer is not found or mapping fails.
unfoldable pub map_locked : World → Daemon → (connection : ℕ) → MapRequest → Daemon
map_locked w d connection cmd =
    let p_addr_l2 = w.env.find_wsm d.device.log cmd.handle (w.socket_descriptor connection) in
    let (ret, adr, left) =
      map_bulk w.env d.device connection cmd.session_id cmd.handle p_addr_l2 cmd.offset_payload
        cmd.len_bulk_mem in
    let d' : Daemon = record d { device = left } in
    if p_addr_l2 == 0 then write_result connection wsm_handle_not_found d else elim adr [
      | none ↦ write_result connection ret d'
      | some secure_virtual_adr ↦
          write_data connection (bulk_mapped cmd.session_id secure_virtual_adr) d'
    ]

unfoldable pub process_map_bulk_buf :
    World → Daemon → (connection : ℕ) → Received MapRequest → Option Daemon
unfolding recv_payload check_device map_locked
process_map_bulk_buf w d connection r = recv_payload connection r d (λ cmd.
    let (done, device) = lock_wsm_l2 w.env d.device cmd.handle in
    let d' : Daemon = record d { device = device } in
    check_device connection d (
      some (
        if done
        then map_locked w d' connection cmd
        else write_result connection wsm_handle_not_found d')))

-- `MC_DRV_CMD_UNMAP_BULK_BUF_struct`
pub record UnmapRequest : Type 0 where
  pub session_id : ℕ
  pub handle : ℕ
  pub secure_virtual_adr : ℕ
  pub len_bulk_mem : ℕ

unfoldable pub process_unmap_bulk_buf :
    World → Daemon → (connection : ℕ) → Received UnmapRequest → Option Daemon
unfolding recv_payload check_device
process_unmap_bulk_buf w d connection r = recv_payload connection r d (λ cmd.
    let (ret, left) =
      unmap_bulk w.env d.device connection cmd.session_id cmd.handle cmd.secure_virtual_adr
        cmd.len_bulk_mem in
    check_device connection d (
      some (
        if ret == mc_drv_ok
        then write_result connection mc_drv_ok
            (record d { device = logged left (unlocked cmd.handle) })
        else write_result connection ret (record d { device = left }))))

-- MC_MAKE_VERSION(DAEMON_VERSION_MAJOR, DAEMON_VERSION_MINOR)
unfoldable pub process_get_version : Daemon → (connection : ℕ) → Daemon
process_get_version d connection = write_data connection (daemon_version (0 * 2 ^ 16 + 2)) d

unfoldable pub process_get_mobicore_version : World → Daemon → (connection : ℕ) → Option Daemon
unfolding check_device
process_get_mobicore_version w d connection =
    let (ret, version, left) = get_mobicore_version w.env d.device in
    let d' : Daemon = record d { device = left } in
    check_device connection d (
      some (elim version [
        | none ↦ write_result connection ret d'
        | some v ↦ write_data connection (mobicore_version v) d'
      ]))
