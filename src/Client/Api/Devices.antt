-- ===== src/Client/Api/Devices.antt =====
-- mcOpenDevice, mcCloseDevice, mcGetMobiCoreVersion and getDaemonVersion.
use trustonic_tee_user_space.Prelude.{
  ℕ, ◌%◌, ◌/◌, ◌^◌, Bool, [], ◌∷◌, ◌++◌, none, some, ◌==◌, ◌&&◌, if◌then◌else◌, leb, not,
}
use trustonic_tee_user_space.Prelude.Words.{add32, sub32}
use trustonic_tee_user_space.Status.{
  mc_drv_ok, daemon_unreachable, daemon_device_not_open, session_pending, daemon_version_error,
}
use trustonic_tee_user_space.Client.Device.{has_sessions, delete_device}
use trustonic_tee_user_space.Client.Api.{
  Platform, Api, OpenDevice, happened, connected, connect_failed, socket_deleted, device_deleted,
  msg_get_version, msg_open_device, msg_close_device, msg_get_mobicore_version, resolve_device_id,
  update_device, remove_device, send_to_daemon, recv_code, received_from, check_device,
}

-- `checkVersionOkDAEMON`: the library was built for version 0.2 of the daemon.
unfoldable pub is_version_ok : ℕ → Bool
is_version_ok version = version / 2 ^ 16 == 0 && leb 2 (version % 2 ^ 16)

-- With the version, to the rest of the open.
unfoldable pub get_daemon_version :
    Platform → (connection : ℕ) → Api → (ℕ → Api → ℕ × Api) → ℕ × Api
unfolding send_to_daemon received_from
get_daemon_version p connection a next = send_to_daemon p connection msg_get_version a (λ a1.
    recv_code p connection a1
      (λ code a2. if code == mc_drv_ok then recv_code p connection a2 next else (code, a2)))

-- The new device, if the kernel module can be opened: the code for an error is that of a bool.
open_kernel_device : Platform → (device_id connection : ℕ) → Api → ℕ × Api
open_kernel_device p device_id connection a =
    if p.open_kernel a.log == mc_drv_ok
    then (
      mc_drv_ok,
      record a {
        devices =
            a.devices
            ++ record {
              device_id = device_id;
              connection = connection;
              open_count = 1;
              device = record { session_list = []; wsm_l2_list = []; log = [] };
            }
              ∷ [];
      },
    )
    else (
      1,
      happened
          (device_deleted (
            delete_device p.kernel (record { session_list = []; wsm_l2_list = []; log = [] })
              connection))
          a,
    )

-- What follows the connect; the socket is deleted on every error before the device owns it.
unfoldable pub open_connected : Platform → (device_id connection : ℕ) → Api → ℕ × Api
unfolding get_daemon_version send_to_daemon received_from open_kernel_device
open_connected p device_id connection a = get_daemon_version p connection a (λ version a1.
    if is_version_ok version
    then send_to_daemon p connection (msg_open_device device_id) a1
        (λ a2. recv_code p connection a2 (λ code a3. (code, a3)))
    else (daemon_version_error, a1))

unfoldable pub mc_open_device : Platform → Api → (device_id : ℕ) → ℕ × Api
unfolding open_connected open_kernel_device
mc_open_device p a device_id = elim (resolve_device_id a.devices device_id) [
  | some d ↦ (
    mc_drv_ok,
    record a {
      devices =
          update_device device_id (λ x. record x { open_count = add32 x.open_count 1 }) a.devices;
    },
  )
  | none ↦ elim (p.connect a.log) [
    | none ↦ (daemon_unreachable, happened connect_failed a)
    | some connection ↦
        let (code, a') =
          open_connected p device_id connection (happened (connected connection) a) in
        if code == mc_drv_ok
        then open_kernel_device p device_id connection a'
        else (code, happened (socket_deleted connection) a')
  ]
]

-- With the only reference: the daemon is told, unless sessions are left.
close_last : Platform → (device_id : ℕ) → OpenDevice → Api → ℕ × Api
unfolding send_to_daemon received_from
close_last p device_id d a =
    if not (p.is_alive a.log d.connection)
    then (daemon_unreachable, remove_device p a device_id)
    else if has_sessions d.device
    then (session_pending, a)
    else send_to_daemon p d.connection msg_close_device a (λ a1.
      recv_code p d.connection a1
        (λ code a2. (code, if code == mc_drv_ok then remove_device p a2 device_id else a2)))

-- `CHECK_DEVICE_CLOSED` says of the default device that it is not open, of others that they are
-- unknown.
unfoldable pub mc_close_device : Platform → Api → (device_id : ℕ) → ℕ × Api
unfolding close_last check_device
mc_close_device p a device_id = elim (resolve_device_id a.devices device_id) [
  | none ↦
      if device_id == 0
      then (daemon_device_not_open, a)
      else check_device a device_id (λ _. (mc_drv_ok, a))
  | some d ↦ if d.open_count == 1 then close_last p device_id d a else (
    mc_drv_ok,
    record a {
      devices =
          update_device device_id (λ x. record x { open_count = sub32 x.open_count 1 }) a.devices;
    },
  )
]

-- Hands out the version; a refusal of the daemon is reported as an unreachable daemon.
unfoldable pub mc_get_mobicore_version : Platform → Api → (device_id : ℕ) → ℕ × Api
unfolding send_to_daemon received_from check_device
mc_get_mobicore_version p a device_id = check_device a device_id (λ d.
    send_to_daemon p d.connection msg_get_mobicore_version a (λ a1.
      recv_code p d.connection a1 (λ code a2.
        if code == mc_drv_ok
        then recv_code p d.connection a2
            (λ version a3. (mc_drv_ok, record a3 { out = some version }))
        else (daemon_unreachable, a2))))
