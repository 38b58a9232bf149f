-- ===== src/Daemon/Unopened.antt =====
-- What a connection that has not opened the device is answered.
use trustonic_tee_user_space.Prelude.{ℕ, ◌≡◌, refl, ap, false, Option, none, some}
use trustonic_tee_user_space.Status.{daemon_device_not_open, daemon_socket}
use trustonic_tee_user_space.Daemon.{
  World, Daemon, Received, read_failed, wrong_length, payload, has_device, recv_payload,
  check_device, write_result,
}
use trustonic_tee_user_space.Daemon.Services.{process_open_session}
use trustonic_tee_user_space.Daemon.Trustlet.{process_open_trustlet}
use trustonic_tee_user_space.Daemon.Process.{
  process_close_device, process_close_session, process_notify, process_map_bulk_buf,
  process_unmap_bulk_buf, process_get_mobicore_version,
}
use trustonic_tee_user_space.Daemon.Dispatch.{
  Request, open_device, close_device_request, open_session_request, open_trustlet, open_trusted_app,
  close_session_request, nq_connect, notify_request, map_bulk_buf_request, unmap_bulk_buf_request,
  get_version, get_mobicore_version_request, handle_command,
}

-- The commands whose handlers look for the connection's device.
abbrev pub NeedsDevice : Request → Type 0
NeedsDevice (open_device _) = ⊥
NeedsDevice (nq_connect _) = ⊥
NeedsDevice get_version = ⊥
NeedsDevice _ = Unit

abbrev pub refusal {ℓ} : {A : Type ℓ} → Received A → ℕ
refusal read_failed = daemon_socket
refusal wrong_length = daemon_socket
refusal (payload _) = daemon_device_not_open

-- What such a command is answered: a bad payload is found before the missing device, and NOTIFY has
-- no answer.
abbrev pub refused : Request → Option ℕ
refused (open_device r) = none
refused close_device_request = some daemon_device_not_open
refused (open_session_request r) = some (refusal r)
refused (open_trustlet reads r) = some (refusal r)
refused (open_trusted_app r) = some (refusal r)
refused (close_session_request r) = some (refusal r)
refused (nq_connect r) = none
refused (notify_request r) = none
refused (map_bulk_buf_request r) = some (refusal r)
refused (unmap_bulk_buf_request r) = some (refusal r)
refused get_version = none
refused get_mobicore_version_request = some daemon_device_not_open

abbrev pub answered : (connection : ℕ) → Option ℕ → Daemon → Daemon
answered connection none d = d
answered connection (some code) d = write_result connection code d

check_device-not_open :
    (c : ℕ) (d : Daemon) (next : Option Daemon)
    → has_device c d.opened ≡ false
    → check_device c d next ≡ some (write_result c daemon_device_not_open d)
unfolding check_device
check_device-not_open c d next e = rw e refl

received-not_open {ℓ} :
    {A : Type ℓ} (c : ℕ) (r : Received A) (d : Daemon) (next : A → Option Daemon)
    → ((x : A) → next x ≡ some (write_result c daemon_device_not_open d))
    → recv_payload c r d next ≡ some (write_result c (refusal r) d)
unfolding recv_payload
received-not_open c read_failed d next h = refl
received-not_open c wrong_length d next h = refl
received-not_open c (payload x) d next h = h x

process_notify-not_open :
    (c : ℕ) (d : Daemon) (r : Received ℕ) → has_device c d.opened ≡ false → process_notify d c r ≡ d
unfolding process_notify
process_notify-not_open c d read_failed e = refl
process_notify-not_open c d wrong_length e = refl
process_notify-not_open c d (payload x) e = rw e refl

-- A command of a connection that has not opened the device, OPEN_DEVICE, NQ_CONNECT, GET_VERSION
-- and those for the registry's files apart, does nothing but to be answered: with DAEMON_SOCKET if
-- its payload was not received, else with DAEMON_DEVICE_NOT_OPEN. NOTIFY does nothing at all.
pub handle_command-not_open :
    (fuel : ℕ) (w : World) (d : Daemon) (c : ℕ) (r : Request)
    → NeedsDevice r
    → has_device c d.opened ≡ false
    → handle_command fuel w d c r ≡ some (answered c (refused r) d)
unfolding handle_command process_open_session process_open_trustlet process_close_device
    process_close_session process_map_bulk_buf process_unmap_bulk_buf process_get_mobicore_version
handle_command-not_open fuel w d c (open_device r) n e = absurd n
handle_command-not_open fuel w d c (nq_connect r) n e = absurd n
handle_command-not_open fuel w d c get_version n e = absurd n
handle_command-not_open fuel w d c close_device_request n e = check_device-not_open c d _ e
handle_command-not_open fuel w d c (open_session_request r) n e =
    received-not_open c r d _ (λ x. check_device-not_open c d _ e)
handle_command-not_open fuel w d c (open_trustlet reads r) n e =
    received-not_open c r d _ (λ x. check_device-not_open c d _ e)
handle_command-not_open fuel w d c (open_trusted_app r) n e =
    received-not_open c r d _ (λ x. check_device-not_open c d _ e)
handle_command-not_open fuel w d c (close_session_request r) n e =
    received-not_open c r d _ (λ x. check_device-not_open c d _ e)
handle_command-not_open fuel w d c (notify_request r) n e =
    ap some (process_notify-not_open c d r e)
handle_command-not_open fuel w d c (map_bulk_buf_request r) n e =
    received-not_open c r d _ (λ x. check_device-not_open c d _ e)
handle_command-not_open fuel w d c (unmap_bulk_buf_request r) n e =
    received-not_open c r d _ (λ x. check_device-not_open c d _ e)
handle_command-not_open fuel w d c get_mobicore_version_request n e = check_device-not_open c d _ e
