-- ===== src/Client/Api/Tests.antt =====
-- Concrete clients and daemons.
use trustonic_tee_user_space.Prelude.{
  ℕ, zero, suc, ◌≡◌, ◌≢◌, refl, true, false, List, [], ◌∷◌, none, some, arith, length,
}
use trustonic_tee_user_space.Status.{mc_drv_ok, daemon_unreachable, info_notification}
use trustonic_tee_user_space.Client.{ClientSession, BulkBufferDescriptor, session_state_open}
use trustonic_tee_user_space.Client.Device.{resolve_session_id}
use trustonic_tee_user_space.Client.Session.{get_buf_handle}
use trustonic_tee_user_space.Client.Tests.{kernel}
use trustonic_tee_user_space.Client.Api.{
  Platform, Api, OpenDevice, got, without_device, resolve_device_id,
}
use trustonic_tee_user_space.Client.Api.Devices.{mc_open_device, mc_close_device}
use trustonic_tee_user_space.Client.Api.Sessions.{mc_open_session}
use trustonic_tee_user_space.Client.Api.Memory.{mc_unmap, mc_get_session_error_code}
use trustonic_tee_user_space.Client.Api.Wait.{
  Timeout, infinite, Read, timed_out, notification, wait_loop, mc_wait_notification,
}
use trustonic_tee_user_space.Client.Api.Drains.{Reads, drained, wait_loop-drained}
use trustonic_tee_user_space.Client.Api.Lookup.{mc_close_device-mc_open_device}
use trustonic_tee_user_space.Client.Api.Openings.{Outcome, mc_open_session-Outcome}
use trustonic_tee_user_space.Client.Api.Refused.{mc_unmap-refused}
use trustonic_tee_user_space.Client.Api.ExitCodes.{mc_get_session_error_code-mc_wait_notification}

-- A daemon that answers each request with the code, and opens session 21.
abbrev platform : ℕ → Platform
platform code = record {
  kernel = kernel;
  connect = λ log. some (length log);
  send = λ _ _ _. true;
  recv_number = λ _ _. got code;
  recv_opened =
      λ _ _. got (record { session_id = 21; device_session_id = 4000; session_magic = 77 });
  is_alive = λ _ _. true;
  open_kernel = λ _. 0;
  new_object = λ log. length log;
}

abbrev mapped : BulkBufferDescriptor
mapped = record { virt_addr = 100; s_virtual_addr = 5000; len = 16; handle = 3 }

abbrev seven : ClientSession
seven = record {
  session_id = 7;
  notification_connection = 1;
  last_err = 0;
  state = session_state_open;
  bulk_buffer_descriptors = mapped ∷ [];
}

abbrev opened : OpenDevice
opened = record {
  device_id = 0;
  connection = 50;
  open_count = 1;
  device = record { session_list = seven ∷ []; wsm_l2_list = []; log = [] };
}

abbrev api : Api
api = record { devices = opened ∷ []; out = none; log = [] }

mc_close_device-mc_open_device_example :
    ((mc_open_device (platform 0) api 0).0 ≡ mc_drv_ok)
    × (mc_close_device (platform 0) (mc_open_device (platform 0) api 0).1 0 ≡ (mc_drv_ok, api))
unfolding resolve_device_id
mc_close_device-mc_open_device_example =
    mc_close_device-mc_open_device (platform 0) api 0 opened refl (omega arith) (omega arith)

mc_open_session-Outcome_example :
    Outcome (platform 0) api 0 300 8 (mc_open_session (platform 0) api (some 0) (some 5) 300 8)
mc_open_session-Outcome_example = mc_open_session-Outcome (platform 0) api 0 (some 5) 300 8

one-ne-ok : 8 ≢ mc_drv_ok
one-ne-ok = omega arith

mc_unmap-refused_example :
    let (ret, a') = mc_unmap (platform 8) api (some (0, 7)) 100 (some (5000, 16)) in
    (ret ≡ daemon_unreachable) × (a'.devices ≡ without_device api.devices 0)
unfolding resolve_device_id resolve_session_id get_buf_handle
mc_unmap-refused_example =
    mc_unmap-refused (platform 8) api 0 7 100 5000 16 8 opened seven refl refl (omega arith)
      (omega arith) (omega arith) refl refl one-ne-ok

-- Two plain notifications, and an exit code.
abbrev queue : List ℕ
queue = 0 ∷ 0 ∷ 9 ∷ []

abbrev reads : ℕ → Timeout → Read
reads zero t = notification 0
reads (suc zero) t = notification 0
reads (suc (suc zero)) t = notification 9
reads (suc (suc (suc i))) t = timed_out

reads-queue : Reads reads 0 queue
reads-queue = (λ _. refl, (λ _. refl, (λ _. refl, λ _. refl)))

wait_loop-drained_example :
    wait_loop (suc (length queue)) reads 0 infinite 0 ≡ some (drained false queue)
wait_loop-drained_example = wait_loop-drained reads infinite queue reads-queue tt (omega arith)

mc_get_session_error_code-mc_wait_notification_example :
    (a' : Api) × (mc_wait_notification
        (suc (length queue))
        (platform 0)
        api
        (some (0, 7))
        infinite
        reads
      ≡ some (info_notification, a'))
    × (mc_get_session_error_code a' (some (0, 7)) (some 1)
        ≡ (mc_drv_ok, record a' { out = some 9 }))
unfolding resolve_device_id resolve_session_id
mc_get_session_error_code-mc_wait_notification_example =
    mc_get_session_error_code-mc_wait_notification (platform 0) api 0 7 9 1 opened seven infinite
      reads queue refl refl reads-queue (omega arith) refl
