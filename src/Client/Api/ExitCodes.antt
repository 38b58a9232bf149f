-- ===== src/Client/Api/ExitCodes.antt =====
-- The exit code that a wait brings is the one that mcGetSessionErrorCode gives.
use trustonic_tee_user_space.Prelude.{
  ℕ, suc, ◌<◌, ◌^◌, ◌≡◌, refl, ap, ◌≢◌, ◌∙◌, false, List, [], ◌∷◌, some, length, arith,
}
use trustonic_tee_user_space.Status.{mc_drv_ok, info_notification, timeout_error}
use trustonic_tee_user_space.Client.{ClientSession}
use trustonic_tee_user_space.Client.Session.{set_error_info, get_last_err}
use trustonic_tee_user_space.Client.Device.{resolve_session_id}
use trustonic_tee_user_space.Client.Api.{
  Platform, Api, OpenDevice, resolve_device_id, check_session,
}
use trustonic_tee_user_space.Client.Api.Sessions.{check_not_null}
use trustonic_tee_user_space.Client.Api.Memory.{update_session, mc_get_session_error_code}
use trustonic_tee_user_space.Client.Api.Wait.{
  Timeout, infinite, infinite_interruptible, infinite_negative, millis, Read, Waited, wait_loop,
  set_session_error, finish_wait, mc_wait_notification,
}
use trustonic_tee_user_space.Client.Api.Drains.{Reads, Returns, drained, wait_loop-drained}
use trustonic_tee_user_space.Client.Api.Lookup.{resolve-update, resolve_session-update}
use trustonic_tee_user_space.Client.Api.Refused.{check_device-found, check_session-found}

-- A wait that ends with an exit code in the queue.
abbrev pub exited : ℕ → Waited
exited err = record { code = info_notification; error_info = some err; dropped = false }

timeout-ne-exited : (err : ℕ) → drained false [] ≢ exited err
timeout-ne-exited err h =
    let codes : timeout_error ≡ info_notification = ap (λ w. w.code) h in omega (arith, codes)

exited-Returns :
    (timeout : Timeout) (queue : List ℕ) (err : ℕ)
    → drained false queue ≡ exited err
    → Returns timeout queue
exited-Returns (millis t) [] err h = tt
exited-Returns (millis t) (payload ∷ left) err h = tt
exited-Returns infinite (payload ∷ left) err h = tt
exited-Returns infinite_interruptible (payload ∷ left) err h = tt
exited-Returns infinite_negative (payload ∷ left) err h = tt
exited-Returns infinite [] err h = absurd (timeout-ne-exited err h)
exited-Returns infinite_interruptible [] err h = absurd (timeout-ne-exited err h)
exited-Returns infinite_negative [] err h = absurd (timeout-ne-exited err h)

error_code_after :
    (a : Api) (device_id session_id err target : ℕ) (d : OpenDevice) (s : ClientSession)
    → resolve_device_id a.devices device_id ≡ some d
    → resolve_session_id d.device.session_list session_id ≡ some s
    → mc_get_session_error_code
        (set_session_error device_id session_id err a)
        (some (device_id, session_id))
        (some target)
      ≡ (mc_drv_ok, record (set_session_error device_id session_id err a) { out = some err })
unfolding mc_get_session_error_code set_session_error check_not_null set_error_info get_last_err
error_code_after a device_id session_id err target d s e es =
    let a' = set_session_error device_id session_id err a in
    let told : OpenDevice → OpenDevice = λ x. record x {
      device = record x.device {
        session_list = update_session session_id (λ t. set_error_info t err) x.device.session_list;
      };
    } in
    let found = resolve-update device_id told (λ _. refl) a.devices d e in
    let session =
      resolve_session-update session_id (λ t. set_error_info t err) d.device.session_list s
        (λ _. refl) es in
    let next : ClientSession → ℕ × Api =
      λ t. (mc_drv_ok, record a' { out = some (get_last_err t) }) in
    check_device-found a' device_id (told d) (λ x. check_session a' x session_id next) found
    ∙ check_session-found a' (told d) session_id (set_error_info s err) next session

-- When the first exit code in the queue of a session is `err`, a wait on the session reports that
-- there is one, after at most as many reads as the queue has entries, and one more, and the
-- library then hands out `err` as the session's error code.
pub mc_get_session_error_code-mc_wait_notification :
    (p : Platform) (a : Api) (device_id session_id err target : ℕ) (d : OpenDevice)
    (s : ClientSession) (timeout : Timeout) (reads : ℕ → Timeout → Read) (queue : List ℕ)
    → resolve_device_id a.devices device_id ≡ some d
    → resolve_session_id d.device.session_list session_id ≡ some s
    → Reads reads 0 queue
    → length queue < 2 ^ 32
    → drained false queue ≡ exited err
    → (a' : Api) × (mc_wait_notification
          (suc (length queue))
          p
          a
          (some (device_id, session_id))
          timeout
          reads
        ≡ some (info_notification, a'))
      × (mc_get_session_error_code a' (some (device_id, session_id)) (some target)
          ≡ (mc_drv_ok, record a' { out = some err }))
unfolding mc_wait_notification finish_wait
mc_get_session_error_code-mc_wait_notification p a device_id session_id err target d s timeout reads
      queue e es r few first =
    let ends : wait_loop (suc (length queue)) reads 0 timeout 0 ≡ some (exited err) =
      wait_loop-drained reads timeout queue r (exited-Returns timeout queue err first) few
      ∙ ap some first in
    (
      set_session_error device_id session_id err a,
      rw (e, es, ends, mc_wait_notification) refl,
      error_code_after a device_id session_id err target d s e es,
    )
