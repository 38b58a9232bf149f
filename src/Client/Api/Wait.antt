-- ===== src/Client/Api/Wait.antt =====
-- mcWaitNotification.
use trustonic_tee_user_space.Prelude.{
  ℕ, zero, suc, ◌+◌, ◌%◌, ◌^◌, Bool, true, false, Option, none, some, ◌==◌, if◌then◌else◌,
}
use trustonic_tee_user_space.Status.{
  mc_drv_ok, invalid_parameter, timeout_error, mc_drv_err_notification, info_notification,
  interrupted_by_signal, unknown_device, unknown_session,
}
use trustonic_tee_user_space.Client.Session.{set_error_info}
use trustonic_tee_user_space.Client.Device.{resolve_session_id}
use trustonic_tee_user_space.Client.Api.{
  Platform, Api, remove_device, update_device, resolve_device_id,
}
use trustonic_tee_user_space.Client.Api.Memory.{update_session}

-- The timeout argument: -1, -2, another negative number, or milliseconds. `readData` takes every
-- negative one for infinite, and then does not time out.
pub data Timeout : Type 0 where
  infinite infinite_interruptible infinite_negative : Timeout
  millis : ℕ → Timeout

-- What `readData` gives, with `errno`; the payload is the int32_t as its bit pattern.
pub data Read : Type 0 where
  interrupted other_error timed_out closed short_read : Read
  notification : (payload : ℕ) → Read

-- How the wait ended: the code, what it found the session's error to be, and whether the device
-- was dropped.
pub record Waited : Type 0 where
  pub code : ℕ
  pub error_info : Option ℕ
  pub dropped : Bool

abbrev pub wait_ended : ℕ → Waited
wait_ended code = record { code = code; error_info = none; dropped = false }

failed : (count : ℕ) → Waited
failed count = wait_ended (if count == 0 then mc_drv_err_notification else mc_drv_ok)

-- What one read leads to: the end, or another with the timeout and count.
pub data Next : Type 0 where
  stop : Waited → Next
  again : Timeout → (count : ℕ) → Next

-- Only the first read tells a timeout or a closed connection; after a notification there is no
-- more waiting. `count` is a uint32_t.
unfoldable pub next_step : Timeout → (count : ℕ) → Read → Next
unfolding failed
next_step infinite count interrupted = again infinite count
next_step infinite_interruptible count interrupted = stop (wait_ended interrupted_by_signal)
next_step infinite_negative count interrupted = stop (failed count)
next_step (millis t) count interrupted = stop (failed count)
next_step timeout count other_error = stop (failed count)
next_step timeout count timed_out =
    stop (wait_ended (if count == 0 then timeout_error else mc_drv_ok))
next_step timeout count closed = stop (
    if count == 0
    then record { code = mc_drv_err_notification; error_info = none; dropped = true }
    else wait_ended mc_drv_ok)
next_step timeout count short_read = stop (failed count)
next_step timeout count (notification payload) =
    if payload == 0
    then again (millis 0) ((count + 1) % 2 ^ 32)
    else stop (record { code = info_notification; error_info = some payload; dropped = false })

-- The loop; `none` is out of fuel. The i-th read is made with the timeout.
unfoldable pub wait_loop :
    ℕ → (ℕ → Timeout → Read) → (round : ℕ) → Timeout → (count : ℕ) → Option Waited
wait_loop zero reads round timeout count = none
wait_loop (suc fuel) reads round timeout count =
    elim (next_step timeout count (reads round timeout)) [
      | stop w ↦ some w
      | again t c ↦ wait_loop fuel reads (suc round) t c
    ]

-- `setErrorInfo` on the session that was waited for.
unfoldable pub set_session_error : (device_id session_id err : ℕ) → Api → Api
unfolding update_session
set_session_error device_id session_id err a = record a {
  devices =
      update_device device_id
        (λ x. record x {
          device = record x.device {
            session_list =
                update_session session_id (λ s. set_error_info s err) x.device.session_list;
          };
        })
        a.devices;
}

unfoldable pub finish_wait : Platform → (device_id session_id : ℕ) → Waited → Api → ℕ × Api
unfolding set_session_error
finish_wait p device_id session_id w a =
    let told : Api = elim w.error_info [
      | none ↦ a
      | some err ↦ set_session_error device_id session_id err a
    ] in
    (w.code, if w.dropped then remove_device p told device_id else told)

unfoldable pub mc_wait_notification :
    ℕ
    → Platform
    → Api
    → (session : Option (ℕ × ℕ)) → Timeout
    → (ℕ → Timeout → Read)
    → Option (ℕ × Api)
unfolding wait_loop finish_wait
mc_wait_notification fuel p a none timeout reads = some (invalid_parameter, a)
mc_wait_notification fuel p a (some (device_id, session_id)) timeout reads =
    elim (resolve_device_id a.devices device_id) [
      | none ↦ some (unknown_device, a)
      | some d ↦ elim (resolve_session_id d.device.session_list session_id) [
        | none ↦ some (unknown_session, a)
        | some s ↦ elim (wait_loop fuel reads 0 timeout 0) [
          | none ↦ none
          | some w ↦ some (finish_wait p device_id session_id w a)
        ]
      ]
    ]
