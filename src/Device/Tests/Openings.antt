-- ===== src/Device/Tests/Openings.antt =====
-- The theorems on opening sessions at concrete devices, and a run.
use trustonic_tee_user_space.Prelude.{ℕ, ◌+◌, ◌≤◌, ◌≡◌, ◌≢◌, refl, false, [], ◌∷◌, some, arith}
use trustonic_tee_user_space.Status.{mc_drv_ok, make_mcp_error, tci_greater_than_wsm}
use trustonic_tee_user_space.TrustletSession.Lifecycle.{up_to_exit}
use trustonic_tee_user_space.Device.Irq.{handle_all}
use trustonic_tee_user_space.Device.Mcp.{
  msh_notify_and_wait, notify_session, wait_mcp_notification, wait_loop, mcp_command,
}
use trustonic_tee_user_space.Device.Open.{register_session, prepare_tci, open_with, open_session}
use trustonic_tee_user_space.Device.Opening.{
  opened, Outcome, register_session-takes, open_session-Outcome,
}
use trustonic_tee_user_space.Device.Locks.{
  Balanced, lock_count, unlock_count, open_session_error-Balanced, open_session_leaves_locked,
}
use trustonic_tee_user_space.Device.Tests.{world, device, three, load}

open_session-Outcome_example :
    Outcome
      (world 0 0)
      1
      load
      (device (three 1) false)
      (open_session (world 0 0) (device (three 1) false) 1 30 load 6 64 0)
open_session-Outcome_example =
    open_session-Outcome (world 0 0) (device (three 1) false) 1 30 load 6 64 0

register_session-takes_example :
    let d' = (register_session (world 0 0) (device [] false) 1 load 6 64).1 in
    (d'.sessions ≡ opened (world 0 0) (device [] false) 1 load 6 64 ∷ []) × (d'.notifications ≡ [])
register_session-takes_example = register_session-takes (world 0 0) (device [] false) 1 load 6 64

-- The two notifications of the device stand in the new session, also the one for session 9.
opened_run :
    (opened (world 0 0) (device [] false) 1 load 0 0).notifications
    ≡ record { session_id = 21; payload = 0 } ∷ record { session_id = 9; payload = 2 } ∷ []
unfolding up_to_exit
opened_run = refl

long_enough :
    (phys len : ℕ) → (world 15 0).find_contiguous_wsm [] 6 30 ≡ some (phys, len) → 64 ≤ len
long_enough phys len e = ground arith

refused_open : (open_session (world 15 0) (device [] false) 1 30 load 6 64 0).0 ≢ mc_drv_ok
unfolding open_session prepare_tci open_with mcp_command msh_notify_and_wait notify_session
    wait_mcp_notification wait_loop handle_all make_mcp_error
refused_open = omega arith

open_session_error-Balanced_example :
    Balanced 6 (device [] false) (open_session (world 15 0) (device [] false) 1 30 load 6 64 0).2
open_session_error-Balanced_example =
    open_session_error-Balanced (world 15 0) (device [] false) 1 30 load 6 64 0 long_enough
      refused_open

open_session_leaves_locked_example :
    let (ret, payload, d') = open_session (world 0 0) (device [] false) 1 30 load 6 200 0 in
    (ret ≡ tci_greater_than_wsm)
    × (lock_count 6 d'.log ≡ lock_count 6 [] + 1)
    × (unlock_count 6 d'.log ≡ unlock_count 6 [])
open_session_leaves_locked_example =
    open_session_leaves_locked (world 0 0) (device [] false) 1 30 load 6 200 0 4096 100
      (omega arith) refl (omega arith) refl
