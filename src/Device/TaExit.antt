-- ===== src/Device/TaExit.antt =====
-- The clean-up of sessions whose task has ended: the inner loop of TrustZoneDevice::handleTaExit.
use trustonic_tee_user_space.Prelude.{
  ℕ, zero, suc, List, [], ◌∷◌, Option, none, some, ◌==◌, if◌then◌else◌,
}
use trustonic_tee_user_space.Status.{mc_drv_ok}
use trustonic_tee_user_space.TrustletSession.{TrustletSession, is_ta_dead}
use trustonic_tee_user_space.Device.{Device, Env}
use trustonic_tee_user_space.Device.Sessions.{deref, free_session}
use trustonic_tee_user_space.Device.Close.{close_session_internal}

unfoldable pub first_dead : List TrustletSession → Option TrustletSession
first_dead [] = none
first_dead (s ∷ ss) = if is_ta_dead s.session_state then some s else first_dead ss

free_if_closed : TrustletSession → ℕ × Device → Device
free_if_closed s (ret, d) = if ret == mc_drv_ok then free_session d (deref d.sessions s) else d

unfoldable pub clean_up : Env → Device → TrustletSession → Device
unfolding free_if_closed
clean_up env d s = free_if_closed s (close_session_internal env d s)

-- `none` if the fuel runs out: the code goes on as long as it finds a dead session.
unfoldable pub handle_ta_exit : ℕ → Env → Device → Option Device
unfolding clean_up
handle_ta_exit zero env d = none
handle_ta_exit (suc fuel) env d = elim (first_dead d.sessions) [
  | none ↦ some d
  | some s ↦ handle_ta_exit fuel env (clean_up env d s)
]
