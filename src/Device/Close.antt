-- ===== src/Device/Close.antt =====
-- Closing sessions: MobiCoreDevice::sendSessionCloseCmd, closeSessionInternal, closeSession,
-- close(Connection) and the clean-up in start(). Without `assert`, as in a build with NDEBUG.
use trustonic_tee_user_space.Prelude.{
  ℕ, zero, suc, ◌+◌, ◌*◌, ◌^◌, List, [], ◌∷◌, Option, none, some, ◌==◌, ◌&&◌, if◌then◌else◌,
}
use trustonic_tee_user_space.Status.{mcp_ok, mcp_close_task_failed, make_mcp_error, unknown_session}
use trustonic_tee_user_space.TrustletSession.{TrustletSession, close_send, is_ta_dead}
use trustonic_tee_user_space.Device.{Device, Env, cmd_close}
use trustonic_tee_user_space.Device.Irq.{update_at}
use trustonic_tee_user_space.Device.Mcp.{msh_notify_and_wait, response_code}
use trustonic_tee_user_space.Device.Sessions.{find_session, owns, deref, close_socket, free_session}

unfoldable pub send_session_close_cmd : Env → Device → ℕ → ℕ × Device
send_session_close_cmd env d session_id =
    let (ret, d') = msh_notify_and_wait env (cmd_close session_id) d in
    (if ret == mcp_ok then response_code (cmd_close session_id) d' else ret, d')

unfoldable pub close_session_internal : Env → Device → TrustletSession → ℕ × Device
close_session_internal env d s =
    let (ret, d') = send_session_close_cmd env d s.session_id in
    (if ret == mcp_ok then mcp_ok else make_mcp_error ret, d')

abbrev pub detached : TrustletSession → TrustletSession
detached s = record s {
  device_connection = none;
  notification_connection = none;
  session_state = close_send;
}

-- A GP session is taken from its client before it is closed.
unfoldable pub disconnect : Device → TrustletSession → Device
unfolding close_socket
disconnect d s =
    if s.gp_level == 1
    then close_socket s (record d { sessions = update_at s.address detached d.sessions })
    else d

unfoldable pub finish_close : TrustletSession → ℕ × Device → ℕ × Device
finish_close s (ret, d) =
    if ret == mcp_ok then (mcp_ok, free_session d (deref d.sessions s)) else (make_mcp_error ret, d)

-- A GP session that cannot be closed yet is left to the exit handler, unless its task has ended
-- meanwhile: then it is tried once more.
unfoldable pub close_found : Env → Device → TrustletSession → ℕ × Device
close_found env d s =
    let (ret, d') = close_session_internal env d s in
    if s.gp_level == 1 && ret == make_mcp_error mcp_close_task_failed
    then if is_ta_dead (deref d'.sessions s).session_state
      then finish_close s (close_session_internal env d' s)
      else (mcp_ok, d')
    else finish_close s (ret, d')

unfoldable pub close_session : Env → Device → (connection session_id : ℕ) → ℕ × Device
close_session env d connection session_id = elim (find_session d connection session_id) [
  | none ↦ (unknown_session, d)
  | some s ↦ close_found env (disconnect d s) s
]

-- The search in reverse order.
unfoldable pub last_owned : ℕ → List TrustletSession → Option TrustletSession
last_owned connection [] = none
last_owned connection (s ∷ ss) =
    let later = last_owned connection ss in
    elim later [ some t ↦ some t | none ↦ if owns connection s then some s else none ]

-- Closes every session of a connection. `none` if the fuel runs out: the code loops as long as a
-- session of the connection is found. That the connection forgets the device is not kept here.
unfoldable pub close : ℕ → Env → Device → (connection : ℕ) → Option Device
close zero env d connection = none
close (suc fuel) env d connection = elim (last_owned connection d.sessions) [
  | none ↦ some d
  | some s ↦ close fuel env (close_session env d connection s.session_id).1 connection
]

-- The sessions that an earlier daemon may have left: numbers 3 to 63.
invalidate : ℕ → ℕ → Env → Device → Device
invalidate zero number env d = d
invalidate (suc rounds) number env d =
    invalidate rounds (number + 1) env (send_session_close_cmd env d (number * 2 ^ 8 + 1)).1

-- Beside the starting of the threads.
unfoldable pub start : Env → Device → Device
unfolding invalidate
start env d = if d.mci_reused then invalidate 61 3 env d else d
