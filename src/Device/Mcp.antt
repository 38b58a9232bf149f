-- ===== src/Device/Mcp.antt =====
-- Talking to the secure world over the MCP buffer: TrustZoneDevice::notify(uint32_t),
-- MobiCoreDevice::waitMcpNotification and mshNotifyAndWait, and the checks on the response that the
-- commands have in common.
use trustonic_tee_user_space.Prelude.{ℕ, zero, suc, ◌+◌, Bool, true, false, ◌==◌, if◌then◌else◌}
use trustonic_tee_user_space.Status.{mc_drv_ok, daemon_mci_error, mcp_ok, make_mcp_error}
use trustonic_tee_user_space.NotificationQueue.{sid_mcp, put_notification}
use trustonic_tee_user_space.Device.{
  Device, Env, Exchange, Command, sent, nsiq, status_dumped, threads_joined, logged, response_id,
  mc_status_halt,
}
use trustonic_tee_user_space.Device.Irq.{handle_all}

-- A notification into the outgoing ring, and an interrupt; that it may fail is ignored.
unfoldable pub notify_session : Device → ℕ → Device
notify_session d session_id =
    logged
      (record d { nq = put_notification d.nq (record { session_id = session_id; payload = 0 }) })
      nsiq

-- The loop of waits: `tries` is the counter that starts at 5, `i` numbers the waits. A dump of the
-- status ends the process on TrustZoneDevice; the lines behind it are those of the base class.
unfoldable pub wait_loop : ℕ → ℕ → Exchange → Device → Bool × Device
wait_loop zero i x d = (false, record d { mc_fault = true })
wait_loop (suc tries) i x d =
    let again = wait_loop tries (i + 1) x d in
    if d.mc_fault
    then (false, d)
    else if x.signalled i
    then (true, d)
    else if x.status i == mc_status_halt
    then (false, record (logged d status_dumped) { mc_fault = true })
    else again

join_if_exiting : Exchange → Bool × Device → Bool × Device
join_if_exiting x (false, d) = (false, d)
join_if_exiting x (true, d) =
    if x.thread_exiting then (false, logged d threads_joined) else (true, d)

unfoldable pub wait_mcp_notification : Exchange → Device → Bool × Device
unfolding join_if_exiting
wait_mcp_notification x d = join_if_exiting x (wait_loop 5 0 x d)

-- What the secure world and the IRQ thread do between the notification and the end of the wait.
meanwhile : Exchange → Device → Device
meanwhile x d = handle_all (record d { rsp = x.rsp; nq = x.nq }) x.delivered

-- The command is written to the buffer, the secure world notified, and its answer awaited.
unfoldable pub msh_notify_and_wait : Env → Command → Device → ℕ × Device
unfolding meanwhile
msh_notify_and_wait env c d =
    let x = env.exchange d.log c in
    let (signalled, d') =
      wait_mcp_notification x (meanwhile x (logged (notify_session d sid_mcp) (sent c))) in
    (if signalled then mc_drv_ok else daemon_mci_error, d')

-- The command's own result, once it was answered.
unfoldable pub response_code : Command → Device → ℕ
response_code c d = if d.rsp.rsp_id == response_id c then d.rsp.result else daemon_mci_error

-- A command whose failed result is packed into a driver code: MAP, UNMAP, OPEN_SESSION,
-- CHECK_LOAD_TA, GET_MOBICORE_VERSION and LOAD_TOKEN all end so.
packed : Command → Device → ℕ
packed c d =
    if d.rsp.rsp_id == response_id c
    then if d.rsp.result == mcp_ok then mc_drv_ok else make_mcp_error d.rsp.result
    else daemon_mci_error

unfoldable pub mcp_command : Env → Command → Device → ℕ × Device
unfolding packed
mcp_command env c d =
    let (ret, d') = msh_notify_and_wait env c d in (if ret == mcp_ok then packed c d' else ret, d')
