-- ===== src/Device/Replies.antt =====
-- What a client may conclude from the code of an MCP command.
use trustonic_tee_user_space.Prelude.{
  ℕ, zero, suc, ◌+◌, ◌≡◌, refl, ◌∙◌, true, List, [], ◌∷◌, none, some, arith,
}
use trustonic_tee_user_space.Status.{mc_drv_ok, mcp_ok, daemon_mci_error}
use trustonic_tee_user_space.Status.Codes.{make_mcp_error-ne-ok}
use trustonic_tee_user_space.NotificationQueue.{Notification, sid_mcp}
use trustonic_tee_user_space.Device.{
  Device, Env, Exchange, Command, cmd_get_mobicore_version, response_id, sent, logged,
}
use trustonic_tee_user_space.Device.Irq.{handle_notification, handle_all}
use trustonic_tee_user_space.Device.Mcp.{
  notify_session, wait_loop, wait_mcp_notification, msh_notify_and_wait, mcp_command,
}
use trustonic_tee_user_space.Device.Commands.{get_mobicore_version}
use trustonic_tee_user_space.Device.Faults.{msh_notify_and_wait-fault}

wait_loop-rsp : (tries i : ℕ) (x : Exchange) (d : Device) → (wait_loop tries i x d).1.rsp ≡ d.rsp
unfolding wait_loop
wait_loop-rsp zero i x d = refl
wait_loop-rsp (suc tries) i x d = ground (arith, wait_loop-rsp tries (i + 1) x d)

wait-rsp : (x : Exchange) (d : Device) → (wait_mcp_notification x d).1.rsp ≡ d.rsp
unfolding wait_mcp_notification
wait-rsp x d = ground (arith, wait_loop-rsp 5 0 x d)

handle_notification-rsp : (d : Device) (n : Notification) → (handle_notification d n).rsp ≡ d.rsp
unfolding handle_notification
handle_notification-rsp d n = ground arith

handle_all-rsp : (d : Device) (ns : List Notification) → (handle_all d ns).rsp ≡ d.rsp
unfolding handle_all
handle_all-rsp d [] = refl
handle_all-rsp d (n ∷ ns) =
    handle_all-rsp (handle_notification d n) ns ∙ handle_notification-rsp d n

-- The response is read as the secure world left it.
pub exchange-rsp :
    (env : Env) (c : Command) (d : Device)
    → (msh_notify_and_wait env c d).1.rsp ≡ (env.exchange d.log c).rsp
unfolding msh_notify_and_wait
exchange-rsp env c d =
    let x = env.exchange d.log c in
    let told : Device = record (logged (notify_session d sid_mcp) (sent c)) {
      rsp = x.rsp;
      nq = x.nq;
    } in
    wait-rsp x (handle_all told x.delivered) ∙ handle_all-rsp told x.delivered

-- A command that is reported as done was confirmed: the response that the secure world left is that
-- of this very command, its result is OK, and it is what the daemon reads.
pub mcp_command-confirmed :
    (env : Env) (c : Command) (d : Device)
    → (mcp_command env c d).0 ≡ mc_drv_ok
    → ((env.exchange d.log c).rsp.rsp_id ≡ response_id c)
      × ((env.exchange d.log c).rsp.result ≡ mcp_ok)
      × ((mcp_command env c d).1.rsp ≡ (env.exchange d.log c).rsp)
unfolding mcp_command
mcp_command-confirmed env c d h =
    ground
      (arith, exchange-rsp env c d, make_mcp_error-ne-ok (msh_notify_and_wait env c d).1.rsp.result)

-- After a fault every such command fails with the code of an unreachable daemon, and the fault
-- stays.
pub mcp_command-fault :
    (env : Env) (c : Command) (d : Device)
    → d.mc_fault ≡ true
    → ((mcp_command env c d).0 ≡ daemon_mci_error) × ((mcp_command env c d).1.mc_fault ≡ true)
unfolding mcp_command
mcp_command-fault env c d h =
    let (failed, stays) = msh_notify_and_wait-fault env c d h in rw failed (refl, stays)

-- A version that was fetched is the one that the secure world gave. While the device keeps it, it
-- is given again without a command and without a change of the device, whatever the secure world
-- does then and whatever else has changed.
pub get_mobicore_version-cached :
    (env env' : Env) (d e : Device)
    → d.mc_version_info ≡ none
    → (get_mobicore_version env d).0 ≡ mc_drv_ok
    → e.mc_version_info ≡ (get_mobicore_version env d).2.mc_version_info
    → ((get_mobicore_version env d).1
        ≡ some (env.exchange d.log cmd_get_mobicore_version).rsp.version_info)
      × (get_mobicore_version env' e ≡ (mc_drv_ok, (get_mobicore_version env d).1, e))
unfolding get_mobicore_version
get_mobicore_version-cached env env' d e none_yet h same =
    let (ret, d') = mcp_command env cmd_get_mobicore_version d in
    let confirmed = mcp_command-confirmed env cmd_get_mobicore_version d in
    ground (arith, confirmed)
