-- ===== src/Device/Faults.antt =====
-- The wait for the secure world: when it fails, and what a recorded fault means from then on.
use trustonic_tee_user_space.Prelude.{
  ℕ, zero, suc, ◌+◌, ◌≡◌, ◌≢◌, refl, ◌∙◌, true, false, List, [], ◌∷◌, arith, ◌⊎◌, inl, inr,
}
use trustonic_tee_user_space.Status.{mc_drv_ok, daemon_mci_error, make_mcp_error}
use trustonic_tee_user_space.NotificationQueue.{Notification, sid_mcp}
use trustonic_tee_user_space.TrustletSession.{TrustletSession}
use trustonic_tee_user_space.Device.{Device, Env, Exchange, Command, sent, logged, mc_status_halt}
use trustonic_tee_user_space.Device.Irq.{handle_notification, handle_all}
use trustonic_tee_user_space.Device.Mcp.{
  notify_session, wait_loop, wait_mcp_notification, msh_notify_and_wait,
}
use trustonic_tee_user_space.Device.Close.{send_session_close_cmd, close_session_internal}

handle_notification-fault :
    (d : Device) (n : Notification) → (handle_notification d n).mc_fault ≡ d.mc_fault
unfolding handle_notification
handle_notification-fault d n = ground arith

pub handle_all-fault :
    (d : Device) (ns : List Notification) → (handle_all d ns).mc_fault ≡ d.mc_fault
unfolding handle_all
handle_all-fault d [] = refl
handle_all-fault d (n ∷ ns) =
    handle_all-fault (handle_notification d n) ns ∙ handle_notification-fault d n

-- The wait ends by a signal at one of the tries: none before it, and no halt seen.
abbrev pub Answered : ℕ → ℕ → Exchange → Type 0
Answered zero i x = ⊥
Answered (suc tries) i x =
    (x.signalled i ≡ true)
    ⊎ ((x.signalled i ≡ false) × (x.status i ≢ mc_status_halt) × Answered tries (i + 1) x)

wait_loop-true :
    (tries i : ℕ) (x : Exchange) (d : Device)
    → d.mc_fault ≡ false
    → Answered tries i x
    → wait_loop tries i x d ≡ (true, d)
unfolding wait_loop
wait_loop-true zero i x d f h = absurd h
wait_loop-true (suc tries) i x d f (inl h) = ground arith
wait_loop-true (suc tries) i x d f (inr (h, k, rest)) =
    ground (arith, wait_loop-true tries (i + 1) x d f rest)

wait_loop-false :
    (tries i : ℕ) (x : Exchange) (d : Device)
    → (wait_loop tries i x d).0 ≡ false
    → (wait_loop tries i x d).1.mc_fault ≡ true
unfolding wait_loop
wait_loop-false zero i x d h = refl
wait_loop-false (suc tries) i x d h = ground (arith, wait_loop-false tries (i + 1) x d)

wait_loop-fault :
    (tries i : ℕ) (x : Exchange) (d : Device)
    → d.mc_fault ≡ true
    → ((wait_loop tries i x d).0 ≡ false) × ((wait_loop tries i x d).1.mc_fault ≡ true)
unfolding wait_loop
wait_loop-fault zero i x d h = (refl, refl)
wait_loop-fault (suc tries) i x d h = ground arith

wait_mcp_notification-Answered :
    (x : Exchange) (d : Device)
    → d.mc_fault ≡ false
    → Answered 5 0 x
    → x.thread_exiting ≡ false
    → wait_mcp_notification x d ≡ (true, d)
unfolding wait_mcp_notification
wait_mcp_notification-Answered x d f h t = rw (wait_loop-true 5 0 x d f h, t)

wait_mcp_notification-false :
    (x : Exchange) (d : Device)
    → (wait_mcp_notification x d).0 ≡ false
    → ((wait_mcp_notification x d).1.mc_fault ≡ true) ⊎ (x.thread_exiting ≡ true)
unfolding wait_mcp_notification
wait_mcp_notification-false x d h = ground (arith, wait_loop-false 5 0 x d)

wait_mcp_notification-fault :
    (x : Exchange) (d : Device)
    → d.mc_fault ≡ true
    → ((wait_mcp_notification x d).0 ≡ false) × ((wait_mcp_notification x d).1.mc_fault ≡ true)
unfolding wait_mcp_notification
wait_mcp_notification-fault x d h = ground (arith, wait_loop-fault 5 0 x d h)

-- The device that waits: told, and with what happens meanwhile done.
abbrev waiting : Env → Command → Device → Device
waiting env c d =
    let x = env.exchange d.log c in
    handle_all (record (logged (notify_session d sid_mcp) (sent c)) { rsp = x.rsp; nq = x.nq })
      x.delivered

waiting-fault : (env : Env) (c : Command) (d : Device) → (waiting env c d).mc_fault ≡ d.mc_fault
unfolding notify_session
waiting-fault env c d = handle_all-fault _ (env.exchange d.log c).delivered

-- A command whose answer is signalled at one of the five tries, with no halt seen before it, while
-- no fault is recorded and no thread of the device is exiting, is reported as answered, and no fault
-- is recorded.
pub msh_notify_and_wait-Answered :
    (env : Env) (c : Command) (d : Device)
    → d.mc_fault ≡ false
    → Answered 5 0 (env.exchange d.log c)
    → (env.exchange d.log c).thread_exiting ≡ false
    → ((msh_notify_and_wait env c d).0 ≡ mc_drv_ok)
      × ((msh_notify_and_wait env c d).1.mc_fault ≡ false)
unfolding msh_notify_and_wait
msh_notify_and_wait-Answered env c d f h t =
    let w = waiting-fault env c d ∙ f in
    rw (wait_mcp_notification-Answered (env.exchange d.log c) (waiting env c d) w h t) (refl, w)

-- A command that is reported as not answered leaves a recorded fault, unless a thread of the device
-- was exiting.
pub msh_notify_and_wait-unanswered :
    (env : Env) (c : Command) (d : Device)
    → (msh_notify_and_wait env c d).0 ≢ mc_drv_ok
    → ((msh_notify_and_wait env c d).1.mc_fault ≡ true)
      ⊎ ((env.exchange d.log c).thread_exiting ≡ true)
unfolding msh_notify_and_wait
msh_notify_and_wait-unanswered env c d h =
    ground (arith, wait_mcp_notification-false (env.exchange d.log c) (waiting env c d))

-- After a fault no command gets through, whatever the secure world does, and the fault stays.
pub msh_notify_and_wait-fault :
    (env : Env) (c : Command) (d : Device)
    → d.mc_fault ≡ true
    → ((msh_notify_and_wait env c d).0 ≡ daemon_mci_error)
      × ((msh_notify_and_wait env c d).1.mc_fault ≡ true)
unfolding msh_notify_and_wait
msh_notify_and_wait-fault env c d h =
    let w = waiting-fault env c d ∙ h in
    let stuck = wait_mcp_notification-fault (env.exchange d.log c) (waiting env c d) w in
    (rw stuck.0, stuck.1)

-- The session commands fail with the code of an unreachable daemon, the close commands with that
-- code packed.
pub close_session_internal-fault :
    (env : Env) (d : Device) (s : TrustletSession)
    → d.mc_fault ≡ true
    → ((close_session_internal env d s).0 ≡ make_mcp_error daemon_mci_error)
      × ((close_session_internal env d s).1.mc_fault ≡ true)
unfolding close_session_internal send_session_close_cmd
close_session_internal-fault env d s h =
    let failed = msh_notify_and_wait-fault env _ d h in (rw failed.0, failed.1)
