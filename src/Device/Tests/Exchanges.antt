-- ===== src/Device/Tests/Exchanges.antt =====
-- The theorems on commands, buffers and notifications at concrete devices, and a run.
use trustonic_tee_user_space.Prelude.{
  ◌-◌, ◌^◌, ◌<◌, ◌≡◌, ◌≢◌, refl, true, false, [], ◌∷◌, some, arith, ◌⊎◌, inl, inr, length,
}
use trustonic_tee_user_space.Status.{mc_drv_ok, mcp_ok, daemon_mci_error}
use trustonic_tee_user_space.NotificationQueue.{Ring, NotificationQueue, sid_mcp}
use trustonic_tee_user_space.NotificationQueue.Window.{IsValid, blank, contents}
use trustonic_tee_user_space.TrustletSession.{TrustletSession}
use trustonic_tee_user_space.Device.{
  Device, Command, cmd_close, cmd_get_mobicore_version, response_id, logged, scheduler_wakeup,
}
use trustonic_tee_user_space.Device.Skeleton.{skeleton}
use trustonic_tee_user_space.Device.Irq.{update_at, get_trustlet_session, handle_all, irq_batch}
use trustonic_tee_user_space.Device.Mcp.{
  msh_notify_and_wait, notify_session, wait_mcp_notification, wait_loop, mcp_command,
}
use trustonic_tee_user_space.Device.Sessions.{find_session}
use trustonic_tee_user_space.Device.Ownership.{Distinct}
use trustonic_tee_user_space.Device.Faults.{
  Answered, msh_notify_and_wait-Answered, msh_notify_and_wait-unanswered, msh_notify_and_wait-fault,
}
use trustonic_tee_user_space.Prelude.Words.{sub32}
use trustonic_tee_user_space.Device.Delivery.{for_sessions, for_mcp, irq_batch-ends}
use trustonic_tee_user_space.Device.Lookups.{Owned, without_buffer}
use trustonic_tee_user_space.Device.Mapping.{unmap_bulk-confirmed}
use trustonic_tee_user_space.Device.Replies.{mcp_command-confirmed}
use trustonic_tee_user_space.Device.Commands.{unmap_bulk, get_mobicore_version}
use trustonic_tee_user_space.Device.{cmd_unmap, wsm_l2}
use trustonic_tee_user_space.TrustletSession.{Wsm, find_bulk_buff}
use trustonic_tee_user_space.OrdMap.{find}
use trustonic_tee_user_space.Device.Tests.{
  ring, answer, exchange, world, session, device, three, wsm,
}

abbrev c_close : Command
c_close = cmd_close 7

late : Answered 5 0 (exchange 0 2 c_close)
late = inr (refl, omega arith, inr (refl, omega arith, inl refl))

msh_notify_and_wait-Answered_example :
    ((msh_notify_and_wait (world 0 2) c_close (device [] false)).0 ≡ mc_drv_ok)
    × ((msh_notify_and_wait (world 0 2) c_close (device [] false)).1.mc_fault ≡ false)
msh_notify_and_wait-Answered_example =
    msh_notify_and_wait-Answered (world 0 2) c_close (device [] false) refl late refl

silent : (msh_notify_and_wait (world 0 5) c_close (device [] false)).0 ≢ mc_drv_ok
unfolding msh_notify_and_wait notify_session wait_mcp_notification wait_loop handle_all
silent = omega arith

msh_notify_and_wait-unanswered_example :
    ((msh_notify_and_wait (world 0 5) c_close (device [] false)).1.mc_fault ≡ true)
    ⊎ ((exchange 0 5 c_close).thread_exiting ≡ true)
msh_notify_and_wait-unanswered_example =
    msh_notify_and_wait-unanswered (world 0 5) c_close (device [] false) silent

msh_notify_and_wait-fault_example :
    ((msh_notify_and_wait (world 0 0) cmd_get_mobicore_version (device [] true)).0
      ≡ daemon_mci_error)
    × ((msh_notify_and_wait (world 0 0) cmd_get_mobicore_version (device [] true)).1.mc_fault
        ≡ true)
msh_notify_and_wait-fault_example =
    msh_notify_and_wait-fault (world 0 0) cmd_get_mobicore_version (device [] true) refl

-- A ring with an entry for session 7, one for the MCP session and one for an unknown session.
abbrev full_ring : Ring
full_ring = record {
  write_cnt = 2;
  read_cnt = 2 ^ 32 - 1;
  queue_size = 4;
  slots =
      record { session_id = sid_mcp; payload = 0 }
      ∷ record { session_id = 5; payload = 0 }
      ∷ blank
      ∷ record { session_id = 7; payload = 3 }
      ∷ [];
}

full_ring-IsValid : IsValid 2 full_ring
unfolding sub32
full_ring-IsValid = record {
  width = omega arith;
  size = refl;
  slots_there = refl;
  write_word = omega arith;
  read_word = omega arith;
  bounded = omega arith;
}

abbrev interrupted : Device
interrupted = record (device (three 1) false) {
  nq = record { incoming = full_ring; outgoing = ring };
}

full_ring_count : length (contents 2 full_ring) < 4
unfolding sub32
full_ring_count = omega arith

irq_batch-ends_example :
    (q : NotificationQueue) × (contents 2 q.incoming ≡ [])
    × (q.outgoing ≡ ring)
    × (irq_batch 4 interrupted 0
        ≡ some (
          logged
              (record (handle_all interrupted (for_sessions (contents 2 full_ring))) { nq = q })
              scheduler_wakeup,
          for_mcp (contents 2 full_ring),
        ))
irq_batch-ends_example = irq_batch-ends 2 4 interrupted full_ring-IsValid full_ring_count

interrupted_run :
    (for_sessions (contents 2 full_ring)
      ≡ record { session_id = 7; payload = 3 } ∷ record { session_id = 5; payload = 0 } ∷ [])
    × (for_mcp (contents 2 full_ring) ≡ 1)
unfolding sub32 for_sessions for_mcp
interrupted_run = (refl, refl)

mcp_ok_reply : (mcp_command (world 0 0) cmd_get_mobicore_version (device [] false)).0 ≡ mc_drv_ok
unfolding mcp_command msh_notify_and_wait notify_session wait_mcp_notification wait_loop handle_all
mcp_ok_reply = refl

mcp_command-confirmed_example :
    (response_id cmd_get_mobicore_version ≡ response_id cmd_get_mobicore_version)
    × (mcp_ok ≡ mcp_ok)
    × ((mcp_command (world 0 0) cmd_get_mobicore_version (device [] false)).1.rsp
        ≡ answer (response_id cmd_get_mobicore_version) 0)
mcp_command-confirmed_example =
    mcp_command-confirmed (world 0 0) cmd_get_mobicore_version (device [] false) mcp_ok_reply

abbrev fetched : Device
fetched = record (device (three 1) true) { mc_version_info = some 1 }

version_known : (get_mobicore_version (world 0 0) (device [] false)).0 ≡ mc_drv_ok
unfolding get_mobicore_version mcp_command msh_notify_and_wait notify_session wait_mcp_notification
    wait_loop handle_all
version_known = refl

version_kept : some 1 ≡ (get_mobicore_version (world 0 0) (device [] false)).2.mc_version_info
unfolding get_mobicore_version mcp_command msh_notify_and_wait notify_session wait_mcp_notification
    wait_loop handle_all
version_kept = refl

abbrev mapped : Device
mapped =
    device (record (session 1000 1 7 1) { buffers = (6, wsm 6) ∷ [] } ∷ session 2000 2 9 1 ∷ [])
      false

mapped-Distinct : Distinct mapped.sessions
mapped-Distinct = ((omega arith, tt), (tt, tt))

unmapped : (unmap_bulk (world 0 0) mapped 1 7 6 1048576 8).0 ≡ mc_drv_ok
unfolding unmap_bulk find_session get_trustlet_session find_bulk_buff find mcp_command
    msh_notify_and_wait notify_session wait_mcp_notification wait_loop handle_all
unmapped = refl

unmap_bulk-confirmed_example :
    let command = cmd_unmap 7 wsm_l2 1048576 8 in
    (s : TrustletSession) × Owned mapped.sessions 1 7 s
    × ((w : Wsm) × (find 6 s.buffers ≡ some w) × (w.len ≡ 8))
    × (response_id command ≡ response_id command)
    × (mcp_ok ≡ mcp_ok)
    × (skeleton (unmap_bulk (world 0 0) mapped 1 7 6 1048576 8).1
        ≡ update_at s.address (without_buffer 6) (skeleton mapped))
unmap_bulk-confirmed_example = unmap_bulk-confirmed (world 0 0) mapped 1 7 6 1048576 8 unmapped
