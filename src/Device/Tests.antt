-- ===== src/Device/Tests.antt =====
-- Concrete devices and secure worlds.
mod Closings
mod Openings
mod Exchanges
use trustonic_tee_user_space.Prelude.{
  ℕ, zero, suc, ◌+◌, ◌-◌, ◌%◌, ◌^◌, ◌<◌, ◌≤◌, ◌≡◌, ◌≢◌, refl, ap, Bool, true, false, List, [], ◌∷◌,
  ◌++◌, Option, none, some, arith, ◌==◌, ◌⊎◌, inl, inr, length, if◌then◌else◌,
}
use trustonic_tee_user_space.Status.{
  mc_drv_ok, mcp_ok, daemon_mci_error, make_mcp_error, mcp_close_task_failed, tci_greater_than_wsm,
}
use trustonic_tee_user_space.NotificationQueue.{Ring, NotificationQueue, sid_mcp}
use trustonic_tee_user_space.NotificationQueue.Window.{IsValid, blank, contents}
use trustonic_tee_user_space.TrustletSession.{TrustletSession, Wsm, new, ta_dead, ta_running}
use trustonic_tee_user_space.TrustletSession.Lifecycle.{up_to_exit}
use trustonic_tee_user_space.Device.{
  Device, Env, Exchange, Command, LoadData, Response, cmd_close, cmd_get_mobicore_version,
  response_id, unlocked, logged, scheduler_wakeup,
}
use trustonic_tee_user_space.Device.Irq.{get_trustlet_session, update_at, handle_all, irq_batch}
use trustonic_tee_user_space.Device.Mcp.{
  msh_notify_and_wait, notify_session, wait_mcp_notification, wait_loop, response_code, mcp_command,
}
use trustonic_tee_user_space.Device.Sessions.{
  find_session, deref, remove_at, unlock_buffers, free_session,
}
use trustonic_tee_user_space.Device.Open.{register_session, prepare_tci, open_with, open_session}
use trustonic_tee_user_space.Device.Close.{
  send_session_close_cmd, close_session_internal, disconnect, finish_close, close_found,
  close_session, close,
}
use trustonic_tee_user_space.Device.TaExit.{handle_ta_exit}
use trustonic_tee_user_space.Device.Skeleton.{skeleton}
use trustonic_tee_user_space.Device.Ownership.{Distinct, others}
use trustonic_tee_user_space.Device.Faults.{
  Answered, msh_notify_and_wait-Answered, msh_notify_and_wait-unanswered, msh_notify_and_wait-fault,
}
use trustonic_tee_user_space.Device.Opening.{
  opened, Outcome, register_session-takes, open_session-Outcome,
}
use trustonic_tee_user_space.Device.Closing.{unlock_log, unlock_buffers_lem, close_session-others}
use trustonic_tee_user_space.Device.Locks.{
  Balanced, lock_count, unlock_count, open_session_error-Balanced, open_session_leaves_locked,
}
use trustonic_tee_user_space.Prelude.Words.{sub32}
use trustonic_tee_user_space.Device.Delivery.{for_sessions, for_mcp, irq_batch-ends}
use trustonic_tee_user_space.Device.Cleanup.{Confirms, handle_ta_exit_ends, handle_ta_exit_hangs}
use trustonic_tee_user_space.Device.Cleanup.Dead.{any_dead}
use trustonic_tee_user_space.Device.CloseAll.{Legacy, close_gp_ends, close-Legacy_hangs}
use trustonic_tee_user_space.Device.CloseAll.Owned.{Closable, count_owned}

abbrev pub ring : Ring
ring = record {
  write_cnt = 0;
  read_cnt = 0;
  queue_size = 4;
  slots = blank ∷ blank ∷ blank ∷ blank ∷ [];
}

abbrev pub rings : NotificationQueue
rings = record { incoming = ring; outgoing = ring }

abbrev pub answer : ℕ → ℕ → Response
answer id result = record {
  rsp_id = id;
  result = result;
  session_id = 21;
  secure_virtual_adr = 0;
  version_info = 1;
}

-- A secure world that answers each command with the result, on the wait of that number.
abbrev pub exchange : ℕ → ℕ → Command → Exchange
exchange result wait c = record {
  delivered = [];
  signalled = λ i. i == wait;
  status = λ _. 1;
  thread_exiting = false;
  rsp = answer (response_id c) result;
  nq = rings;
}

-- Buffers 5 and 6 can be locked; 6 is contiguous, of 100 bytes.
abbrev pub world : ℕ → ℕ → Env
world result wait = record {
  exchange = λ _. exchange result wait;
  lock_wsm = λ _ h. true;
  find_contiguous_wsm = λ _ h _. if h == 6 then some (4096, 100) else none;
  find_wsm = λ _ h _. if h == 5 then 8192 else 0;
  new_address = λ _. 4000;
  rand = λ _. 77;
}

abbrev pub session : (address owner session_id gp : ℕ) → TrustletSession
session address owner session_id gp = record (s address owner session_id) { gp_level = gp }
  where
    s : ℕ → ℕ → ℕ → TrustletSession
    s a c i = record {
      address = a;
      session_id = i;
      session_magic = 1;
      device_connection = some c;
      notification_connection = none;
      gp_level = 0;
      session_state = ta_running;
      notifications = [];
      buffers = [];
    }

abbrev pub dead : TrustletSession → TrustletSession
dead s = record s { session_state = ta_dead }

abbrev pub device : List TrustletSession → Bool → Device
device ss fault = record {
  sessions = ss;
  notifications =
      record { session_id = 21; payload = 0 } ∷ record { session_id = 9; payload = 2 } ∷ [];
  mc_fault = fault;
  mc_version_info = none;
  mci_reused = false;
  nq = rings;
  rsp = answer 0 0;
  log = [];
}

-- Connection 1 has sessions 7 and 8, connection 2 has session 9.
abbrev pub three : ℕ → List TrustletSession
three gp = session 1000 1 7 gp ∷ session 2000 2 9 gp ∷ session 3000 1 8 gp ∷ []

abbrev pub load : LoadData
load = record { base_addr = 1; offs = 0; len = 50; tl_header = 0; uuid = 5; is_gpta = true }

pub three-Distinct : (gp : ℕ) → Distinct (three gp)
three-Distinct gp = ((omega arith, (omega arith, tt)), ((omega arith, tt), (tt, tt)))

abbrev pub wsm : ℕ → Wsm
wsm h = record { len = 8; handle = h; phys_addr = 0 }
