-- ===== src/Device/Irq.antt =====
-- Incoming notifications: TrustZoneDevice::handleIrq, MobiCoreDevice::getTrustletSession and
-- queueUnknownNotification.
use trustonic_tee_user_space.Prelude.{
  ℕ, zero, suc, true, false, List, [], ◌∷◌, ◌++◌, Option, none, some, ◌==◌, if◌then◌else◌,
}
use trustonic_tee_user_space.NotificationQueue.{Notification, sid_mcp, get_notification}
use trustonic_tee_user_space.TrustletSession.{TrustletSession, queue_notification}
use trustonic_tee_user_space.Device.{Device, logged, written, ta_exit_wakeup, scheduler_wakeup}

-- The first session of that id.
unfoldable pub get_trustlet_session : List TrustletSession → ℕ → Option TrustletSession
get_trustlet_session [] id = none
get_trustlet_session (s ∷ ss) id = if s.session_id == id then some s else get_trustlet_session ss id

-- A write through a pointer to a session: to the object at that address.
unfoldable pub update_at :
    ℕ → (TrustletSession → TrustletSession) → List TrustletSession → List TrustletSession
update_at a f [] = []
update_at a f (s ∷ ss) = (if s.address == a then f s else s) ∷ update_at a f ss

unfoldable pub queue_unknown_notification : Device → Notification → Device
queue_unknown_notification d n = record d { notifications = d.notifications ++ n ∷ [] }

-- A client that is gone leaves its session to the exit handler.
wake_if_disconnected : TrustletSession → Device → Device
wake_if_disconnected s d = elim s.device_connection [ none ↦ logged d ta_exit_wakeup | some c ↦ d ]

-- To the client's notification socket, or into the session's queue.
forward : Device → TrustletSession → Notification → Device
unfolding update_at wake_if_disconnected
forward d s n = elim s.notification_connection [
  | none ↦
      wake_if_disconnected s
        (record d { sessions = update_at s.address (λ t. queue_notification t n) d.sessions })
  | some c ↦ logged d (written c n)
]

-- One notification that is not for the MCP session.
unfoldable pub handle_notification : Device → Notification → Device
unfolding get_trustlet_session queue_unknown_notification forward
handle_notification d n = elim (get_trustlet_session d.sessions n.session_id) [
  | none ↦ queue_unknown_notification d n
  | some s ↦ forward d s n
]

unfoldable pub handle_all : Device → List Notification → Device
handle_all d [] = d
handle_all d (n ∷ ns) = handle_all (handle_notification d n) ns

-- The loop over the incoming ring, until it is empty: the device, and how often the MCP semaphore
-- is signalled. `none` if the fuel runs out.
unfoldable pub irq_batch : ℕ → Device → ℕ → Option (Device × ℕ)
irq_batch zero d signals = none
irq_batch (suc fuel) d signals =
    let (got, nq) = get_notification d.nq in
    elim got [
      | none ↦ some (logged (record d { nq = nq }) scheduler_wakeup, signals)
      | some n ↦ elim (n.session_id == sid_mcp) [
        | true ↦ irq_batch fuel (record d { nq = nq }) (suc signals)
        | false ↦ irq_batch fuel (handle_notification (record d { nq = nq }) n) signals
      ]
    ]
