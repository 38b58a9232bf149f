-- ===== src/TrustletSession/Lifecycle.antt =====
-- What notifications do to a session: its state machine and its queue.
use trustonic_tee_user_space.Prelude.{
  ℕ, ◌≡◌, ◌≢◌, refl, ap, ◌∙◌, ◌⊎◌, inl, inr, Bool, true, false, map, List, [], ◌∷◌, ◌++◌, some,
  arith, ◌||◌, if◌then◌else◌, Bool-cases,
}
use trustonic_tee_user_space.NotificationQueue.{Notification}
use trustonic_tee_user_space.TrustletSession.{
  TrustletSession, SessionState, ta_running, ta_dead, close_send, is_exit, queue_notification,
  process_queued_notifications, write_all,
}
use mathlib.Core.List.{append_assoc, append-nil}

-- The moves that a notification can make: none, or to `ta_dead`, if the task of a GP session ended.
abbrev pub Moves : TrustletSession → Notification → SessionState → Type 0
Moves s n to = (to ≡ s.session_state) ⊎ ((to ≡ ta_dead) × (s.gp_level ≡ 1) × (n.payload ≢ 0))

-- A notification leaves the state of a session, or makes it dead, and that only for a GP session
-- and a payload other than 0; it touches neither the session's id, its owner nor its buffers.
pub queue_notification-Moves :
    (s : TrustletSession) (n : Notification)
    → Moves s n (queue_notification s n).session_state
      × ((queue_notification s n).session_id ≡ s.session_id)
      × ((queue_notification s n).device_connection ≡ s.device_connection)
      × ((queue_notification s n).buffers ≡ s.buffers)
unfolding queue_notification
queue_notification-Moves s n = ground arith

unfoldable pub queue_all : TrustletSession → List Notification → TrustletSession
queue_all s [] = s
queue_all s (n ∷ ns) = queue_all (queue_notification s n) ns

pub has_exit : ℕ → List Notification → Bool
has_exit gp [] = false
has_exit gp (n ∷ ns) = is_exit gp n || has_exit gp ns

-- The notifications up to the first that says that the task has ended, that one included.
unfoldable pub up_to_exit : ℕ → List Notification → List Notification
up_to_exit gp [] = []
up_to_exit gp (n ∷ ns) = n ∷ (if is_exit gp n then [] else up_to_exit gp ns)

queue_all-dead :
    (s : TrustletSession) (ns : List Notification) → s.session_state ≡ ta_dead → queue_all s ns ≡ s
unfolding queue_all queue_notification
queue_all-dead s [] e = refl
queue_all-dead s (n ∷ ns) e = ground (arith, queue_all-dead s ns e)

running_exit :
    (s : TrustletSession) (n : Notification)
    → s.session_state ≡ ta_running
    → is_exit s.gp_level n ≡ true
    → queue_notification s n
      ≡ record s { session_state = ta_dead; notifications = s.notifications ++ n ∷ [] }
unfolding queue_notification
running_exit s n e x = ground arith

running_plain :
    (s : TrustletSession) (n : Notification)
    → s.session_state ≡ ta_running
    → is_exit s.gp_level n ≡ false
    → queue_notification s n ≡ record s { notifications = s.notifications ++ n ∷ [] }
unfolding queue_notification
running_plain s n e x = ground arith

-- A running session keeps every notification in order up to the one that ends its task, is dead
-- from there on, and drops what comes later.
pub queue_all-running :
    (s : TrustletSession) (ns : List Notification)
    → s.session_state ≡ ta_running
    → queue_all s ns ≡ record s {
      session_state = if has_exit s.gp_level ns then ta_dead else ta_running;
      notifications = s.notifications ++ up_to_exit s.gp_level ns;
    }
unfolding queue_all has_exit up_to_exit
queue_all-running s [] e = ground (arith, append-nil s.notifications)
queue_all-running s (n ∷ ns) e = elim (Bool-cases (is_exit s.gp_level n)) [
  | inl x ↦
      rw (x, running_exit s n e x)
        (queue_all-dead
          (record s { session_state = ta_dead; notifications = s.notifications ++ n ∷ [] }) ns refl)
  | inr x ↦
      rw (x, running_plain s n e x)
        (queue_all-running (record s { notifications = s.notifications ++ n ∷ [] }) ns e
          ∙ rw (append_assoc s.notifications (n ∷ []) (up_to_exit s.gp_level ns)))
]

-- While a close is under way a session keeps no notification, but still learns that its task ended.
pub queue_notification-close_send :
    (s : TrustletSession) (n : Notification)
    → s.session_state ≡ close_send
    → queue_notification s n ≡ (
        if is_exit s.gp_level n
        then record s { session_state = ta_dead; notifications = s.notifications ++ n ∷ [] }
        else s)
unfolding queue_notification
queue_notification-close_send s n e = ground arith

write_all-eq-map : (c : ℕ) (ns : List Notification) → write_all c ns ≡ map (λ n. (c, n)) ns
unfolding write_all
write_all-eq-map c [] = refl
write_all-eq-map c (n ∷ ns) = rw (write_all-eq-map c ns)

-- What comes for a running session with an empty queue before its client connects goes to the
-- client in order, each notification once, up to the one that ended the task; the queue is empty
-- afterwards.
pub queued_then_processed :
    (s : TrustletSession) (ns : List Notification) (connection : ℕ)
    → s.session_state ≡ ta_running
    → s.notifications ≡ []
    → let queued = queue_all s ns in
      let (s', written) =
        process_queued_notifications
          (record queued { notification_connection = some connection }) in
      (written ≡ map (λ n. (connection, n)) (up_to_exit s.gp_level ns)) × (s'.notifications ≡ [])
unfolding process_queued_notifications
queued_then_processed s ns connection running empty = (
  rw (queue_all-running s ns running, write_all-eq-map)
      (ap (λ l. map (λ n. (connection, n)) (l ++ up_to_exit s.gp_level ns)) empty),
  refl,
)
