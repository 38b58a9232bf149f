-- ===== src/TrustletSession/Tests.antt =====
-- The theorems on sessions at a concrete session.
use trustonic_tee_user_space.Prelude.{ℕ, ◌≡◌, refl, [], ◌∷◌, none, some, arith, if◌then◌else◌}
use trustonic_tee_user_space.NotificationQueue.{Notification}
use trustonic_tee_user_space.TrustletSession.{
  TrustletSession, Wsm, ta_running, ta_dead, queue_notification,
}
use trustonic_tee_user_space.TrustletSession.Lifecycle.{
  queue_all, has_exit, up_to_exit, queue_all-running,
}
use trustonic_tee_user_space.TrustletSession.Buffers.{IsValid}

abbrev wsm : ℕ → Wsm
wsm h = record { len = 8; handle = h; phys_addr = 0 }

abbrev gp_session : TrustletSession
gp_session = record {
  address = 1000;
  session_id = 7;
  session_magic = 1;
  device_connection = some 1;
  notification_connection = none;
  gp_level = 1;
  session_state = ta_running;
  notifications = [];
  buffers = (5, wsm 5) ∷ (9, wsm 9) ∷ [];
}

abbrev note : ℕ → Notification
note p = record { session_id = 7; payload = p }

gp_session-IsValid : IsValid gp_session
gp_session-IsValid = record { sorted = (omega arith, tt); keyed = (refl, (refl, tt)) }

-- The task ends at the second of three notifications.
queue_run :
    (queue_all gp_session (note 0 ∷ note 4 ∷ note 0 ∷ [])).notifications ≡ note 0 ∷ note 4 ∷ []
unfolding queue_all queue_notification
queue_run = refl

queue_all-running_example :
    queue_all gp_session (note 0 ∷ note 4 ∷ note 0 ∷ []) ≡ record gp_session {
      session_state = if has_exit 1 (note 0 ∷ note 4 ∷ note 0 ∷ []) then ta_dead else ta_running;
      notifications = up_to_exit 1 (note 0 ∷ note 4 ∷ note 0 ∷ []);
    }
queue_all-running_example = queue_all-running gp_session (note 0 ∷ note 4 ∷ note 0 ∷ []) refl
