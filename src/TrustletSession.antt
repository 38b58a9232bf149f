-- ===== src/TrustletSession.antt =====
-- The daemon's side of an open Trusted Application session:
-- MobiCoreDriverLib/Daemon/Device/TrustletSession.cpp and .h, and CWsm of Common/CWsm.h.
-- A connection is named by a number. A null pointer is `none`.
pub mod Lifecycle
pub mod Buffers
mod Tests
use trustonic_tee_user_space.Prelude.{
  ℕ, ◌≡◌, Bool, true, false, not, List, [], ◌∷◌, ◌++◌, Option, none, some, ◌==◌, ◌&&◌,
  if◌then◌else◌,
}
use trustonic_tee_user_space.OrdMap.{OrdMap, find, insert, erase}
use trustonic_tee_user_space.NotificationQueue.{Notification}

-- `CWsm`, without the virtual address, which the daemon leaves null.
pub record Wsm : Type 0 where
  pub len : ℕ
  pub handle : ℕ
  pub phys_addr : ℕ

pub data SessionState : Type 0 where
  ta_running ta_dead close_send closed : SessionState

-- `address` is the object's own address, by which the device tells sessions apart.
pub record TrustletSession : Type 0 where
  pub address : ℕ
  pub session_id : ℕ
  pub session_magic : ℕ
  pub device_connection : Option ℕ
  pub notification_connection : Option ℕ
  pub gp_level : ℕ
  pub session_state : SessionState
  pub notifications : List Notification
  pub buffers : OrdMap Wsm

-- The constructor; `address` and `magic` are what `new` and `rand()` gave.
unfoldable pub new : ℕ → ℕ → Option ℕ → ℕ → TrustletSession
new address magic connection session_id = record {
  address = address;
  session_id = session_id;
  session_magic = magic;
  device_connection = connection;
  notification_connection = none;
  gp_level = 0;
  session_state = ta_running;
  notifications = [];
  buffers = [];
}

abbrev pub is_ta_dead : SessionState → Bool
is_ta_dead ta_dead = true
is_ta_dead _ = false

abbrev pub is_close_send : SessionState → Bool
is_close_send close_send = true
is_close_send _ = false

-- The notification that a task has ended: a GP session gets it with a payload other than 0.
abbrev pub is_exit : ℕ → Notification → Bool
is_exit gp_level n = gp_level == 1 && not (n.payload == 0)

mark_dead : TrustletSession → Notification → TrustletSession
mark_dead s n = if is_exit s.gp_level n then record s { session_state = ta_dead } else s

push_unless_closing : TrustletSession → Notification → TrustletSession
push_unless_closing s n =
    if is_close_send s.session_state
    then s
    else record s { notifications = s.notifications ++ n ∷ [] }

unfoldable pub queue_notification : TrustletSession → Notification → TrustletSession
unfolding mark_dead push_unless_closing
queue_notification s n =
    if is_ta_dead s.session_state then s else push_unless_closing (mark_dead s n) n

-- The loop over the queue: what is written to the connection, in order.
write_all : ℕ → List Notification → List (ℕ × Notification)
write_all connection [] = []
write_all connection (n ∷ ns) = (connection, n) ∷ write_all connection ns

-- `writeData` may fail; the code does not look.
unfoldable pub process_queued_notifications :
    TrustletSession → TrustletSession × List (ℕ × Notification)
unfolding write_all
process_queued_notifications s = elim s.notification_connection [
  | none ↦ (s, [])
  | some connection ↦ (record s { notifications = [] }, write_all connection s.notifications)
]

-- A buffer whose handle is there already is refused (and deleted).
unfoldable pub add_bulk_buff : TrustletSession → Wsm → TrustletSession × Bool
add_bulk_buff s w = elim (find w.handle s.buffers) [
  | some old ↦ (s, false)
  | none ↦ (record s { buffers = insert w.handle w s.buffers }, true)
]

unfoldable pub remove_bulk_buff : TrustletSession → ℕ → TrustletSession × Bool
remove_bulk_buff s handle = elim (find handle s.buffers) [
  | none ↦ (s, false)
  | some w ↦ (record s { buffers = erase handle s.buffers }, true)
]

unfoldable pub find_bulk_buff : TrustletSession → ℕ → ℕ → Bool
find_bulk_buff s handle len = elim (find handle s.buffers) [ none ↦ false | some w ↦ w.len == len ]

-- The first buffer of the map is removed by its own handle.
pop_from : TrustletSession → OrdMap Wsm → TrustletSession × Option Wsm
pop_from s [] = (s, none)
pop_from s ((k, w) ∷ m) = (record s { buffers = erase w.handle ((k, w) ∷ m) }, some w)

unfoldable pub pop_bulk_buff : TrustletSession → TrustletSession × Option Wsm
unfolding pop_from
pop_bulk_buff s = pop_from s s.buffers
