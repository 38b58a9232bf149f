-- ===== src/NotificationQueue.antt =====
-- The notification queues of the MCI buffer: MobiCoreDriverLib/Daemon/Device/NotificationQueue.cpp,
-- NotificationQueue.h and the layout in common/MobiCore/inc/Mci/mcinq.h.
-- A ring of `queue_size` slots, a power of two, with two free-running uint32_t counters.
-- `getNotification` returns a pointer into the ring; here it returns what the slot holds.
pub mod Window
pub mod Refinement
mod Tests
use trustonic_tee_user_space.Prelude.{
  ℕ, ◌≡◌, Bool, Option, none, List, get_elem?, set, ltb, if◌then◌else◌, bit_and,
}
use trustonic_tee_user_space.Prelude.Words.{add32, sub32}

-- `payload` is the int32_t as its bit pattern: 0 is a plain notification.
pub record Notification : Type 0 where
  pub session_id : ℕ
  pub payload : ℕ

abbrev pub sid_mcp : ℕ
sid_mcp = 0

-- `notificationQueue_t`: the header and the slots behind it.
pub record Ring : Type 0 where
  pub write_cnt : ℕ
  pub read_cnt : ℕ
  pub queue_size : ℕ
  pub slots : List Notification

pub record NotificationQueue : Type 0 where
  pub incoming : Ring
  pub outgoing : Ring

-- The constructor: it sets the size of both rings and leaves the counters.
pub init : Ring → Ring → ℕ → NotificationQueue
init i o size = record {
  incoming = record i { queue_size = size };
  outgoing = record o { queue_size = size };
}

abbrev pub slot : ℕ → ℕ → ℕ
slot cnt size = bit_and cnt (sub32 size 1)

-- A write past the slots changes nothing; `Window.IsValid` rules it out.
put : Ring → Notification → Ring
put r n =
    if ltb (sub32 r.write_cnt r.read_cnt) r.queue_size
    then record r {
      slots = set r.slots (slot r.write_cnt r.queue_size) n;
      write_cnt = add32 r.write_cnt 1;
    }
    else r

get : Ring → Option Notification × Ring
get r =
    if ltb 0 (sub32 r.write_cnt r.read_cnt)
    then (
      get_elem? r.slots (slot r.read_cnt r.queue_size),
      record r { read_cnt = add32 r.read_cnt 1 },
    )
    else (none, r)

pub put_notification : NotificationQueue → Notification → NotificationQueue
unfolding put
put_notification q n = record q { outgoing = put q.outgoing n }

pub get_notification : NotificationQueue → Option Notification × NotificationQueue
unfolding get
get_notification q = let (n, i) = get q.incoming in (n, record q { incoming = i })
