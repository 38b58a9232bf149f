-- ===== src/Semaphore.antt =====
-- The semaphore of MobiCoreDriverLib/Common/CSemaphore.cpp: a mutex, a condition and two counters.
-- What a thread does under the mutex is one step. The counters do not overflow here. A thread that
-- sleeps on the condition may wake up at any time, as POSIX allows; `m_count` is an int.
pub mod Permits
mod Tests
use trustonic_tee_user_space.Prelude.{
  ℕ, zero, suc, ◌+◌, ◌-◌, ◌≡◌, ◌≢◌, Bool, true, false, ◌==◌, if◌then◌else◌,
}

-- An integer: `pos n` is n and `negsuc n` is -(n + 1).
pub data ℤ : Type 0 where
  pos negsuc : ℕ → ℤ

unfoldable pub increment : ℤ → ℤ
increment (pos n) = pos (n + 1)
increment (negsuc zero) = pos 0
increment (negsuc (suc n)) = negsuc n

unfoldable pub decrement : ℤ → ℤ
decrement (pos zero) = negsuc 0
decrement (pos (suc n)) = pos n
decrement (negsuc n) = negsuc (suc n)

abbrev pub is_zero : ℤ → Bool
is_zero (pos zero) = true
is_zero _ = false

-- `m_waiters_count` and `m_count`, the threads that sleep in `wait()` and in `wait(int)`, and, as a
-- record of the past, how often a permit was given and taken.
pub record CSemaphore : Type 0 where
  pub waiters_count : ℕ
  pub count : ℤ
  pub sleeping : ℕ
  pub sleeping_timed : ℕ
  pub signals : ℕ
  pub taken : ℕ

unfoldable pub new : ℕ → CSemaphore
new size = record {
  waiters_count = 0;
  count = pos size;
  sleeping = 0;
  sleeping_timed = 0;
  signals = 0;
  taken = 0;
}

abbrev pub would_wait : CSemaphore → Bool
would_wait s = is_zero s.count

-- The end of a wait that takes a permit.
unfoldable pub take_permit : CSemaphore → CSemaphore
take_permit s = record s {
  waiters_count = s.waiters_count - 1;
  count = decrement s.count;
  taken = s.taken + 1;
}

unfoldable pub arrive : CSemaphore → CSemaphore
arrive s = record s { waiters_count = s.waiters_count + 1 }

-- A call of `wait()`, up to its end or its sleep.
unfoldable pub wait : CSemaphore → CSemaphore
unfolding arrive take_permit
wait s =
    if would_wait s then record (arrive s) { sleeping = s.sleeping + 1 } else take_permit (arrive s)

-- A thread wakes up in `wait()`: it looks again.
unfoldable pub wake : CSemaphore → CSemaphore
unfolding take_permit
wake s = if would_wait s then s else take_permit (record s { sleeping = s.sleeping - 1 })

-- A call of `wait(int)`, up to its end or its sleep.
unfoldable pub wait_timed : CSemaphore → CSemaphore
unfolding arrive take_permit
wait_timed s =
    if would_wait s
    then record (arrive s) { sleeping_timed = s.sleeping_timed + 1 }
    else take_permit (arrive s)

-- A thread wakes up in `wait(int)`: it does not look again, but takes a permit unless its time ran
-- out.
unfoldable pub wake_timed : Bool → CSemaphore → CSemaphore
unfolding take_permit
wake_timed timed_out s =
    let up = record s { sleeping_timed = s.sleeping_timed - 1 } in
    if timed_out then record up { waiters_count = s.waiters_count - 1 } else take_permit up

unfoldable pub signal : CSemaphore → CSemaphore
signal s = record s { count = increment s.count; signals = s.signals + 1 }

-- One step of some thread.
pub data Step : CSemaphore → CSemaphore → Type 0 where
  waits : (s : CSemaphore) → Step s (wait s)
  wakes : (s : CSemaphore) → s.sleeping ≢ 0 → Step s (wake s)
  waits_timed : (s : CSemaphore) → Step s (wait_timed s)
  wakes_timed :
      (timed_out : Bool) (s : CSemaphore) → s.sleeping_timed ≢ 0 → Step s (wake_timed timed_out s)
  signals : (s : CSemaphore) → Step s (signal s)

pub data Reachable (size : ℕ) : CSemaphore → Type 0 where
  begun : Reachable size (new size)
  stepped : {s t : CSemaphore} → Reachable size s → Step s t → Reachable size t
