-- ===== src/Semaphore/Tests.antt =====
-- Runs of the semaphore, and the theorem at one of them.
use trustonic_tee_user_space.Prelude.{◌≡◌, ◌≢◌, refl, false, arith}
use trustonic_tee_user_space.Semaphore.{
  pos, negsuc, increment, decrement, CSemaphore, new, wait, wake, wait_timed, wake_timed, signal,
  begun, stepped, waits, wakes, signals,
}
use trustonic_tee_user_space.Semaphore.Permits.{Counted, Reachable-Counted}

-- A thread waits, is signalled and goes on.
abbrev served : CSemaphore
served = wake (signal (wait (new 0)))

served_run : (served.count ≡ pos 0) × (served.taken ≡ 1) × (served.sleeping ≡ 0)
unfolding wait wake signal new increment decrement
served_run = (refl, refl, refl)

-- A thread that wakes up in `wait(int)` without a signal takes a permit that is not there.
spurious_run : (wake_timed false (wait_timed (new 0))).count ≡ negsuc 0
unfolding wait_timed wake_timed new decrement
spurious_run = refl

asleep : (signal (wait (new 0))).sleeping ≢ 0
unfolding wait signal new
asleep = omega arith

Reachable-Counted_example : Counted 0 served
Reachable-Counted_example = Reachable-Counted 0 served (
    stepped (stepped (stepped begun (waits (new 0))) (signals (wait (new 0))))
      (wakes (signal (wait (new 0))) asleep))
