-- ===== src/Device/Timeout/Clock.antt =====
-- When the scheduler forces an N-SIQ for a timeout.
use trustonic_tee_user_space.Prelude.{
  ℕ, zero, suc, ◌+◌, ◌-◌, ◌*◌, ◌/◌, ◌%◌, ◌<◌, ◌≤◌, ◌≡◌, true, false, arith, ◌↔◌, if◌then◌else◌, ltb,
}
use trustonic_tee_user_space.Device.Timeout.{Time, whole_seconds, wakeup_time, reached}

-- A time in microseconds.
abbrev pub micros : Time → ℕ
micros t = t.sec * 1000000 + t.usec

whole_seconds_lem :
    (fuel sec ms : ℕ) → ms ≤ fuel → whole_seconds fuel sec ms ≡ (sec + ms / 1000, ms % 1000)
unfolding whole_seconds
whole_seconds_lem zero sec ms h = ground arith
whole_seconds_lem (suc fuel) sec ms h = ground (arith, whole_seconds_lem fuel (sec + 1) (ms - 1000))

wakeup_time-eq :
    (now : Time) (timeout : ℕ)
    → wakeup_time now timeout ≡ (
        let usec = now.usec + timeout % 1000 * 1000 in
        if ltb 1000000 usec
        then record { sec = now.sec + timeout / 1000 + 1; usec = usec - 1000000 }
        else record { sec = now.sec + timeout / 1000; usec = usec })
unfolding wakeup_time
wakeup_time-eq now timeout = rw (whole_seconds_lem timeout now.sec timeout (omega arith))

-- From a proper clock, the time to wake up at is exactly the timeout later.
pub wakeup_time-micros :
    (now : Time) (timeout : ℕ)
    → now.usec < 1000000
    → (micros (wakeup_time now timeout) ≡ micros now + timeout * 1000)
      × ((wakeup_time now timeout).usec ≤ 1000000)
wakeup_time-micros now timeout h = rw (wakeup_time-eq now timeout) (ground arith)

reached_lem :
    (later wakeup : Time)
    → later.usec < 1000000
    → (reached later wakeup ≡ true) ↔ ((micros wakeup ≤ micros later) × (wakeup.usec ≤ later.usec))
unfolding reached
reached_lem later wakeup h = ground arith

-- With proper clocks, a timeout is seen at a later time just if it is over by then and the clock
-- stands at or beyond the microseconds of the time to wake up at.
pub reached-wakeup_time :
    (now later : Time) (timeout : ℕ)
    → now.usec < 1000000
    → later.usec < 1000000
    → (reached later (wakeup_time now timeout) ≡ true) ↔ (
        (micros now + timeout * 1000 ≤ micros later)
        × ((wakeup_time now timeout).usec ≤ later.usec))
reached-wakeup_time now later timeout h k =
    rw (← (wakeup_time-micros now timeout h).0) (reached_lem later (wakeup_time now timeout) k)

-- If the microseconds of the clock and those of the timeout's part below a second add up to
-- exactly a second, the timeout is never seen, at no time of a proper clock.
pub reached-full_second :
    (now later : Time) (timeout : ℕ)
    → now.usec + timeout % 1000 * 1000 ≡ 1000000
    → later.usec < 1000000
    → reached later (wakeup_time now timeout) ≡ false
unfolding reached
reached-full_second now later timeout h k = rw (wakeup_time-eq now timeout) (ground arith)
