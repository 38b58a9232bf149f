-- ===== src/Device/Timeout/Tests.antt =====
-- The theorems on the scheduler at concrete times and rounds.
use trustonic_tee_user_space.Prelude.{
  ◌+◌, ◌*◌, ◌≤◌, ◌≡◌, refl, true, false, [], ◌∷◌, none, some, arith, ◌↔◌,
}
use trustonic_tee_user_space.Device.Timeout.{
  Time, Scheduler, Round, sent_siq, whole_seconds, wakeup_time, reached, schedule_round, schedule,
  no_timeout,
}
use trustonic_tee_user_space.Device.Timeout.Clock.{micros, reached-wakeup_time, reached-full_second}
use trustonic_tee_user_space.Device.Timeout.Rounds.{
  yields, schedule-Busy, schedule_round-timeslice, schedule_round-timeout,
}

-- 100.25 seconds.
abbrev begin : Time
begin = record { sec = 100; usec = 250000 }

-- 101.1 seconds: over, but not seen.
abbrev over : Time
over = record { sec = 101; usec = 100000 }

missed_run : reached over (wakeup_time begin 700) ≡ false
unfolding reached wakeup_time whole_seconds
missed_run = refl

reached-wakeup_time_example :
    (reached over (wakeup_time begin 700) ≡ true)
    ↔ ((micros begin + 700 * 1000 ≤ micros over) × ((wakeup_time begin 700).usec ≤ 100000))
reached-wakeup_time_example = reached-wakeup_time begin over 700 (omega arith) (omega arith)

reached-full_second_example :
    reached (record { sec = 200; usec = 999999 }) (wakeup_time begin 750) ≡ false
reached-full_second_example =
    reached-full_second begin (record { sec = 200; usec = 999999 }) 750 refl (omega arith)

abbrev scheduler : Scheduler
scheduler = record { timeslice = 2; wakeup = record { sec = 0; usec = 0 }; timeout = no_timeout }

abbrev busy : Round
busy = record {
  idle = false;
  should_terminate = false;
  now = none;
  call_ok = true;
  flag = λ t. t;
  later = begin;
}

schedule-Busy_example : schedule (busy ∷ busy ∷ busy ∷ []) scheduler ≡ yields 2
schedule-Busy_example =
    schedule-Busy 2 (busy ∷ busy ∷ busy ∷ []) scheduler refl
      ((refl, refl), ((refl, refl), ((refl, refl), tt))) refl

schedule_round-timeslice_example : (schedule_round busy scheduler).1.timeslice ≤ 5
schedule_round-timeslice_example = schedule_round-timeslice busy scheduler (omega arith)

abbrev awaiting : Scheduler
awaiting = record { timeslice = 2; wakeup = begin; timeout = 40 }

abbrev idle_over : Round
idle_over = record busy { idle = true; now = some (record { sec = 100; usec = 250000 }) }

start_reached : reached begin begin ≡ true
unfolding reached
start_reached = refl

schedule_round-timeout_example : (schedule_round idle_over awaiting).0 ≡ sent_siq
schedule_round-timeout_example =
    schedule_round-timeout idle_over awaiting begin refl (omega arith) refl start_reached refl
