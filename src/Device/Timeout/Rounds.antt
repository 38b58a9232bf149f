-- ===== src/Device/Timeout/Rounds.antt =====
-- How the scheduler shares the processor: an N-SIQ after as many yields as the slice has left.
use trustonic_tee_user_space.Prelude.{
  ℕ, zero, suc, ◌+◌, ◌≤◌, ◌≡◌, ◌≢◌, true, false, List, [], ◌∷◌, some, arith, length,
}
use trustonic_tee_user_space.Device.Timeout.{
  Time, Scheduler, Round, Action, yielded, sent_siq, schedule_round, schedule, scheduling_freq,
  reached,
}

-- Rounds in which the secure world has work and takes the calls.
abbrev pub Busy : List Round → Type 0
Busy [] = Unit
Busy (r ∷ rs) = ((r.idle ≡ false) × (r.call_ok ≡ true)) × Busy rs

pub yields : ℕ → List Action
yields zero = sent_siq ∷ []
yields (suc n) = yielded ∷ yields n

busy_yield :
    (r : Round) (s : Scheduler) (n : ℕ)
    → s.timeslice ≡ suc n
    → r.idle ≡ false
    → r.call_ok ≡ true
    → ((schedule_round r s).0 ≡ yielded) × ((schedule_round r s).1.timeslice ≡ n)
unfolding schedule_round
busy_yield r s n t i k = ground arith

busy_siq :
    (r : Round) (s : Scheduler)
    → s.timeslice ≡ 0
    → r.idle ≡ false
    → r.call_ok ≡ true
    → ((schedule_round r s).0 ≡ sent_siq) × ((schedule_round r s).1.timeslice ≡ scheduling_freq)
unfolding schedule_round
busy_siq r s t i k = ground arith

-- While the secure world has work and takes the calls, the rounds yield as often as the slice
-- allows, and the next one sends an N-SIQ.
pub schedule-Busy :
    (n : ℕ) (rs : List Round) (s : Scheduler)
    → s.timeslice ≡ n
    → Busy rs
    → length rs ≡ n + 1
    → schedule rs s ≡ yields n
unfolding schedule yields
schedule-Busy n [] s t b l = absurd (omega arith)
schedule-Busy zero (r ∷ []) s t b l = rw (busy_siq r s t b.0.0 b.0.1).0
schedule-Busy zero (r ∷ q ∷ rs) s t b l = absurd (omega arith)
schedule-Busy (suc n) (r ∷ rs) s t b l =
    let (y, t') = busy_yield r s n t b.0.0 b.0.1 in
    rw (y, schedule-Busy n rs (schedule_round r s).1 t' b.1 (omega arith))

-- Every round leaves a slice of at most five yields.
pub schedule_round-timeslice :
    (r : Round) (s : Scheduler)
    → s.timeslice ≤ scheduling_freq
    → (schedule_round r s).1.timeslice ≤ scheduling_freq
unfolding schedule_round
schedule_round-timeslice r s h = ground arith

-- An idle secure world with a timeout that is over gets an N-SIQ in the same round, whatever is
-- left of the slice, and before it the flag is cleared.
pub schedule_round-timeout :
    (r : Round) (s : Scheduler) (now : Time)
    → r.idle ≡ true
    → s.wakeup.sec ≢ 0
    → r.now ≡ some now
    → reached now s.wakeup ≡ true
    → r.call_ok ≡ true
    → (schedule_round r s).0 ≡ sent_siq
unfolding schedule_round
schedule_round-timeout r s now i w e h k = ground arith
