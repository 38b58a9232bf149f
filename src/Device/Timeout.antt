-- ===== src/Device/Timeout.antt =====
-- The scheduler thread: TrustZoneDevice::schedule. The clock and the secure world's flags are
-- inputs of each round; `struct timeval` is a record of naturals.
pub mod Clock
pub mod Rounds
mod Tests
use trustonic_tee_user_space.Prelude.{
  ℕ, zero, suc, ◌+◌, ◌-◌, ◌*◌, ◌^◌, Bool, true, false, not, List, [], ◌∷◌, Option, none, some, ◌==◌,
  ◌&&◌, if◌then◌else◌, ltb, leb,
}

pub record Time : Type 0 where
  pub sec : ℕ
  pub usec : ℕ

-- The loop that turns milliseconds into seconds: the seconds and the milliseconds left. The number
-- of milliseconds is fuel enough.
unfoldable pub whole_seconds : ℕ → ℕ → ℕ → ℕ × ℕ
whole_seconds zero sec ms = (sec, ms)
whole_seconds (suc fuel) sec ms =
    let rest = whole_seconds fuel (sec + 1) (ms - 1000) in if leb 1000 ms then rest else (sec, ms)

unfoldable pub wakeup_time : Time → ℕ → Time
wakeup_time now timeout =
    let (sec, ms) = whole_seconds timeout now.sec timeout in
    let usec = now.usec + ms * 1000 in
    if ltb 1000000 usec
    then record { sec = sec + 1; usec = usec - 1000000 }
    else record { sec = sec; usec = usec }

-- Seconds and microseconds are compared each for itself.
unfoldable pub reached : Time → Time → Bool
reached now wakeup = leb wakeup.sec now.sec && leb wakeup.usec now.usec

abbrev pub scheduling_freq : ℕ
scheduling_freq = 5

abbrev pub no_timeout : ℕ
no_timeout = 2 ^ 32 - 1

pub record Scheduler : Type 0 where
  pub timeslice : ℕ
  pub wakeup : Time
  -- `mcFlags->timeout`
  pub timeout : ℕ

-- What a round meets: whether the flag says idle, whether the thread is to end after its sleep, the
-- clock (none if it fails), whether the call to the secure world works, the flag it leaves, and the
-- clock afterwards.
pub record Round : Type 0 where
  pub idle : Bool
  pub should_terminate : Bool
  pub now : Option Time
  pub call_ok : Bool
  pub flag : ℕ → ℕ
  pub later : Time

pub data Action : Type 0 where
  slept terminated waited yielded sent_siq failed : Action

-- After the call: the time to wake up at, or 0 seconds for none.
set_wakeup : Round → Scheduler → Scheduler
set_wakeup r s =
    let timeout = r.flag s.timeout in
    if timeout == no_timeout
    then record s { wakeup = record { sec = 0; usec = s.wakeup.usec }; timeout = timeout }
    else record s { wakeup = wakeup_time r.later timeout; timeout = timeout }

-- The call itself: a yield while the slice lasts, then an N-SIQ.
hand_over : Round → Scheduler → Action × Scheduler
unfolding set_wakeup
hand_over r s =
    let used = record s { timeslice = s.timeslice - 1 } in
    let fresh = record s { timeslice = scheduling_freq } in
    if s.timeslice == 0
    then if r.call_ok then (sent_siq, set_wakeup r fresh) else (failed, fresh)
    else if r.call_ok
    then (yielded, set_wakeup r used)
    else (failed, used)

-- An awaited timeout while the secure world is idle.
check_timeout : Round → Scheduler → Action × Scheduler
unfolding hand_over
check_timeout r s = elim r.now [
  | none ↦ (waited, s)
  | some now ↦
      if reached now s.wakeup
      then hand_over r (record s { timeslice = 0; timeout = no_timeout })
      else (waited, s)
]

unfoldable pub schedule_round : Round → Scheduler → Action × Scheduler
unfolding check_timeout
schedule_round r s =
    if r.idle
    then if s.wakeup.sec == 0
      then (if r.should_terminate then terminated else slept, s)
      else check_timeout r s
    else hand_over r s

goes_on : Action → Bool
goes_on terminated = false
goes_on failed = false
goes_on _ = true

-- The loop over the rounds that are met: what each does, until the thread ends.
unfoldable pub schedule : List Round → Scheduler → List Action
unfolding goes_on
schedule [] s = []
schedule (r ∷ rs) s =
    let (a, s') = schedule_round r s in
    let rest = schedule rs s' in a ∷ (if goes_on a then rest else [])
