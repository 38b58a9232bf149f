-- ===== src/Semaphore/Permits.antt =====
-- How many permits are taken.
use trustonic_tee_user_space.Prelude.{
  ℕ, zero, suc, ◌+◌, ◌≡◌, refl, true, false, arith, Bool-cases, inl, inr,
}
use trustonic_tee_user_space.Semaphore.{
  ℤ, pos, negsuc, increment, decrement, CSemaphore, new, would_wait, wait, wake, wait_timed,
  wake_timed, signal, Step, waits, wakes, waits_timed, wakes_timed, signals, Reachable, begun,
  stepped,
}

-- The counter is `n` less `m`.
abbrev pub Difference : ℤ → ℕ → ℕ → Type 0
Difference (pos k) n m = m + k ≡ n
Difference (negsuc k) n m = n + suc k ≡ m

-- The counters count what they should.
pub record Counted (size : ℕ) (s : CSemaphore) : Type 0 where
  pub permits : Difference s.count (size + s.signals) s.taken
  pub waiters : s.waiters_count ≡ s.sleeping + s.sleeping_timed

Difference-increment : (z : ℤ) (n m : ℕ) → Difference z n m → Difference (increment z) (n + 1) m
unfolding increment
Difference-increment (pos k) n m h = omega arith
Difference-increment (negsuc zero) n m h = omega arith
Difference-increment (negsuc (suc k)) n m h = omega arith

Difference-decrement : (z : ℤ) (n m : ℕ) → Difference z n m → Difference (decrement z) n (m + 1)
unfolding decrement
Difference-decrement (pos zero) n m h = omega arith
Difference-decrement (pos (suc k)) n m h = omega arith
Difference-decrement (negsuc k) n m h = omega arith

shift : (size n m : ℕ) (z : ℤ) → Difference z (size + n + 1) m → Difference z (size + (n + 1)) m
shift size n m (pos k) h = omega arith
shift size n m (negsuc k) h = omega arith

Counted-Step : (size : ℕ) (s t : CSemaphore) → Step s t → Counted size s → Counted size t
unfolding wait wake wait_timed wake_timed signal
Counted-Step size _ _ (waits s) c = elim (Bool-cases (would_wait s)) [
  | inl e ↦ rw e (record { permits = c.permits; waiters = omega (arith, c.waiters) })
  | inr e ↦ rw e (record {
    permits = Difference-decrement s.count (size + s.signals) s.taken c.permits;
    waiters = omega (arith, c.waiters);
  })
]
Counted-Step size _ _ (wakes s h) c = elim (Bool-cases (would_wait s)) [
  | inl e ↦ rw e c
  | inr e ↦ rw e (record {
    permits = Difference-decrement s.count (size + s.signals) s.taken c.permits;
    waiters = omega (arith, c.waiters);
  })
]
Counted-Step size _ _ (waits_timed s) c = elim (Bool-cases (would_wait s)) [
  | inl e ↦ rw e (record { permits = c.permits; waiters = omega (arith, c.waiters) })
  | inr e ↦ rw e (record {
    permits = Difference-decrement s.count (size + s.signals) s.taken c.permits;
    waiters = omega (arith, c.waiters);
  })
]
Counted-Step size _ _ (wakes_timed true s h) c = record {
  permits = c.permits;
  waiters = omega (arith, c.waiters);
}
Counted-Step size _ _ (wakes_timed false s h) c = record {
  permits = Difference-decrement s.count (size + s.signals) s.taken c.permits;
  waiters = omega (arith, c.waiters);
}
Counted-Step size _ _ (signals s) c = record {
  permits =
      shift size s.signals s.taken (increment s.count)
        (Difference-increment s.count (size + s.signals) s.taken c.permits);
  waiters = c.waiters;
}

-- However the threads' steps follow one another, the counter is the initial number of permits and
-- the number of signals, less the permits that were taken, and the number of waiters is that of the
-- threads that sleep.
pub Reachable-Counted : (size : ℕ) (s : CSemaphore) → Reachable size s → Counted size s
unfolding new
Reachable-Counted size _ begun = record { permits = omega arith; waiters = refl }
Reachable-Counted size _ (stepped {s} {t} r step) =
    Counted-Step size s t step (Reachable-Counted size s r)
