-- ===== src/NotificationQueue/Tests.antt =====
-- Runs of the queues, and the theorems at concrete rings.
use trustonic_tee_user_space.Prelude.{ℕ, ◌-◌, ◌^◌, ◌≡◌, refl, [], ◌∷◌, none, some, arith}
use trustonic_tee_user_space.Prelude.Words.{add32, sub32}
use trustonic_tee_user_space.NotificationQueue.{
  Notification, Ring, NotificationQueue, init, put_notification, get_notification,
}
use trustonic_tee_user_space.NotificationQueue.Window.{IsValid, blank, contents}
use trustonic_tee_user_space.NotificationQueue.Refinement.{
  puts, gets, ring_run, fifo_run, ring_run-eq-fifo_run,
}

abbrev note : ℕ → Notification
note s = record { session_id = s; payload = 0 }

-- Four slots, two entries, and a write counter that is about to wrap.
abbrev wrapping : Ring
wrapping = record {
  write_cnt = 2 ^ 32 - 1;
  read_cnt = 2 ^ 32 - 3;
  queue_size = 4;
  slots = blank ∷ note 1 ∷ note 2 ∷ blank ∷ [];
}

abbrev queues : NotificationQueue
queues = init wrapping wrapping 4

wrapping-IsValid : IsValid 2 wrapping
unfolding sub32
wrapping-IsValid = record {
  width = omega arith;
  size = refl;
  slots_there = refl;
  write_word = omega arith;
  read_word = omega arith;
  bounded = omega arith;
}

wrapping-contents : contents 2 wrapping ≡ note 1 ∷ note 2 ∷ []
unfolding sub32
wrapping-contents = refl

-- Three puts, the third into a full ring, then four gets.
wrapping_run :
    ring_run wrapping
      (puts (note 3) ∷ puts (note 4) ∷ puts (note 5) ∷ gets ∷ gets ∷ gets ∷ gets ∷ gets ∷ [])
    ≡ some (note 1) ∷ some (note 2) ∷ some (note 3) ∷ some (note 4) ∷ none ∷ []
unfolding ring_run put_notification get_notification sub32 add32
wrapping_run = refl

queues-IsValid : IsValid 2 queues.outgoing
unfolding init
queues-IsValid = wrapping-IsValid

queues_in-IsValid : IsValid 2 queues.incoming
unfolding init
queues_in-IsValid = wrapping-IsValid

ring_run-eq-fifo_run_example :
    ring_run wrapping (puts (note 3) ∷ gets ∷ [])
    ≡ fifo_run 4 (contents 2 wrapping) (puts (note 3) ∷ gets ∷ [])
ring_run-eq-fifo_run_example =
    ring_run-eq-fifo_run 2 wrapping (puts (note 3) ∷ gets ∷ []) wrapping-IsValid
