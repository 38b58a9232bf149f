-- ===== src/Client/Api/Drains.antt =====
-- What mcWaitNotification makes of a queue of notifications.
use trustonic_tee_user_space.Prelude.{
  ℕ, zero, suc, ◌+◌, ◌%◌, ◌^◌, ◌<◌, ◌≡◌, refl, ap, ◌∙◌, Bool, true, false, not, List, [], ◌∷◌, some,
  arith, ◌==◌, if◌then◌else◌, length, Bool-cases, inl, inr,
}
use trustonic_tee_user_space.Status.{mc_drv_ok, info_notification, timeout_error}
use trustonic_tee_user_space.Client.Api.Wait.{
  Timeout, infinite, infinite_interruptible, infinite_negative, millis, Read, timed_out,
  notification, Waited, wait_ended, next_step, wait_loop,
}

-- From the round on, the reads take what is left from the queue, and no more comes: a read at the
-- empty queue times out, if it has a timeout. Without one it does not return, and nothing is said.
abbrev pub Reads : (ℕ → Timeout → Read) → ℕ → List ℕ → Type 0
Reads reads round [] = (t : ℕ) → reads round (millis t) ≡ timed_out
Reads reads round (payload ∷ left) =
    ((t : Timeout) → reads round t ≡ notification payload) × Reads reads (suc round) left

-- The wait does not block for ever: it has a timeout, or there is a notification.
abbrev pub Returns : Timeout → List ℕ → Type 0
Returns (millis t) queue = Unit
Returns timeout (payload ∷ left) = Unit
Returns timeout [] = ⊥

-- The first exit code of the queue ends the wait and is kept; else all of it is taken, and the wait
-- succeeds if there was anything.
abbrev pub drained : (seen : Bool) → List ℕ → Waited
drained seen [] = wait_ended (if seen then mc_drv_ok else timeout_error)
drained seen (payload ∷ left) =
    if payload == 0
    then drained true left
    else record { code = info_notification; error_info = some payload; dropped = false }

-- After the first notification every read has the timeout 0.
drain_from :
    (fuel : ℕ) (reads : ℕ → Timeout → Read) (round t count : ℕ) (queue : List ℕ)
    → Reads reads round queue
    → length queue < fuel
    → count + length queue < 2 ^ 32
    → wait_loop fuel reads round (millis t) count ≡ some (drained (not (count == 0)) queue)
unfolding wait_loop next_step
drain_from zero reads round t count queue r f c = absurd (omega arith)
drain_from (suc fuel) reads round t count [] r f c =
    rw (r t, wait_loop) (elim (Bool-cases (count == 0)) [ inl e ↦ rw e refl | inr e ↦ rw e refl ])
drain_from (suc fuel) reads round t count (payload ∷ left) (now, later) f c =
    rw (now (millis t), wait_loop)
      (elim (Bool-cases (payload == 0)) [
        | inr e ↦ rw e refl
        | inl e ↦
            let next : (count + 1) % 2 ^ 32 ≡ suc count = omega arith in
            let seen : not (suc count == 0) ≡ true = ground arith in
            rw (e, next)
              (drain_from fuel reads (suc round) 0 (suc count) left later (omega arith)
                  (omega arith)
                ∙ ap (λ b. some (drained b left)) seen)
      ])

drain_first :
    (reads : ℕ → Timeout → Read) (timeout : Timeout) (payload : ℕ) (left : List ℕ)
    → Reads reads 0 (payload ∷ left)
    → suc (length left) < 2 ^ 32
    → wait_loop (suc (suc (length left))) reads 0 timeout 0 ≡ some (drained false (payload ∷ left))
unfolding wait_loop next_step
drain_first reads timeout payload left (now, later) c =
    rw (now timeout, wait_loop)
      (elim (Bool-cases (payload == 0)) [
        | inr e ↦ rw e refl
        | inl e ↦
            rw e (
              drain_from (suc (length left)) reads 1 0 1 left later (omega arith)
                (omega (arith, c)))
      ])

-- A wait at a queue of fewer than 2 ^ 32 notifications, to which none is added, ends after at most
-- as many reads as there are, and one more, unless it has no timeout and the queue is empty: with a
-- timeout if the queue is empty, else with the first exit code in it, or, if there is none, with
-- success once all of it is taken.
pub wait_loop-drained :
    (reads : ℕ → Timeout → Read) (timeout : Timeout) (queue : List ℕ)
    → Reads reads 0 queue
    → Returns timeout queue
    → length queue < 2 ^ 32
    → wait_loop (suc (length queue)) reads 0 timeout 0 ≡ some (drained false queue)
wait_loop-drained reads timeout (payload ∷ left) r b c = drain_first reads timeout payload left r c
wait_loop-drained reads (millis t) [] r b c =
    drain_from 1 reads 0 t 0 [] r (omega arith) (omega arith)
wait_loop-drained reads infinite [] r b c = absurd b
wait_loop-drained reads infinite_interruptible [] r b c = absurd b
wait_loop-drained reads infinite_negative [] r b c = absurd b
