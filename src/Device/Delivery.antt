-- ===== src/Device/Delivery.antt =====
-- What the IRQ thread does with one batch of incoming notifications.
use trustonic_tee_user_space.Prelude.{
  ℕ, zero, suc, ◌+◌, ◌<◌, ◌≡◌, refl, ap, ◌∙◌, true, false, List, [], ◌∷◌, Option, none, some, arith,
  ◌==◌, if◌then◌else◌, length, Bool-cases, inl, inr,
}
use trustonic_tee_user_space.NotificationQueue.{
  Notification, NotificationQueue, sid_mcp, get_notification,
}
use trustonic_tee_user_space.NotificationQueue.Window.{IsValid, contents}
use trustonic_tee_user_space.NotificationQueue.Refinement.{pop, get_notification-pop}
use trustonic_tee_user_space.Device.{Device, logged, scheduler_wakeup}
use trustonic_tee_user_space.Device.Irq.{handle_notification, handle_all, irq_batch}

-- The notifications for sessions, in order, and the number of those for the MCP session.
unfoldable pub for_sessions : List Notification → List Notification
for_sessions [] = []
for_sessions (n ∷ ns) = if n.session_id == sid_mcp then for_sessions ns else n ∷ for_sessions ns

unfoldable pub for_mcp : List Notification → ℕ
for_mcp [] = 0
for_mcp (n ∷ ns) = if n.session_id == sid_mcp then suc (for_mcp ns) else for_mcp ns

handle_notification-nq :
    (d : Device) (q : NotificationQueue) (n : Notification)
    → handle_notification (record d { nq = q }) n ≡ record (handle_notification d n) { nq = q }
unfolding handle_notification
handle_notification-nq d q n = ground arith

-- One batch from a queue: what is left of it, and what was done.
abbrev Drained : ℕ → ℕ → Device → NotificationQueue → ℕ → List Notification → Type 0
Drained k fuel d q signals ns =
    (q' : NotificationQueue) × (contents k q'.incoming ≡ [])
    × (q'.outgoing ≡ q.outgoing)
    × (irq_batch fuel (record d { nq = q }) signals
        ≡ some (
          logged (record (handle_all d (for_sessions ns)) { nq = q' }) scheduler_wakeup,
          signals + for_mcp ns,
        ))

abbrev ended : Device → NotificationQueue → ℕ → List Notification → Option (Device × ℕ)
ended d q signals ns = some (
  logged (record (handle_all d (for_sessions ns)) { nq = q }) scheduler_wakeup,
  signals + for_mcp ns,
)

ended-mcp :
    (d : Device) (q : NotificationQueue) (signals : ℕ) (n : Notification) (ns : List Notification)
    → (n.session_id == sid_mcp) ≡ true
    → ended d q (suc signals) ns ≡ ended d q signals (n ∷ ns)
unfolding for_sessions for_mcp
ended-mcp d q signals n ns e =
    let sum : suc signals + for_mcp ns ≡ signals + suc (for_mcp ns) = omega arith in rw (e, sum)

ended-session :
    (d : Device) (q : NotificationQueue) (signals : ℕ) (n : Notification) (ns : List Notification)
    → (n.session_id == sid_mcp) ≡ false
    → ended (handle_notification d n) q signals ns ≡ ended d q signals (n ∷ ns)
unfolding for_sessions for_mcp handle_all
ended-session d q signals n ns e = rw e

-- One round of the loop.
round_empty :
    (fuel : ℕ) (d : Device) (q : NotificationQueue) (signals : ℕ)
    → (get_notification q).0 ≡ none
    → irq_batch (suc fuel) (record d { nq = q }) signals ≡ ended d (get_notification q).1 signals []
unfolding irq_batch handle_all for_sessions for_mcp
round_empty fuel d q signals e =
    let sum : signals + 0 ≡ signals = omega arith in rw (e, irq_batch, sum)

round_mcp :
    (fuel : ℕ) (d : Device) (q : NotificationQueue) (signals : ℕ) (n : Notification)
    → (get_notification q).0 ≡ some n
    → (n.session_id == sid_mcp) ≡ true
    → irq_batch (suc fuel) (record d { nq = q }) signals
      ≡ irq_batch fuel (record d { nq = (get_notification q).1 }) (suc signals)
unfolding irq_batch
round_mcp fuel d q signals n e m = rw (e, irq_batch, m)

round_session :
    (fuel : ℕ) (d : Device) (q : NotificationQueue) (signals : ℕ) (n : Notification)
    → (get_notification q).0 ≡ some n
    → (n.session_id == sid_mcp) ≡ false
    → irq_batch (suc fuel) (record d { nq = q }) signals
      ≡ irq_batch fuel (record (handle_notification d n) { nq = (get_notification q).1 }) signals
unfolding irq_batch
round_session fuel d q signals n e m =
    rw (e, irq_batch, m)
      (ap (λ x. irq_batch fuel x signals) (handle_notification-nq d (get_notification q).1 n))

irq_batch-Drained :
    (k fuel : ℕ) (d : Device) (q : NotificationQueue) (signals : ℕ) (ns : List Notification)
    → IsValid k q.incoming
    → contents k q.incoming ≡ ns
    → length ns < fuel
    → Drained k fuel d q signals ns
unfolding pop
irq_batch-Drained k zero d q signals ns v e h = absurd (omega arith)
irq_batch-Drained k (suc fuel) d q signals [] v e h =
    let (v', popped, out) = get_notification-pop k q v in
    let gone : (get_notification q).0 ≡ none = ap (λ p. p.0) popped ∙ ap (λ c. (pop c).0) e in
    let left = ap (λ p. p.1) popped ∙ ap (λ c. (pop c).1) e in
    ((get_notification q).1, left, out, round_empty fuel d q signals gone)
irq_batch-Drained k (suc fuel) d q signals (n ∷ ns) v e h =
    let (v', popped, out) = get_notification-pop k q v in
    let q' = (get_notification q).1 in
    let got : (get_notification q).0 ≡ some n = ap (λ p. p.0) popped ∙ ap (λ c. (pop c).0) e in
    let left : contents k q'.incoming ≡ ns = ap (λ p. p.1) popped ∙ ap (λ c. (pop c).1) e in
    elim (Bool-cases (n.session_id == sid_mcp)) [
      | inl m ↦
          let (q'', empty, same, done) =
            irq_batch-Drained k fuel d q' (suc signals) ns v' left (omega arith) in
          (
            q'',
            empty,
            same ∙ out,
            round_mcp fuel d q signals n got m ∙ done ∙ ended-mcp d q'' signals n ns m,
          )
      | inr m ↦
          let (q'', empty, same, done) =
            irq_batch-Drained k fuel (handle_notification d n) q' signals ns v' left
              (omega arith) in
          (
            q'',
            empty,
            same ∙ out,
            round_session fuel d q signals n got m ∙ done ∙ ended-session d q'' signals n ns m,
          )
    ]

-- A batch from a well formed ring ends after at most as many rounds as the ring has entries, and
-- one more: the ring is empty, the MCP semaphore was signalled once for each notification of the
-- MCP session, every other notification was handled once, in the order of the ring, and then the
-- scheduler was woken up.
pub irq_batch-ends :
    (k fuel : ℕ) (d : Device)
    → IsValid k d.nq.incoming
    → length (contents k d.nq.incoming) < fuel
    → (q : NotificationQueue) × (contents k q.incoming ≡ [])
      × (q.outgoing ≡ d.nq.outgoing)
      × (irq_batch fuel d 0
          ≡ some (
            logged
                (record (handle_all d (for_sessions (contents k d.nq.incoming))) { nq = q })
                scheduler_wakeup,
            for_mcp (contents k d.nq.incoming),
          ))
irq_batch-ends k fuel d v h =
    let sum : 0 + for_mcp (contents k d.nq.incoming) ≡ for_mcp (contents k d.nq.incoming) =
      omega arith in
    let (q, empty, same, done) =
      irq_batch-Drained k fuel d d.nq 0 (contents k d.nq.incoming) v refl h in
    (q, empty, same, done ∙ rw sum)
