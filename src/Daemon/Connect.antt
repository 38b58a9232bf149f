-- ===== src/Daemon/Connect.antt =====
-- NQ_CONNECT: which session a socket is attached to.
use trustonic_tee_user_space.Prelude.{
  ℕ, ◌≡◌, ◌≢◌, refl, subst, ap, ◌∙◌, true, false, List, [], ◌∷◌, Option, none, some, arith, ◌==◌,
  Bool-cases, Option-cases, ◌⊎◌, inl, inr,
}
use trustonic_tee_user_space.Status.{mc_drv_ok, unknown_device}
use trustonic_tee_user_space.NotificationQueue.{Notification}
use trustonic_tee_user_space.TrustletSession.{TrustletSession, process_queued_notifications}
use trustonic_tee_user_space.Device.{Device}
use trustonic_tee_user_space.Device.Irq.{update_at}
use trustonic_tee_user_space.Device.Sessions.{
  NqConnect, matches, register_in, register_trustlet_connection,
}
use trustonic_tee_user_space.Device.Ownership.{Fresh, Distinct}
use trustonic_tee_user_space.Daemon.{
  Daemon, payload, has_device, recv_payload, write_result, result, remove_connection,
}
use trustonic_tee_user_space.Daemon.Process.{
  device_id_default, NqRequest, log_written, flush_session, connect_session, process_nq_connect,
}

-- The session with the socket, and nothing left in its queue.
abbrev pub attached_to : ℕ → TrustletSession → TrustletSession
attached_to c s = record s { notification_connection = some c; notifications = [] }

-- Sessions stay as they are, unless the request names their address, id and magic.
abbrev pub AuthOnly : ℕ → NqConnect → List TrustletSession → List TrustletSession → Type 0
AuthOnly c cmd [] [] = Unit
AuthOnly c cmd [] (t ∷ ts) = ⊥
AuthOnly c cmd (s ∷ ss) [] = ⊥
AuthOnly c cmd (s ∷ ss) (t ∷ ts) =
    ((t ≡ s) ⊎ ((matches cmd s ≡ true) × (t ≡ attached_to c s))) × AuthOnly c cmd ss ts

AuthOnly-refl : (c : ℕ) (cmd : NqConnect) (ss : List TrustletSession) → AuthOnly c cmd ss ss
AuthOnly-refl c cmd [] = tt
AuthOnly-refl c cmd (s ∷ ss) = (inl refl, AuthOnly-refl c cmd ss)

abbrev flush : TrustletSession → TrustletSession
flush s = (process_queued_notifications s).0

update_at-Fresh :
    (a : ℕ) (f : TrustletSession → TrustletSession) (ss : List TrustletSession)
    → Fresh a ss
    → update_at a f ss ≡ ss
unfolding update_at
update_at-Fresh a f [] h = refl
update_at-Fresh a f (s ∷ ss) h = ground (arith, update_at-Fresh a f ss h.1)

address_of : Option TrustletSession → ℕ
address_of none = 0
address_of (some s) = s.address

found-address :
    (c b : ℕ) (cmd : NqConnect) (ss : List TrustletSession) (s : TrustletSession)
    → Fresh b ss
    → (register_in c cmd ss).0 ≡ some s
    → s.address ≢ b
unfolding register_in address_of
found-address c b cmd [] s h e at = cc
found-address c b cmd (t ∷ ss) s h e at = elim (Bool-cases (matches cmd t)) [
  | inl m ↦ h.0 (ap address_of (rw (m, register_in) at e) ∙ at)
  | inr m ↦ found-address c b cmd ss s h.1 (rw (m, register_in) at e) at
]

-- The search and the flush of the session that it finds.
register_in-AuthOnly :
    (c : ℕ) (cmd : NqConnect) (ss : List TrustletSession) (s : TrustletSession)
    → Distinct ss
    → (register_in c cmd ss).0 ≡ some s
    → AuthOnly c cmd ss (update_at s.address flush (register_in c cmd ss).1)
unfolding register_in update_at address_of process_queued_notifications
register_in-AuthOnly c cmd [] s h e = tt
register_in-AuthOnly c cmd (t ∷ ss) s h e = elim (Bool-cases (matches cmd t)) [
  | inl m ↦
      let same : t.address ≡ s.address = ap address_of (rw (m, register_in) at e) in
      let kept : update_at s.address flush ss ≡ ss =
        update_at-Fresh s.address flush ss (subst (λ a. Fresh a ss) same h.0) in
      let here : (t.address == s.address) ≡ true = ground arith in
      rw (m, register_in, here, kept) (inr (m, refl), AuthOnly-refl c cmd ss)
  | inr m ↦
      let e' : (register_in c cmd ss).0 ≡ some s = rw (m, register_in) at e in
      let away : (t.address == s.address) ≡ false =
        let n = found-address c t.address cmd ss s h.0 e' in ground (arith, n) in
      rw (m, register_in, away) (inl refl, register_in-AuthOnly c cmd ss s h.1 e')
]

register_in-none :
    (c : ℕ) (cmd : NqConnect) (ss : List TrustletSession)
    → (register_in c cmd ss).0 ≡ none
    → (register_in c cmd ss).1 ≡ ss
unfolding register_in
register_in-none c cmd [] e = refl
register_in-none c cmd (t ∷ ss) e = elim (Bool-cases (matches cmd t)) [
  | inl m ↦ let impossible : ⊥ = ground (arith, m) in absurd impossible
  | inr m ↦
      rw (m, register_in) (ap (λ r. t ∷ r) (register_in-none c cmd ss (rw (m, register_in) at e)))
]

log_written-sessions :
    (ns : List (ℕ × Notification)) (d : Device) → (log_written ns d).sessions ≡ d.sessions
unfolding log_written
log_written-sessions [] d = refl
log_written-sessions ((c, n) ∷ ns) d = log_written-sessions ns _

-- What the daemon has done at the end of a request to attach a socket.
abbrev pub Connected : Daemon → ℕ → NqConnect → Daemon → Type 0
Connected d c target d' =
    AuthOnly c target d.device.sessions d'.device.sessions
    × ((d'.replies ≡ (c, result mc_drv_ok) ∷ d.replies) ⊎ (d'.device.sessions ≡ d.device.sessions))

connect_session-Connected :
    (d : Daemon) (c : ℕ) (target : NqConnect)
    → Distinct d.device.sessions
    → Connected d c target (connect_session d c target)
unfolding connect_session register_trustlet_connection flush_session
connect_session-Connected d c target h =
    elim (Option-cases (register_in c target d.device.sessions).0) [
      | inl e ↦
          let same = register_in-none c target d.device.sessions e in
          rw (e, connect_session, register_trustlet_connection, same)
            (AuthOnly-refl c target d.device.sessions, inr refl)
      | inr (s, e) ↦
          let (found, device) = register_trustlet_connection d.device c target in
          let sessions = update_at s.address flush (register_in c target d.device.sessions).1 in
          let left =
            log_written-sessions (process_queued_notifications s).1
              (record device { sessions = sessions }) in
          rw (e, connect_session, register_trustlet_connection, left)
            (register_in-AuthOnly c target d.device.sessions s h e, inl refl)
    ]

-- If no two sessions share an address, a connection without a device that asks for the
-- notifications of a session is attached only to a session whose address, id and magic it names,
-- with the queue of that session emptied; every other session stays as it is, and all of them do
-- unless the answer is success.
pub process_nq_connect-Connected :
    (d : Daemon) (c : ℕ) (cmd : NqRequest)
    → Distinct d.device.sessions
    → has_device c d.opened ≡ false
    → (d' : Daemon) × (process_nq_connect d c (payload cmd) ≡ some d') × Connected d c cmd.target d'
unfolding process_nq_connect recv_payload
process_nq_connect-Connected d c cmd h e =
    let detached : Daemon = record d { attached = remove_connection c d.attached } in
    elim (Bool-cases (cmd.device_id == device_id_default)) [
      | inl i ↦ (
        connect_session detached c cmd.target,
        rw (e, i) refl,
        connect_session-Connected detached c cmd.target h,
      )
      | inr i ↦ (
        write_result c unknown_device detached,
        rw (e, i) refl,
        (AuthOnly-refl c cmd.target d.device.sessions, inr refl),
      )
    ]
