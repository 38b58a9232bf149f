-- ===== src/Device/Opening.antt =====
-- What opening a session adds to the device, on success and on every error.
use trustonic_tee_user_space.Prelude.{
  ℕ, ◌%◌, ◌^◌, ◌≡◌, ◌≢◌, refl, ap, ◌∙◌, false, not, List, [], ◌∷◌, ◌++◌, map, Option, none, some,
  arith, ◌==◌, ◌&&◌, ◌||◌, if◌then◌else◌, ltb, Option-cases, Bool-cases, ◌⊎◌, inl, inr,
}
use trustonic_tee_user_space.Status.{mc_drv_ok}
use trustonic_tee_user_space.NotificationQueue.{Notification}
use trustonic_tee_user_space.TrustletSession.{
  TrustletSession, ta_running, ta_dead, new, queue_notification, add_bulk_buff,
}
use trustonic_tee_user_space.TrustletSession.Lifecycle.{
  queue_all, queue_all-running, has_exit, up_to_exit,
}
use trustonic_tee_user_space.Device.{Device, Env, Event, LoadData, cmd_open}
use trustonic_tee_user_space.Device.Mcp.{mcp_command}
use trustonic_tee_user_space.Device.Open.{
  Tci, OpenPayload, prepare_tci, unlock_tci, add_tci, queue_pending, new_session, register_session,
  open_command, open_with, open_session,
}
use trustonic_tee_user_space.Device.Skeleton.{fixed, skeleton, mcp_command-Framed}

queue_pending-eq-queue_all :
    (s : TrustletSession) (ns : List Notification) → queue_pending s ns ≡ queue_all s ns
unfolding queue_pending queue_all
queue_pending-eq-queue_all s [] = refl
queue_pending-eq-queue_all s (n ∷ ns) = queue_pending-eq-queue_all (queue_notification s n) ns

pub map-snoc :
    (ss : List TrustletSession) (s : TrustletSession)
    → map fixed (ss ++ s ∷ []) ≡ map fixed ss ++ fixed s ∷ []
map-snoc [] s = refl
map-snoc (t ∷ ss) s = ap (λ r. fixed t ∷ r) (map-snoc ss s)

-- The level of a session for the service.
abbrev pub level : LoadData → ℕ
level l = if l.is_gpta then 1 else 0

-- What adding the TCI buffer leaves as the constructor made it.
add_tci-fresh :
    (env : Env) (d : Device) (connection : ℕ) (l : LoadData) (tci_handle tci_len : ℕ)
    → let s = add_tci l tci_handle tci_len (new_session env d connection l) in
      (s.session_state ≡ ta_running) × (s.notifications ≡ []) × (s.gp_level ≡ level l)
unfolding add_tci new_session add_bulk_buff new
add_tci-fresh env d connection l tci_handle tci_len = ground arith

fill :
    (s : TrustletSession) (gp : ℕ) (ns : List Notification)
    → s.notifications ≡ []
    → s.gp_level ≡ gp
    → record s {
      session_state = if has_exit s.gp_level ns then ta_dead else ta_running;
      notifications = s.notifications ++ up_to_exit s.gp_level ns;
    }
      ≡ record s {
        session_state = if has_exit gp ns then ta_dead else ta_running;
        notifications = up_to_exit gp ns;
      }
fill s gp ns e g = ground arith

-- A new session, with its TCI buffer, and what came meanwhile in its queue.
abbrev pub opened : Env → Device → ℕ → LoadData → ℕ → ℕ → TrustletSession
opened env d connection l tci_handle tci_len =
    let s = add_tci l tci_handle tci_len (new_session env d connection l) in
    record s {
      session_state = if has_exit (level l) d.notifications then ta_dead else ta_running;
      notifications = up_to_exit (level l) d.notifications;
    }

-- The new session as its owner and its client see it.
opened-identity :
    (env : Env) (d : Device) (connection : ℕ) (l : LoadData) (tci_handle tci_len : ℕ)
    → let s = opened env d connection l tci_handle tci_len in
      (s.device_connection ≡ some connection)
      × (s.notification_connection ≡ none)
      × (s.gp_level ≡ level l)
      × (s.address ≡ env.new_address d.log)
      × ((register_session env d connection l tci_handle tci_len).0 ≡ record {
        session_id = s.session_id;
        device_session_id = s.address % 2 ^ 32;
        session_magic = s.session_magic;
      })
unfolding register_session add_tci new_session add_bulk_buff new
opened-identity env d connection l tci_handle tci_len = ground arith

-- Every notification that waits for an unknown session goes to the session that is registered next,
-- whatever its id, up to the first that says that a task has ended; that one marks a GP session as
-- dead.
pub register_session-takes :
    (env : Env) (d : Device) (connection : ℕ) (l : LoadData) (tci_handle tci_len : ℕ)
    → let d' = (register_session env d connection l tci_handle tci_len).1 in
      (d'.sessions ≡ d.sessions ++ opened env d connection l tci_handle tci_len ∷ [])
      × (d'.notifications ≡ [])
unfolding register_session
register_session-takes env d connection l tci_handle tci_len =
    let s = add_tci l tci_handle tci_len (new_session env d connection l) in
    let (running, none_yet, gp) = add_tci-fresh env d connection l tci_handle tci_len in
    let full = queue_all-running s d.notifications running in
    (
      ap (λ t. d.sessions ++ t ∷ [])
          (queue_pending-eq-queue_all s d.notifications
            ∙ full
            ∙ fill s (level l) d.notifications none_yet gp),
      refl,
    )

-- What a call that opens a session has done, by its code.
abbrev pub Outcome : Env → ℕ → LoadData → Device → ℕ × Option OpenPayload × Device → Type 0
Outcome env connection l d (ret, payload, d') =
    ((ret ≡ mc_drv_ok)
      × ((s : TrustletSession) × (skeleton d' ≡ skeleton d ++ fixed s ∷ [])
          × (s.device_connection ≡ some connection)
          × (s.notification_connection ≡ none)
          × (s.gp_level ≡ level l)
          × ((log : List Event) × (s.address ≡ env.new_address log))
          × (payload
              ≡ some (record {
                session_id = s.session_id;
                device_session_id = s.address % 2 ^ 32;
                session_magic = s.session_magic;
              }))))
    ⊎ ((ret ≢ mc_drv_ok) × (payload ≡ none) × (skeleton d' ≡ skeleton d))

eq_false : (ret : ℕ) → (ret == mc_drv_ok) ≡ false → ret ≢ mc_drv_ok
eq_false ret e = ground arith

unlock_tci-sessions :
    (tci_handle tci_len : ℕ) (d : Device) → (unlock_tci tci_handle tci_len d).sessions ≡ d.sessions
unfolding unlock_tci
unlock_tci-sessions tci_handle tci_len d = ground arith

open_with-Outcome :
    (env : Env) (d : Device) (t : Tci) (connection : ℕ) (l : LoadData) (tci_handle tci_len : ℕ)
    → Outcome env connection l d (open_with env d t connection l tci_handle tci_len)
unfolding open_with unlock_tci
open_with-Outcome env d t connection l tci_handle tci_len =
    let start : Device = record d { notifications = [] } in
    let (ret, d') = mcp_command env (cmd_open (open_command t l tci_len)) start in
    let same : skeleton d' ≡ skeleton d =
      (mcp_command-Framed env (cmd_open (open_command t l tci_len)) start).same_sessions in
    let s = opened env d' connection l tci_handle tci_len in
    let (owner, no_socket, gp, at, payload) =
      opened-identity env d' connection l tci_handle tci_len in
    let added = (register_session-takes env d' connection l tci_handle tci_len).0 in
    elim (Bool-cases (ret == mc_drv_ok)) [
      | inl e ↦
          rw (e, open_with)
            (inl (
              refl,
              (
                s,
                ap (map fixed) added ∙ map-snoc d'.sessions s ∙ ap (λ ss. ss ++ fixed s ∷ []) same,
                owner,
                no_socket,
                gp,
                (d'.log, at),
                ap some payload,
              ),
            ))
      | inr e ↦
          rw (e, open_with)
            (inr (
              eq_false ret e,
              refl,
              ap (map fixed) (unlock_tci-sessions tci_handle tci_len d') ∙ same,
            ))
    ]

Outcome-from :
    (env : Env) (connection : ℕ) (l : LoadData) (d d' : Device)
    (r : ℕ × Option OpenPayload × Device)
    → skeleton d' ≡ skeleton d
    → Outcome env connection l d' r
    → Outcome env connection l d r
Outcome-from env connection l d d' (ret, payload, e) same
      (inl (ok, (s, added, owner, no_socket, gp, at, ids))) =
    inl (ok, (s, added ∙ ap (λ ss. ss ++ fixed s ∷ []) same, owner, no_socket, gp, at, ids))
Outcome-from env connection l d d' (ret, payload, e) same (inr (bad, gone, kept)) =
    inr (bad, gone, kept ∙ same)

prepare_tci-sessions :
    (env : Env) (d : Device) (fd tci_handle tci_len tci_offset : ℕ)
    → (prepare_tci env d fd tci_handle tci_len tci_offset).1.sessions ≡ d.sessions
unfolding prepare_tci
prepare_tci-sessions env d fd tci_handle tci_len tci_offset = ground arith

-- Success adds exactly one session, at the end, that belongs to the caller and is the one that the
-- response describes, at an address that the allocator gave; any error adds none and returns no payload.
pub open_session-Outcome :
    (env : Env) (d : Device) (connection fd : ℕ) (l : LoadData) (tci_handle tci_len tci_offset : ℕ)
    → Outcome env connection l d (open_session env d connection fd l tci_handle tci_len tci_offset)
unfolding open_session
open_session-Outcome env d connection fd l tci_handle tci_len tci_offset =
    let (found, d') = prepare_tci env d fd tci_handle tci_len tci_offset in
    let same : skeleton d' ≡ skeleton d =
      ap (map fixed) (prepare_tci-sessions env d fd tci_handle tci_len tci_offset) in
    elim (Option-cases found) [
      | inl e ↦ rw (e, open_session) (inr (omega arith, refl, same))
      | inr (t, e) ↦
          elim (Bool-cases (not (tci_handle == 0) && tci_len == 0 || ltb t.len tci_len)) [
            | inl long ↦ rw (e, long, open_session) (inr (omega arith, refl, same))
            | inr fits ↦
                rw (e, fits, open_session)
                  (Outcome-from env connection l d d'
                    (open_with env d' t connection l tci_handle tci_len) same
                    (open_with-Outcome env d' t connection l tci_handle tci_len))
          ]
    ]
