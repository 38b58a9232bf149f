-- ===== src/Device/Skeleton.antt =====
-- What the IRQ thread and the secure world leave alone while a command is under way: a session's
-- identity, owner, sockets, level and buffers, and what the device knows of the version.
use trustonic_tee_user_space.Prelude.{
  ℕ, zero, suc, ◌+◌, ◌≡◌, refl, ◌∙◌, List, [], ◌∷◌, map, arith, Option-cases, inl, inr,
}
use trustonic_tee_user_space.NotificationQueue.{Notification, sid_mcp}
use trustonic_tee_user_space.TrustletSession.{TrustletSession, ta_running, queue_notification}
use trustonic_tee_user_space.Device.{Device, Env, Exchange, Command, sent, logged}
use trustonic_tee_user_space.Device.Irq.{
  get_trustlet_session, update_at, handle_notification, handle_all,
}
use trustonic_tee_user_space.Device.Mcp.{
  notify_session, wait_loop, wait_mcp_notification, msh_notify_and_wait, mcp_command,
}
use trustonic_tee_user_space.Device.Close.{send_session_close_cmd, close_session_internal}

-- A session without what notifications change.
abbrev pub fixed : TrustletSession → TrustletSession
fixed s = record s { session_state = ta_running; notifications = [] }

abbrev pub skeleton : Device → List TrustletSession
skeleton d = map fixed d.sessions

-- What stays the same.
pub record Framed (d d' : Device) : Type 0 where
  pub same_sessions : skeleton d' ≡ skeleton d
  pub same_version : d'.mc_version_info ≡ d.mc_version_info
  pub same_reused : d'.mci_reused ≡ d.mci_reused

pub Framed-refl : (d : Device) → Framed d d
Framed-refl d = record { same_sessions = refl; same_version = refl; same_reused = refl }

pub Framed-trans : {d e f : Device} → Framed d e → Framed e f → Framed d f
Framed-trans p q = record {
  same_sessions = q.same_sessions ∙ p.same_sessions;
  same_version = q.same_version ∙ p.same_version;
  same_reused = q.same_reused ∙ p.same_reused;
}

fixed-queue : (s : TrustletSession) (n : Notification) → fixed (queue_notification s n) ≡ fixed s
unfolding queue_notification
fixed-queue s n = ground arith

pub fixed-update_at :
    (a : ℕ) (f : TrustletSession → TrustletSession) (ss : List TrustletSession)
    → ((s : TrustletSession) → fixed (f s) ≡ fixed s)
    → map fixed (update_at a f ss) ≡ map fixed ss
unfolding update_at
fixed-update_at a f [] h = refl
fixed-update_at a f (s ∷ ss) h = ground (arith, h s, fixed-update_at a f ss h)

-- Queueing for one session changes no skeleton.
queued :
    (d : Device) (n : Notification) (s : TrustletSession)
    → map fixed (update_at s.address (λ t. queue_notification t n) d.sessions)
      ≡ map fixed d.sessions
queued d n s = fixed-update_at s.address _ d.sessions (λ t. fixed-queue t n)

handle_notification-Framed : (d : Device) (n : Notification) → Framed d (handle_notification d n)
unfolding handle_notification
handle_notification-Framed d n =
    elim (Option-cases (get_trustlet_session d.sessions n.session_id)) [
      | inl e ↦
          rw (e, handle_notification)
            (record { same_sessions = refl; same_version = refl; same_reused = refl })
      | inr (s, e) ↦ rw (e, handle_notification) (ground (arith, queued d n s))
    ]

pub handle_all-Framed : (d : Device) (ns : List Notification) → Framed d (handle_all d ns)
unfolding handle_all
handle_all-Framed d [] = Framed-refl d
handle_all-Framed d (n ∷ ns) =
    Framed-trans (handle_notification-Framed d n) (handle_all-Framed (handle_notification d n) ns)

wait_loop-Framed : (tries i : ℕ) (x : Exchange) (d : Device) → Framed d (wait_loop tries i x d).1
unfolding wait_loop
wait_loop-Framed zero i x d = record {
  same_sessions = refl;
  same_version = refl;
  same_reused = refl;
}
wait_loop-Framed (suc tries) i x d = ground (arith, wait_loop-Framed tries (i + 1) x d)

pub wait_mcp_notification-Framed :
    (x : Exchange) (d : Device) → Framed d (wait_mcp_notification x d).1
unfolding wait_mcp_notification
wait_mcp_notification-Framed x d = ground (arith, wait_loop-Framed 5 0 x d)

pub msh_notify_and_wait-Framed :
    (env : Env) (c : Command) (d : Device) → Framed d (msh_notify_and_wait env c d).1
unfolding msh_notify_and_wait notify_session
msh_notify_and_wait-Framed env c d =
    let x = env.exchange d.log c in
    let told = logged (notify_session d sid_mcp) (sent c) in
    let answered : Device = record told { rsp = x.rsp; nq = x.nq } in
    Framed-trans
      (Framed-trans (record { same_sessions = refl; same_version = refl; same_reused = refl })
        (handle_all-Framed answered x.delivered))
      (wait_mcp_notification-Framed x (handle_all answered x.delivered))

pub mcp_command-Framed : (env : Env) (c : Command) (d : Device) → Framed d (mcp_command env c d).1
unfolding mcp_command
mcp_command-Framed env c d = msh_notify_and_wait-Framed env c d

pub close_session_internal-Framed :
    (env : Env) (d : Device) (s : TrustletSession) → Framed d (close_session_internal env d s).1
unfolding close_session_internal send_session_close_cmd
close_session_internal-Framed env d s = msh_notify_and_wait-Framed env _ d
