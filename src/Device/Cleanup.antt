-- ===== src/Device/Cleanup.antt =====
-- The exit handler's loop over sessions whose task has ended: when it ends, and when it does not.
pub mod Dead
use trustonic_tee_user_space.Prelude.{
  ℕ, zero, suc, ◌+◌, ◌≤◌, ◌<◌, ◌≡◌, ◌≢◌, refl, sym, ap, subst, ◌∙◌, Bool, true, false, List, [],
  ◌∷◌, map, Option, none, some, arith, ◌==◌, ◌||◌, if◌then◌else◌, Option-cases, Bool-cases, inl,
  inr, length, length-map,
}
use trustonic_tee_user_space.Status.{mc_drv_ok, mcp_ok, make_mcp_error, daemon_mci_error}
use trustonic_tee_user_space.Status.Codes.{make_mcp_error-ne-ok}
use trustonic_tee_user_space.NotificationQueue.{Notification, sid_mcp}
use trustonic_tee_user_space.TrustletSession.{TrustletSession, is_ta_dead, queue_notification}
use trustonic_tee_user_space.Device.{
  Device, Env, Event, Exchange, Command, cmd_close, response_id, sent, logged,
}
use trustonic_tee_user_space.Device.Irq.{
  get_trustlet_session, update_at, handle_notification, handle_all,
}
use trustonic_tee_user_space.Device.Mcp.{
  notify_session, wait_loop, wait_mcp_notification, msh_notify_and_wait, response_code,
}
use trustonic_tee_user_space.Device.Sessions.{deref, remove_at, free_session}
use trustonic_tee_user_space.Device.Close.{send_session_close_cmd, close_session_internal}
use trustonic_tee_user_space.Device.TaExit.{first_dead, clean_up, handle_ta_exit}
use trustonic_tee_user_space.Device.Skeleton.{
  fixed, skeleton, Framed, close_session_internal-Framed, handle_all-Framed,
}
use trustonic_tee_user_space.Device.Faults.{
  Answered, close_session_internal-fault, msh_notify_and_wait-Answered,
}
use trustonic_tee_user_space.Device.Closing.{free_session-sessions, free_session-fault}
use trustonic_tee_user_space.Device.Replies.{exchange-rsp}
use Dead.{any_dead, any_dead-first, none-any_dead, any_dead-close}

-- Once a fault is recorded, the handler never ends while there is a session whose task has ended:
-- the failed close leaves it in the list, and the loop finds it again.
pub handle_ta_exit_hangs :
    (fuel : ℕ) (env : Env) (d : Device)
    → d.mc_fault ≡ true
    → any_dead d.sessions ≡ true
    → handle_ta_exit fuel env d ≡ none
unfolding handle_ta_exit
handle_ta_exit_hangs zero env d f h = refl
handle_ta_exit_hangs (suc fuel) env d f h = elim (Option-cases (first_dead d.sessions)) [
  | inl e ↦ absurd (any_dead-first d.sessions h e)
  | inr (s, e) ↦
      let (failed, f') = close_session_internal-fault env d s f in
      let d' = (close_session_internal env d s).1 in
      let not_ok : (make_mcp_error daemon_mci_error == mc_drv_ok) ≡ false =
        ground (arith, make_mcp_error-ne-ok daemon_mci_error) in
      rw (e, handle_ta_exit, failed, not_ok)
        (handle_ta_exit_hangs fuel env d' f' (any_dead-close env d s h))
]

-- A secure world that answers every close command in time and confirms it.
pub record Confirms (env : Env) : Type 0 where
  pub answers : (l : List Event) (id : ℕ) → Answered 5 0 (env.exchange l (cmd_close id))
  pub no_exit : (l : List Event) (id : ℕ) → (env.exchange l (cmd_close id)).thread_exiting ≡ false
  pub right_id :
      (l : List Event) (id : ℕ)
      → (env.exchange l (cmd_close id)).rsp.rsp_id ≡ response_id (cmd_close id)
  pub done : (l : List Event) (id : ℕ) → (env.exchange l (cmd_close id)).rsp.result ≡ mcp_ok

close_confirmed :
    (env : Env) (d : Device) (s : TrustletSession)
    → Confirms env
    → d.mc_fault ≡ false
    → ((close_session_internal env d s).0 ≡ mcp_ok)
      × ((close_session_internal env d s).1.mc_fault ≡ false)
unfolding close_session_internal send_session_close_cmd response_code
close_confirmed env d s k f =
    let c = cmd_close s.session_id in
    let answer = k.answers d.log s.session_id in
    let open_door = k.no_exit d.log s.session_id in
    let (got, f') = msh_notify_and_wait-Answered env c d f answer open_door in
    let rsp = exchange-rsp env c d in
    (ground (arith, got, rsp, k.right_id d.log s.session_id, k.done d.log s.session_id), f')

has_address : ℕ → List TrustletSession → Bool
has_address a [] = false
has_address a (s ∷ ss) = s.address == a || has_address a ss

has_address-fixed :
    (a : ℕ) (ss : List TrustletSession) → has_address a (map fixed ss) ≡ has_address a ss
unfolding has_address
has_address-fixed a [] = refl
has_address-fixed a (s ∷ ss) = rw (has_address-fixed a ss)

has_address-first :
    (ss : List TrustletSession) (s : TrustletSession)
    → first_dead ss ≡ some s
    → has_address s.address ss ≡ true
unfolding has_address first_dead
has_address-first [] s e = cc
has_address-first (t ∷ ss) s e = ground (arith, has_address-first ss s)

length-remove_le : (a : ℕ) (ss : List TrustletSession) → length (remove_at a ss) ≤ length ss
unfolding remove_at
length-remove_le a [] = omega arith
length-remove_le a (s ∷ ss) = ground (arith, length-remove_le a ss)

length-remove_lt :
    (a : ℕ) (ss : List TrustletSession)
    → has_address a ss ≡ true
    → length (remove_at a ss) < length ss
unfolding remove_at has_address
length-remove_lt a [] h = cc
length-remove_lt a (s ∷ ss) h = ground (arith, length-remove_lt a ss, length-remove_le a ss)

clean_up-shorter :
    (env : Env) (d : Device) (s : TrustletSession)
    → Confirms env
    → d.mc_fault ≡ false
    → first_dead d.sessions ≡ some s
    → ((clean_up env d s).mc_fault ≡ false)
      × (length (clean_up env d s).sessions < length d.sessions)
unfolding clean_up
clean_up-shorter env d s k f e =
    let (confirmed, f') = close_confirmed env d s k f in
    let d' = (close_session_internal env d s).1 in
    let same = (close_session_internal-Framed env d s).same_sessions in
    let there : has_address s.address d'.sessions ≡ true =
      sym (has_address-fixed s.address d'.sessions)
      ∙ ap (has_address s.address) same
      ∙ has_address-fixed s.address d.sessions
      ∙ has_address-first d.sessions s e in
    rw (confirmed, clean_up)
      (
        free_session-fault d' s ∙ f',
        omega (
          arith,
          ap length (free_session-sessions d' s),
          length-remove_lt s.address d'.sessions there,
          length-map d'.sessions fixed,
          length-map d.sessions fixed,
          ap length same,
        ),
      )

-- If the secure world confirms every close in time and no fault is recorded, the handler ends after
-- at most as many rounds as there are sessions, and no session whose task has ended is left.
pub handle_ta_exit_ends :
    (fuel : ℕ) (env : Env) (d : Device)
    → Confirms env
    → d.mc_fault ≡ false
    → length d.sessions < fuel
    → (d' : Device) × (handle_ta_exit fuel env d ≡ some d') × (any_dead d'.sessions ≡ false)
unfolding handle_ta_exit
handle_ta_exit_ends zero env d k f h = absurd (omega arith)
handle_ta_exit_ends (suc fuel) env d k f h = elim (Option-cases (first_dead d.sessions)) [
  | inl e ↦ (d, rw (e, handle_ta_exit), none-any_dead d.sessions e)
  | inr (s, e) ↦
      let (f', shorter) = clean_up-shorter env d s k f e in
      let (d', ends, clean) = handle_ta_exit_ends fuel env (clean_up env d s) k f' (omega arith) in
      (d', rw (e, handle_ta_exit) ends, clean)
]
