-- ===== src/Device/Cleanup/Dead.antt =====
-- Sessions whose task has ended: what the exit handler finds, and what stays so while it works.
use trustonic_tee_user_space.Prelude.{
  ℕ, zero, suc, ◌+◌, ◌≡◌, ◌≢◌, refl, Bool, true, false, List, [], ◌∷◌, none, arith, ◌||◌,
  Option-cases, inl, inr,
}
use trustonic_tee_user_space.NotificationQueue.{Notification, sid_mcp}
use trustonic_tee_user_space.TrustletSession.{TrustletSession, is_ta_dead, queue_notification}
use trustonic_tee_user_space.Device.{Device, Env, Exchange, cmd_close, sent, logged}
use trustonic_tee_user_space.Device.Irq.{
  get_trustlet_session, update_at, handle_notification, handle_all,
}
use trustonic_tee_user_space.Device.Mcp.{
  notify_session, wait_loop, wait_mcp_notification, msh_notify_and_wait,
}
use trustonic_tee_user_space.Device.Close.{send_session_close_cmd, close_session_internal}
use trustonic_tee_user_space.Device.TaExit.{first_dead}

unfoldable pub any_dead : List TrustletSession → Bool
any_dead [] = false
any_dead (s ∷ ss) = is_ta_dead s.session_state || any_dead ss

pub any_dead-first : (ss : List TrustletSession) → any_dead ss ≡ true → first_dead ss ≢ none
unfolding any_dead first_dead
any_dead-first [] h e = cc
any_dead-first (s ∷ ss) h e = ground (arith, any_dead-first ss)

pub none-any_dead : (ss : List TrustletSession) → first_dead ss ≡ none → any_dead ss ≡ false
unfolding any_dead first_dead
none-any_dead [] e = refl
none-any_dead (s ∷ ss) e = ground (arith, none-any_dead ss)

any_dead-queue :
    (a : ℕ) (n : Notification) (ss : List TrustletSession)
    → any_dead ss ≡ true
    → any_dead (update_at a (λ t. queue_notification t n) ss) ≡ true
unfolding any_dead update_at queue_notification
any_dead-queue a n [] h = h
any_dead-queue a n (s ∷ ss) h = ground (arith, any_dead-queue a n ss)

any_dead-notification :
    (d : Device) (n : Notification)
    → any_dead d.sessions ≡ true
    → any_dead (handle_notification d n).sessions ≡ true
unfolding handle_notification
any_dead-notification d n h = elim (Option-cases (get_trustlet_session d.sessions n.session_id)) [
  | inl e ↦ rw (e, handle_notification) h
  | inr (s, e) ↦
      rw (e, handle_notification) (ground (arith, any_dead-queue s.address n d.sessions h))
]

any_dead-all :
    (d : Device) (ns : List Notification)
    → any_dead d.sessions ≡ true
    → any_dead (handle_all d ns).sessions ≡ true
unfolding handle_all
any_dead-all d [] h = h
any_dead-all d (n ∷ ns) h = any_dead-all (handle_notification d n) ns (any_dead-notification d n h)

wait_loop-sessions :
    (tries i : ℕ) (x : Exchange) (d : Device) → (wait_loop tries i x d).1.sessions ≡ d.sessions
unfolding wait_loop
wait_loop-sessions zero i x d = refl
wait_loop-sessions (suc tries) i x d = ground (arith, wait_loop-sessions tries (i + 1) x d)

wait-sessions : (x : Exchange) (d : Device) → (wait_mcp_notification x d).1.sessions ≡ d.sessions
unfolding wait_mcp_notification
wait-sessions x d = ground (arith, wait_loop-sessions 5 0 x d)

pub any_dead-close :
    (env : Env) (d : Device) (s : TrustletSession)
    → any_dead d.sessions ≡ true
    → any_dead (close_session_internal env d s).1.sessions ≡ true
unfolding close_session_internal send_session_close_cmd msh_notify_and_wait notify_session
any_dead-close env d s h =
    let c = cmd_close s.session_id in
    let x = env.exchange d.log c in
    let told : Device = record (logged (notify_session d sid_mcp) (sent c)) {
      rsp = x.rsp;
      nq = x.nq;
    } in
    rw (wait-sessions x (handle_all told x.delivered)) (any_dead-all told x.delivered h)
