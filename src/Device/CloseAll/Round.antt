-- ===== src/Device/CloseAll/Round.antt =====
-- One round of the loop leaves fewer sessions of the connection, whatever the secure world answers.
use trustonic_tee_user_space.Prelude.{
  ℕ, ◌<◌, ◌≡◌, sym, ap, subst, List, ◌∷◌, arith, ◌==◌, ◌&&◌, Option-cases, Bool-cases, inl, inr,
}
use trustonic_tee_user_space.Status.{mcp_ok, make_mcp_error, mcp_close_task_failed}
use trustonic_tee_user_space.TrustletSession.{TrustletSession, is_ta_dead}
use trustonic_tee_user_space.Device.{Device, Env, Event, notification_socket_closed}
use trustonic_tee_user_space.Device.Irq.{update_at}
use trustonic_tee_user_space.Device.Sessions.{deref, free_session}
use trustonic_tee_user_space.Device.Close.{
  close_session_internal, detached, disconnect, finish_close, close_found,
}
use trustonic_tee_user_space.Device.Skeleton.{Framed, close_session_internal-Framed}
use trustonic_tee_user_space.Device.Closing.{free_session-sessions}
use trustonic_tee_user_space.Device.CloseAll.Owned.{
  Closable, count_owned, Closable-fixed, Closable-unfixed, count_owned-fixed, Closable-remove_at,
  count_owned-remove_le,
}

-- Along one round, from `n` owned sessions at the start.
pub record Shrunk (c n : ℕ) (d : Device) : Type 0 where
  pub closable : Closable c d.sessions
  pub fewer : count_owned c d.sessions < n

module _ {c n : ℕ} where
  Shrunk-Framed : {d d' : Device} → Framed d d' → Shrunk c n d → Shrunk c n d'
  Shrunk-Framed {d} {d'} f h = record {
    closable =
        Closable-unfixed c d'.sessions
          (subst (Closable c) (sym f.same_sessions) (Closable-fixed c d.sessions h.closable));
    fewer = omega (
      arith,
      count_owned-fixed c d.sessions,
      count_owned-fixed c d'.sessions,
      ap (count_owned c) f.same_sessions,
      h.fewer,
    );
  }

  Shrunk-free :
      (d : Device) (s : TrustletSession)
      → Shrunk c n d
      → Shrunk c n (free_session d (deref d.sessions s))
  Shrunk-free d s h =
      let gone = free_session-sessions d s in
      record {
        closable =
            subst (Closable c) (sym gone) (Closable-remove_at c s.address d.sessions h.closable);
        fewer =
            omega (
              arith,
              ap (count_owned c) gone,
              count_owned-remove_le c s.address d.sessions,
              h.fewer,
            );
      }

  Shrunk-finish :
      (s : TrustletSession) (ret : ℕ) (d : Device)
      → Shrunk c n d
      → Shrunk c n (finish_close s (ret, d)).1
  unfolding finish_close
  Shrunk-finish s ret d h = elim (Bool-cases (ret == mcp_ok)) [
    | inl e ↦ rw e (Shrunk-free d s h)
    | inr e ↦ rw e h
  ]

  pub Shrunk-close_found :
      (env : Env) (d : Device) (s : TrustletSession)
      → Shrunk c n d
      → Shrunk c n (close_found env d s).1
  unfolding close_found
  Shrunk-close_found env d s h =
      let (ret, d') = close_session_internal env d s in
      let h' : Shrunk c n d' = Shrunk-Framed (close_session_internal-Framed env d s) h in
      elim (Bool-cases (s.gp_level == 1 && ret == make_mcp_error mcp_close_task_failed)) [
        | inr e ↦ rw e (Shrunk-finish s ret d' h')
        | inl e ↦ rw e (elim (Bool-cases (is_ta_dead (deref d'.sessions s).session_state)) [
          | inl dead ↦ rw dead (
              Shrunk-finish s (close_session_internal env d' s).0
                (close_session_internal env d' s).1
                (Shrunk-Framed (close_session_internal-Framed env d' s) h'))
          | inr alive ↦ rw alive h'
        ])
      ]

  Shrunk-log : (d : Device) (l : List Event) → Shrunk c n d → Shrunk c n (record d { log = l })
  Shrunk-log d l h = record { closable = h.closable; fewer = h.fewer }

  pub Shrunk-disconnect :
      (d : Device) (s : TrustletSession)
      → s.gp_level ≡ 1
      → Shrunk c n (record d { sessions = update_at s.address detached d.sessions })
      → Shrunk c n (disconnect d s)
  unfolding disconnect
  Shrunk-disconnect d s gp h = elim (Option-cases s.notification_connection) [
    | inl k ↦ rw (gp, k, disconnect) h
    | inr (k, e) ↦ rw (gp, e, disconnect) (Shrunk-log _ (notification_socket_closed k ∷ d.log) h)
  ]
