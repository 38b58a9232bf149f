-- ===== src/Device/Closing.antt =====
-- What closing a session does to the list of sessions and to the locked buffers.
use trustonic_tee_user_space.Prelude.{
  ℕ, zero, suc, ◌≡◌, refl, sym, ap, subst, ◌∙◌, false, List, [], ◌∷◌, map, arith, ◌==◌, ◌&&◌,
  Option-cases, Bool-cases, inl, inr, length,
}
use trustonic_tee_user_space.Status.{mcp_ok, make_mcp_error, mcp_close_task_failed}
use trustonic_tee_user_space.OrdMap.{OrdMap, erase}
use trustonic_tee_user_space.TrustletSession.{TrustletSession, Wsm, is_ta_dead, pop_bulk_buff}
use trustonic_tee_user_space.TrustletSession.Buffers.{Keyed}
use trustonic_tee_user_space.Device.{
  Device, Env, Event, unlocked, notification_socket_closed, logged,
}
use trustonic_tee_user_space.Device.Irq.{update_at}
use trustonic_tee_user_space.Device.Sessions.{
  find_session, deref, remove_at, unlock_buffers, close_socket, free_session,
}
use trustonic_tee_user_space.Device.Close.{
  close_session_internal, detached, disconnect, finish_close, close_found, close_session,
}
use trustonic_tee_user_space.Device.Skeleton.{
  fixed, skeleton, Framed, close_session_internal-Framed,
}
use trustonic_tee_user_space.Device.Ownership.{
  Distinct, NotOther, is_other, others, find_session-NotOther, Distinct-same, NotOther-same,
  others-update_at, others-remove_at, Distinct-update_at, Distinct-remove_at, NotOther-update_at,
  NotOther-remove_at,
}

-- The events of unlocking a session's buffers, in the order of their handles, newest first.
pub unlock_log : OrdMap Wsm → List Event → List Event
unlock_log [] l = l
unlock_log ((k, w) ∷ m) l = unlock_log m (unlocked k ∷ l)

-- If each buffer of a session stands under its own handle, the loop of freeSession ends after as
-- many rounds as there are buffers: each buffer is unlocked once, in the order of the handles, and
-- none is left.
pub unlock_buffers_lem :
    (m : OrdMap Wsm) (s : TrustletSession) (d : Device)
    → s.buffers ≡ m
    → Keyed m
    → unlock_buffers (length m) s d
      ≡ (record s { buffers = [] }, record d { log = unlock_log m d.log })
unfolding unlock_buffers unlock_log pop_bulk_buff erase
unlock_buffers_lem [] s d e h = ground arith
unlock_buffers_lem ((k, w) ∷ m) s d e h =
    ground (
      arith,
      unlock_buffers_lem m (record s { buffers = m }) (logged d (unlocked w.handle)) refl h.1,
    )

unlock_buffers-sessions :
    (fuel : ℕ) (s : TrustletSession) (d : Device)
    → ((unlock_buffers fuel s d).1.sessions ≡ d.sessions)
      × ((unlock_buffers fuel s d).1.mc_fault ≡ d.mc_fault)
unfolding unlock_buffers
unlock_buffers-sessions zero s d = (refl, refl)
unlock_buffers-sessions (suc fuel) s d =
    let (s', popped) = pop_bulk_buff s in
    elim (Option-cases popped) [
      | inl e ↦ ground arith
      | inr (w, e) ↦ ground (arith, unlock_buffers-sessions fuel s' (logged d (unlocked w.handle)))
    ]

deref-address : (ss : List TrustletSession) (s : TrustletSession) → (deref ss s).address ≡ s.address
unfolding deref
deref-address [] s = refl
deref-address (t ∷ ts) s = ground (arith, deref-address ts s)

close_socket-sessions :
    (s : TrustletSession) (d : Device)
    → ((close_socket s d).sessions ≡ d.sessions) × ((close_socket s d).mc_fault ≡ d.mc_fault)
unfolding close_socket
close_socket-sessions s d = elim (Option-cases s.notification_connection) [
  | inl e ↦ rw e (refl, refl)
  | inr (c, e) ↦ rw e (refl, refl)
]

pub free_session-sessions :
    (d : Device) (s : TrustletSession)
    → (free_session d (deref d.sessions s)).sessions ≡ remove_at s.address d.sessions
unfolding free_session
free_session-sessions d s =
    let t = deref d.sessions s in
    let (t', d') = unlock_buffers (length t.buffers) t d in
    (close_socket-sessions t' (record d' { sessions = remove_at t.address d'.sessions })).0
    ∙ rw ((unlock_buffers-sessions (length t.buffers) t d).0, deref-address d.sessions s)

pub free_session-fault :
    (d : Device) (s : TrustletSession) → (free_session d (deref d.sessions s)).mc_fault ≡ d.mc_fault
unfolding free_session
free_session-fault d s =
    let t = deref d.sessions s in
    let (t', d') = unlock_buffers (length t.buffers) t d in
    (close_socket-sessions t' (record d' { sessions = remove_at t.address d'.sessions })).1
    ∙ (unlock_buffers-sessions (length t.buffers) t d).1

-- What holds along a call of the connection `c` on the session at `a`, from the device `start` on.
pub record Isolated (c a : ℕ) (start d : Device) : Type 0 where
  pub distinct : Distinct d.sessions
  pub own : NotOther c a d.sessions
  pub untouched : others c (skeleton d) ≡ others c (skeleton start)

module _ {c a : ℕ} {start : Device} where
  pub Isolated-Framed : {d d' : Device} → Framed d d' → Isolated c a start d → Isolated c a start d'
  Isolated-Framed {d} {d'} f h = record {
    distinct = Distinct-same d.sessions d'.sessions f.same_sessions h.distinct;
    own = NotOther-same d.sessions d'.sessions f.same_sessions c a h.own;
    untouched = ap (others c) f.same_sessions ∙ h.untouched;
  }

  pub Isolated-update :
      (d : Device) (f : TrustletSession → TrustletSession)
      → ((s : TrustletSession) → (f s).address ≡ s.address)
      → ((s : TrustletSession) → is_other c s ≡ false → is_other c (f s) ≡ false)
      → Isolated c a start d
      → Isolated c a start (record d { sessions = update_at a f d.sessions })
  Isolated-update d f same keep h = record {
    distinct = Distinct-update_at a f d.sessions same h.distinct;
    own = NotOther-update_at c a f d.sessions same keep h.own;
    untouched = others-update_at c a f d.sessions keep h.own ∙ h.untouched;
  }

  Isolated-free :
      (d : Device) (s : TrustletSession)
      → s.address ≡ a
      → Isolated c a start d
      → Isolated c a start (free_session d (deref d.sessions s))
  Isolated-free d s here h =
      let gone : (free_session d (deref d.sessions s)).sessions ≡ remove_at a d.sessions =
        free_session-sessions d s ∙ ap (λ (x : ℕ). remove_at x d.sessions) here in
      record {
        distinct = subst Distinct (sym gone) (Distinct-remove_at a d.sessions h.distinct);
        own = subst (NotOther c a) (sym gone) (NotOther-remove_at c a a d.sessions h.own);
        untouched =
            ap (λ ss. others c (map fixed ss)) gone
            ∙ others-remove_at c a d.sessions h.own
            ∙ h.untouched;
      }

  Isolated-finish :
      (s : TrustletSession) (ret : ℕ) (d : Device)
      → s.address ≡ a
      → Isolated c a start d
      → Isolated c a start (finish_close s (ret, d)).1
  unfolding finish_close
  Isolated-finish s ret d here h = elim (Bool-cases (ret == mcp_ok)) [
    | inl e ↦ rw e (Isolated-free d s here h)
    | inr e ↦ rw e h
  ]

  Isolated-close_found :
      (env : Env) (d : Device) (s : TrustletSession)
      → s.address ≡ a
      → Isolated c a start d
      → Isolated c a start (close_found env d s).1
  unfolding close_found
  Isolated-close_found env d s here h =
      let (ret, d') = close_session_internal env d s in
      let h' : Isolated c a start d' = Isolated-Framed (close_session_internal-Framed env d s) h in
      elim (Bool-cases (s.gp_level == 1 && ret == make_mcp_error mcp_close_task_failed)) [
        | inr e ↦ rw e (Isolated-finish s ret d' here h')
        | inl e ↦ rw e (elim (Bool-cases (is_ta_dead (deref d'.sessions s).session_state)) [
          | inl dead ↦ rw dead (
              Isolated-finish s (close_session_internal env d' s).0
                (close_session_internal env d' s).1 here
                (Isolated-Framed (close_session_internal-Framed env d' s) h'))
          | inr alive ↦ rw alive h'
        ])
      ]

  Isolated-log :
      (d : Device) (l : List Event)
      → Isolated c a start d
      → Isolated c a start (record d { log = l })
  Isolated-log d l h = record { distinct = h.distinct; own = h.own; untouched = h.untouched }

  Isolated-disconnect :
      (d : Device) (s : TrustletSession)
      → s.address ≡ a
      → Isolated c a start d
      → Isolated c a start (disconnect d s)
  unfolding disconnect
  Isolated-disconnect d s here h =
      let freed : Isolated c a start
          (record d { sessions = update_at s.address detached d.sessions }) =
        subst (λ x. Isolated c a start (record d { sessions = update_at x detached d.sessions }))
          (sym here) (Isolated-update d detached (λ _. refl) (λ _ _. refl) h) in
      elim (Bool-cases (s.gp_level == 1)) [
        | inr e ↦ rw (e, disconnect) h
        | inl e ↦ elim (Option-cases s.notification_connection) [
          | inl n ↦ rw (e, n, disconnect) freed
          | inr (k, n) ↦
              rw (e, n, disconnect) (Isolated-log _ (notification_socket_closed k ∷ d.log) freed)
        ]
      ]

-- If no two sessions share an address, a client that closes a session, whatever the secure world
-- answers, leaves the sessions of every other client in place, with their sockets, levels and
-- buffers; addresses stay distinct.
pub close_session-others :
    (env : Env) (d : Device) (c session_id : ℕ)
    → Distinct d.sessions
    → (others c (skeleton (close_session env d c session_id).1) ≡ others c (skeleton d))
      × Distinct (close_session env d c session_id).1.sessions
unfolding close_session
close_session-others env d c session_id h = elim (Option-cases (find_session d c session_id)) [
  | inl e ↦ rw (e, close_session) (refl, h)
  | inr (s, e) ↦
      let start : Isolated c s.address d d = record {
        distinct = h;
        own = find_session-NotOther d c session_id s h e;
        untouched = refl;
      } in
      let done =
        Isolated-close_found env (disconnect d s) s refl (Isolated-disconnect d s refl start) in
      rw (e, close_session) (done.untouched, done.distinct)
]
