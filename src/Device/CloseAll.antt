-- ===== src/Device/CloseAll.antt =====
-- The loop of MobiCoreDevice::close over a connection's sessions: when it ends, and when it does not.
pub mod Owned
mod Round
use trustonic_tee_user_space.Prelude.{
  ℕ, zero, suc, ◌<◌, ◌≡◌, ◌≢◌, refl, sym, ap, subst, ◌∙◌, Bool, true, false, List, [], ◌∷◌, map,
  Option, none, some, arith, ◌==◌, if◌then◌else◌, Option-cases, Bool-cases, inl, inr,
}
use trustonic_tee_user_space.Status.{mcp_ok, make_mcp_error, daemon_mci_error}
use trustonic_tee_user_space.Status.Codes.{make_mcp_error-ne-ok}
use trustonic_tee_user_space.TrustletSession.{TrustletSession}
use trustonic_tee_user_space.Device.{Device, Env}
use trustonic_tee_user_space.Device.Irq.{get_trustlet_session, update_at}
use trustonic_tee_user_space.Device.Sessions.{owns, find_session}
use trustonic_tee_user_space.Device.Close.{
  close_session_internal, detached, disconnect, finish_close, close_found, close_session,
  last_owned, close,
}
use trustonic_tee_user_space.Device.Skeleton.{
  fixed, skeleton, Framed, Framed-refl, close_session_internal-Framed,
}
use trustonic_tee_user_space.Device.Ownership.{Distinct, others}
use trustonic_tee_user_space.Device.Faults.{close_session_internal-fault}
use trustonic_tee_user_space.Device.Closing.{close_session-others}
use Owned.{
  Closable, count_owned, Closable-update_at, count_owned-detached, count_owned-fixed,
  last_owned-found, last_owned-none,
}
use Round.{Shrunk, Shrunk-close_found, Shrunk-disconnect}

close_session-Shrunk :
    (env : Env) (d : Device) (c : ℕ) (s : TrustletSession)
    → Closable c d.sessions
    → last_owned c d.sessions ≡ some s
    → Shrunk c (count_owned c d.sessions) (close_session env d c s.session_id).1
unfolding close_session find_session
close_session-Shrunk env d c s h e =
    let (found, own, gp) = last_owned-found c d.sessions s h e in
    rw (found, own, close_session, find_session)
      (Shrunk-close_found env (disconnect d s) s (
        Shrunk-disconnect d s gp (record {
          closable = Closable-update_at c s.address d.sessions h;
          fewer = count_owned-detached c s.session_id d.sessions s found own;
        })))

-- If the sessions of a connection are GP sessions, and no two sessions share an address or an id,
-- closing the connection ends after at most as many rounds as it has sessions, whatever the secure
-- world answers: the connection owns no session any more, and the sessions of the others are as
-- they were, but for their queues and states.
pub close_gp_ends :
    (fuel : ℕ) (env : Env) (d : Device) (c : ℕ)
    → Distinct d.sessions
    → Closable c d.sessions
    → count_owned c d.sessions < fuel
    → (d' : Device) × (close fuel env d c ≡ some d')
      × (count_owned c d'.sessions ≡ 0)
      × (others c (skeleton d') ≡ others c (skeleton d))
unfolding close
close_gp_ends zero env d c u h f = absurd (omega arith)
close_gp_ends (suc fuel) env d c u h f = elim (Option-cases (last_owned c d.sessions)) [
  | inl e ↦ (d, rw (e, close), last_owned-none c d.sessions e, refl)
  | inr (s, e) ↦
      let round = close_session-Shrunk env d c s h e in
      let (kept, u') = close_session-others env d c s.session_id u in
      let (d', ends, none_left, same) =
        close_gp_ends fuel env (close_session env d c s.session_id).1 c u' round.closable
          (omega (arith, round.fewer)) in
      (d', rw (e, close) ends, none_left, same ∙ kept)
]

-- The sessions of the connection are not GP sessions.
abbrev pub Legacy : ℕ → List TrustletSession → Type 0
Legacy c [] = Unit
Legacy c (s ∷ ss) = (owns c s ≡ true → s.gp_level ≢ 1) × Legacy c ss

Legacy-fixed : (c : ℕ) (ss : List TrustletSession) → Legacy c ss → Legacy c (map fixed ss)
Legacy-fixed c [] h = tt
Legacy-fixed c (s ∷ ss) h = (h.0, Legacy-fixed c ss h.1)

Legacy-unfixed : (c : ℕ) (ss : List TrustletSession) → Legacy c (map fixed ss) → Legacy c ss
Legacy-unfixed c [] h = tt
Legacy-unfixed c (s ∷ ss) h = (h.0, Legacy-unfixed c ss h.1)

found-Legacy :
    (c id : ℕ) (ss : List TrustletSession) (s : TrustletSession)
    → Legacy c ss
    → get_trustlet_session ss id ≡ some s
    → owns c s ≡ true
    → s.gp_level ≢ 1
unfolding get_trustlet_session
found-Legacy c id [] s h e o gp = cc
found-Legacy c id (t ∷ ss) s h e o gp = elim (Bool-cases (t.session_id == id)) [
  | inl hit ↦
      let same : t ≡ s = ground arith in subst (λ x. owns c x ≡ true → x.gp_level ≢ 1) same h.0 o gp
  | inr miss ↦ found-Legacy c id ss s h.1 (ground arith) o gp
]

-- With a recorded fault, closing a legacy session changes no session.
close_found-Legacy :
    (env : Env) (d : Device) (s : TrustletSession)
    → d.mc_fault ≡ true
    → s.gp_level ≢ 1
    → Framed d (close_found env (disconnect d s) s).1
      × ((close_found env (disconnect d s) s).1.mc_fault ≡ true)
unfolding close_found disconnect finish_close
close_found-Legacy env d s f gp =
    let not_gp : (s.gp_level == 1) ≡ false = ground arith in
    let (failed, stays) = close_session_internal-fault env d s f in
    let not_ok : (make_mcp_error daemon_mci_error == mcp_ok) ≡ false =
      ground (arith, make_mcp_error-ne-ok daemon_mci_error) in
    rw (not_gp, close_found, failed, not_ok) (close_session_internal-Framed env d s, stays)

close_session-Legacy :
    (env : Env) (d : Device) (c id : ℕ)
    → d.mc_fault ≡ true
    → Legacy c d.sessions
    → Framed d (close_session env d c id).1 × ((close_session env d c id).1.mc_fault ≡ true)
unfolding close_session find_session
close_session-Legacy env d c id f h = elim (Option-cases (get_trustlet_session d.sessions id)) [
  | inl e ↦ rw (e, close_session, find_session) (Framed-refl d, f)
  | inr (s, e) ↦ elim (Bool-cases (owns c s)) [
    | inr o ↦ rw (e, o, close_session, find_session) (Framed-refl d, f)
    | inl o ↦
        rw (e, o, close_session, find_session)
          (close_found-Legacy env d s f (found-Legacy c id d.sessions s h e o))
  ]
]

-- Once a fault is recorded, closing a connection that owns sessions, none of them a GP session,
-- never ends: the failed close leaves the session in the list, and the loop finds it again.
pub close-Legacy_hangs :
    (fuel : ℕ) (env : Env) (d : Device) (c : ℕ)
    → d.mc_fault ≡ true
    → Legacy c d.sessions
    → count_owned c d.sessions ≢ 0
    → close fuel env d c ≡ none
unfolding close
close-Legacy_hangs zero env d c f h n = refl
close-Legacy_hangs (suc fuel) env d c f h n = elim (Option-cases (last_owned c d.sessions)) [
  | inl e ↦ absurd (n (last_owned-none c d.sessions e))
  | inr (s, e) ↦
      let (same, f') = close_session-Legacy env d c s.session_id f h in
      let d' = (close_session env d c s.session_id).1 in
      let h' =
        Legacy-unfixed c d'.sessions
          (subst (Legacy c) (sym same.same_sessions) (Legacy-fixed c d.sessions h)) in
      let n' : count_owned c d'.sessions ≢ 0 = omega (
        arith,
        n,
        count_owned-fixed c d.sessions,
        count_owned-fixed c d'.sessions,
        ap (count_owned c) same.same_sessions,
      ) in
      rw (e, close) (close-Legacy_hangs fuel env d' c f' h' n')
]
