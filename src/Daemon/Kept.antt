-- ===== src/Daemon/Kept.antt =====
-- What a command of one connection leaves alone: the sessions of the others.
use trustonic_tee_user_space.Prelude.{
  ℕ, zero, suc, ◌≡◌, ◌≢◌, refl, sym, subst, ap, ◌∙◌, false, List, [], ◌∷◌, ◌++◌, Option, none, some,
  arith, Option-cases, inl, inr,
}
use trustonic_tee_user_space.TrustletSession.{TrustletSession}
use trustonic_tee_user_space.Device.{Device, Env, Event, LoadData}
use trustonic_tee_user_space.Device.Close.{last_owned, close_session, close}
use trustonic_tee_user_space.Device.Open.{OpenPayload, open_session}
use trustonic_tee_user_space.Device.Skeleton.{fixed, skeleton}
use trustonic_tee_user_space.Device.Ownership.{Fresh, Distinct, is_other, others, Distinct-same}
use trustonic_tee_user_space.Device.Opening.{Outcome, open_session-Outcome, map-snoc}
use trustonic_tee_user_space.Device.Closing.{close_session-others}

pub record Kept (c : ℕ) (d d' : Device) : Type 0 where
  pub untouched : others c (skeleton d') ≡ others c (skeleton d)
  pub distinct : Distinct d'.sessions

pub Kept-trans : {c : ℕ} {d e f : Device} → Kept c d e → Kept c e f → Kept c d f
Kept-trans p q = record { untouched = q.untouched ∙ p.untouched; distinct = q.distinct }

pub Kept-same :
    (c : ℕ) (d d' : Device) → skeleton d' ≡ skeleton d → Distinct d.sessions → Kept c d d'
Kept-same c d d' same h = record {
  untouched = ap (others c) same;
  distinct = Distinct-same d.sessions d'.sessions same h;
}

Fresh-snoc :
    (a : ℕ) (ss : List TrustletSession) (s : TrustletSession)
    → Fresh a ss
    → s.address ≢ a
    → Fresh a (ss ++ s ∷ [])
Fresh-snoc a [] s h n = (n, tt)
Fresh-snoc a (t ∷ ss) s h n = (h.0, Fresh-snoc a ss s h.1 n)

Distinct-snoc :
    (ss : List TrustletSession) (s : TrustletSession)
    → Distinct ss
    → Fresh s.address ss
    → Distinct (ss ++ s ∷ [])
Distinct-snoc [] s h f = (tt, tt)
Distinct-snoc (t ∷ ss) s h f =
    (Fresh-snoc t.address ss s h.0 (λ e. f.0 (sym e)), Distinct-snoc ss s h.1 f.1)

others-snoc :
    (c : ℕ) (ss : List TrustletSession) (s : TrustletSession)
    → is_other c s ≡ false
    → others c (ss ++ s ∷ []) ≡ others c ss
unfolding others
others-snoc c [] s own = rw own refl
others-snoc c (t ∷ ss) s own = ground (arith, others-snoc c ss s own)

owned-not_other :
    (c : ℕ) (s : TrustletSession) → s.device_connection ≡ some c → is_other c s ≡ false
owned-not_other c s own = ground arith

module _ (env : Env) (c : ℕ) (d : Device) (h : Distinct d.sessions)
    (fresh : (l : List Event) → Fresh (env.new_address l) d.sessions) where
  Kept-Outcome :
      (l : LoadData) (ret : ℕ) (p : Option OpenPayload) (d' : Device)
      → Outcome env c l d (ret, p, d')
      → Kept c d d'
  Kept-Outcome l ret p d' (inr (bad, gone, same)) = Kept-same c d d' same h
  Kept-Outcome l ret p d' (inl (ok, (s, added, own, socket, gp, (log, at), sent))) = record {
    untouched =
        ap (others c) added
        ∙ others-snoc c (skeleton d) (fixed s) (owned-not_other c (fixed s) own);
    distinct =
        Distinct-same (d.sessions ++ s ∷ []) d'.sessions (added ∙ sym (map-snoc d.sessions s))
          (Distinct-snoc d.sessions s h (subst (λ a. Fresh a d.sessions) (sym at) (fresh log)));
  }

  pub Kept-open_session :
      (fd : ℕ) (l : LoadData) (tci_handle tci_len tci_offset : ℕ)
      → Kept c d (open_session env d c fd l tci_handle tci_len tci_offset).2
  Kept-open_session fd l tci_handle tci_len tci_offset =
      let (ret, p, d') = open_session env d c fd l tci_handle tci_len tci_offset in
      Kept-Outcome l ret p d' (open_session-Outcome env d c fd l tci_handle tci_len tci_offset)

pub Kept-close_session :
    (env : Env) (c session_id : ℕ) (d : Device)
    → Distinct d.sessions
    → Kept c d (close_session env d c session_id).1
Kept-close_session env c session_id d h =
    let (same, h') = close_session-others env d c session_id h in
    record { untouched = same; distinct = h' }

-- However many rounds the loop takes.
abbrev pub KeptOption : ℕ → Device → Option Device → Type 0
KeptOption c d none = Unit
KeptOption c d (some d') = Kept c d d'

KeptOption-from :
    (c : ℕ) (d e : Device) (r : Option Device) → Kept c d e → KeptOption c e r → KeptOption c d r
KeptOption-from c d e none p q = tt
KeptOption-from c d e (some f) p q = Kept-trans p q

pub Kept-close :
    (fuel : ℕ) (env : Env) (c : ℕ) (d : Device)
    → Distinct d.sessions
    → KeptOption c d (close fuel env d c)
unfolding close
Kept-close zero env c d h = tt
Kept-close (suc fuel) env c d h = elim (Option-cases (last_owned c d.sessions)) [
  | inl e ↦ rw (e, close) (Kept-same c d d refl h)
  | inr (s, e) ↦
      let d' = (close_session env d c s.session_id).1 in
      let round = Kept-close_session env c s.session_id d h in
      rw (e, close)
        (KeptOption-from c d d' (close fuel env d' c) round
          (Kept-close fuel env c d' round.distinct))
]
