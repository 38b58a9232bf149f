-- ===== src/Device/Ownership.antt =====
-- Sessions have distinct addresses, and a client reaches its own sessions only.
use trustonic_tee_user_space.Prelude.{
  ℕ, ◌≡◌, ◌≢◌, refl, sym, subst, Bool, true, false, not, List, [], ◌∷◌, map, none, some, arith,
  ◌==◌, ==_iff, if◌then◌else◌, Option-cases, Bool-cases, inl, inr,
}
use trustonic_tee_user_space.TrustletSession.{TrustletSession}
use trustonic_tee_user_space.Device.{Device}
use trustonic_tee_user_space.Device.Irq.{get_trustlet_session, update_at}
use trustonic_tee_user_space.Device.Sessions.{owns, find_session, remove_at}
use trustonic_tee_user_space.Device.Skeleton.{fixed}

-- No session of the list has the address.
abbrev pub Fresh : ℕ → List TrustletSession → Type 0
Fresh a [] = Unit
Fresh a (s ∷ ss) = (s.address ≢ a) × Fresh a ss

abbrev pub Distinct : List TrustletSession → Type 0
Distinct [] = Unit
Distinct (s ∷ ss) = Fresh s.address ss × Distinct ss

-- Another connection owns the session.
abbrev pub is_other : ℕ → TrustletSession → Bool
is_other connection s = elim s.device_connection [ none ↦ false | some c ↦ not (c == connection) ]

unfoldable pub others : ℕ → List TrustletSession → List TrustletSession
others connection [] = []
others connection (s ∷ ss) =
    if is_other connection s then s ∷ others connection ss else others connection ss

-- No session at the address belongs to another connection.
abbrev pub NotOther : ℕ → ℕ → List TrustletSession → Type 0
NotOther c a [] = Unit
NotOther c a (s ∷ ss) = (s.address ≡ a → is_other c s ≡ false) × NotOther c a ss

pub Fresh-NotOther : (c a : ℕ) (ss : List TrustletSession) → Fresh a ss → NotOther c a ss
Fresh-NotOther c a [] h = tt
Fresh-NotOther c a (s ∷ ss) h = (λ e. absurd (h.0 e), Fresh-NotOther c a ss h.1)

owns-not_other : (c : ℕ) (s : TrustletSession) → owns c s ≡ true → is_other c s ≡ false
owns-not_other c s h = ground arith

found_not-Fresh :
    (a id : ℕ) (ss : List TrustletSession) (s : TrustletSession)
    → Fresh a ss
    → get_trustlet_session ss id ≡ some s
    → s.address ≢ a
unfolding get_trustlet_session
found_not-Fresh a id [] s h e here = cc
found_not-Fresh a id (t ∷ ss) s h e here = ground (arith, found_not-Fresh a id ss s h.1)

-- What `find_session` returns is at an address that no other connection's session has.
found-NotOther :
    (c id : ℕ) (ss : List TrustletSession) (s : TrustletSession)
    → Distinct ss
    → get_trustlet_session ss id ≡ some s
    → owns c s ≡ true
    → NotOther c s.address ss
unfolding get_trustlet_session
found-NotOther c id [] s h e o = tt
found-NotOther c id (t ∷ ss) s h e o = elim (Bool-cases (t.session_id == id)) [
  | inl hit ↦
      let same : t ≡ s = ground arith in
      (
        λ _. subst (λ x. is_other c x ≡ false) (sym same) (owns-not_other c s o),
        subst (λ x. NotOther c x.address ss) same (Fresh-NotOther c t.address ss h.0),
      )
  | inr miss ↦
      let found : get_trustlet_session ss id ≡ some s = rw miss at e in
      (
        λ here. absurd (found_not-Fresh t.address id ss s h.0 found (sym here)),
        found-NotOther c id ss s h.1 found o,
      )
]

pub find_session-NotOther :
    (d : Device) (c id : ℕ) (s : TrustletSession)
    → Distinct d.sessions
    → find_session d c id ≡ some s
    → NotOther c s.address d.sessions
unfolding find_session
find_session-NotOther d c id s h e = elim (Option-cases (get_trustlet_session d.sessions id)) [
  | inl missing ↦ let impossible : ⊥ = ground arith in absurd impossible
  | inr (t, found) ↦
      let checked : (t ≡ s) × (owns c t ≡ true) = ground arith in
      rw (← checked.0) (found-NotOther c id d.sessions t h found checked.1)
]

-- Distinctness, freshness and ownership are read off the skeleton.
Fresh-fixed : (a : ℕ) (ss : List TrustletSession) → Fresh a ss → Fresh a (map fixed ss)
Fresh-fixed a [] h = tt
Fresh-fixed a (s ∷ ss) h = (h.0, Fresh-fixed a ss h.1)

Fresh-unfixed : (a : ℕ) (ss : List TrustletSession) → Fresh a (map fixed ss) → Fresh a ss
Fresh-unfixed a [] h = tt
Fresh-unfixed a (s ∷ ss) h = (h.0, Fresh-unfixed a ss h.1)

Distinct-fixed : (ss : List TrustletSession) → Distinct ss → Distinct (map fixed ss)
Distinct-fixed [] h = tt
Distinct-fixed (s ∷ ss) h = (Fresh-fixed s.address ss h.0, Distinct-fixed ss h.1)

Distinct-unfixed : (ss : List TrustletSession) → Distinct (map fixed ss) → Distinct ss
Distinct-unfixed [] h = tt
Distinct-unfixed (s ∷ ss) h = (Fresh-unfixed s.address ss h.0, Distinct-unfixed ss h.1)

NotOther-fixed :
    (c a : ℕ) (ss : List TrustletSession) → NotOther c a ss → NotOther c a (map fixed ss)
NotOther-fixed c a [] h = tt
NotOther-fixed c a (s ∷ ss) h = (h.0, NotOther-fixed c a ss h.1)

NotOther-unfixed :
    (c a : ℕ) (ss : List TrustletSession) → NotOther c a (map fixed ss) → NotOther c a ss
NotOther-unfixed c a [] h = tt
NotOther-unfixed c a (s ∷ ss) h = (h.0, NotOther-unfixed c a ss h.1)

module _ (ss ts : List TrustletSession) (same : map fixed ts ≡ map fixed ss) where
  pub Distinct-same : Distinct ss → Distinct ts
  Distinct-same h = Distinct-unfixed ts (subst Distinct (sym same) (Distinct-fixed ss h))

  pub Fresh-same : (a : ℕ) → Fresh a ss → Fresh a ts
  Fresh-same a h = Fresh-unfixed a ts (subst (Fresh a) (sym same) (Fresh-fixed a ss h))

  pub NotOther-same : (c a : ℕ) → NotOther c a ss → NotOther c a ts
  NotOther-same c a h =
      NotOther-unfixed c a ts (subst (NotOther c a) (sym same) (NotOther-fixed c a ss h))

-- Updates and removals at such an address leave the other connections' sessions alone.
pub others-update_at :
    (c a : ℕ) (f : TrustletSession → TrustletSession) (ss : List TrustletSession)
    → ((s : TrustletSession) → is_other c s ≡ false → is_other c (f s) ≡ false)
    → NotOther c a ss
    → others c (map fixed (update_at a f ss)) ≡ others c (map fixed ss)
unfolding others update_at
others-update_at c a f [] keep h = refl
others-update_at c a f (s ∷ ss) keep h = ground (arith, keep s, others-update_at c a f ss keep h.1)

pub others-remove_at :
    (c a : ℕ) (ss : List TrustletSession)
    → NotOther c a ss
    → others c (map fixed (remove_at a ss)) ≡ others c (map fixed ss)
unfolding others remove_at
others-remove_at c a [] h = refl
others-remove_at c a (s ∷ ss) h = ground (arith, others-remove_at c a ss h.1)

-- Both keep the addresses distinct.
Fresh-update_at :
    (a b : ℕ) (f : TrustletSession → TrustletSession) (ss : List TrustletSession)
    → ((s : TrustletSession) → (f s).address ≡ s.address)
    → Fresh b ss
    → Fresh b (update_at a f ss)
unfolding update_at
Fresh-update_at a b f [] keep h = tt
Fresh-update_at a b f (s ∷ ss) keep h = ground (arith, keep s, Fresh-update_at a b f ss keep h.1)

pub Distinct-update_at :
    (a : ℕ) (f : TrustletSession → TrustletSession) (ss : List TrustletSession)
    → ((s : TrustletSession) → (f s).address ≡ s.address)
    → Distinct ss
    → Distinct (update_at a f ss)
unfolding update_at
Distinct-update_at a f [] keep h = tt
Distinct-update_at a f (s ∷ ss) keep h =
    ground
      (arith, keep s, Fresh-update_at a s.address f ss keep h.0, Distinct-update_at a f ss keep h.1)

pub Fresh-remove_at : (a b : ℕ) (ss : List TrustletSession) → Fresh b ss → Fresh b (remove_at a ss)
unfolding remove_at
Fresh-remove_at a b [] h = tt
Fresh-remove_at a b (s ∷ ss) h = ground (arith, Fresh-remove_at a b ss h.1)

pub Distinct-remove_at :
    (a : ℕ) (ss : List TrustletSession) → Distinct ss → Distinct (remove_at a ss)
unfolding remove_at
Distinct-remove_at a [] h = tt
Distinct-remove_at a (s ∷ ss) h =
    ground (arith, Fresh-remove_at a s.address ss h.0, Distinct-remove_at a ss h.1)

pub NotOther-update_at :
    (c a : ℕ) (f : TrustletSession → TrustletSession) (ss : List TrustletSession)
    → ((s : TrustletSession) → (f s).address ≡ s.address)
    → ((s : TrustletSession) → is_other c s ≡ false → is_other c (f s) ≡ false)
    → NotOther c a ss
    → NotOther c a (update_at a f ss)
unfolding update_at
NotOther-update_at c a f [] same keep h = tt
NotOther-update_at c a f (s ∷ ss) same keep h = elim (Bool-cases (s.address == a)) [
  | inl e ↦ rw e (λ _. keep s (h.0 ((==_iff _ _).0 e)), NotOther-update_at c a f ss same keep h.1)
  | inr e ↦ rw e (h.0, NotOther-update_at c a f ss same keep h.1)
]

pub NotOther-remove_at :
    (c a b : ℕ) (ss : List TrustletSession) → NotOther c a ss → NotOther c a (remove_at b ss)
unfolding remove_at
NotOther-remove_at c a b [] h = tt
NotOther-remove_at c a b (s ∷ ss) h = elim (Bool-cases (s.address == b)) [
  | inl e ↦ rw e (NotOther-remove_at c a b ss h.1)
  | inr e ↦ rw e (h.0, NotOther-remove_at c a b ss h.1)
]
