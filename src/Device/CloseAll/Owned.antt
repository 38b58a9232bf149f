-- ===== src/Device/CloseAll/Owned.antt =====
-- The sessions of one connection in a list: how many there are, and what closing one needs of them.
use trustonic_tee_user_space.Prelude.{
  ℕ, ◌+◌, ◌≤◌, ◌<◌, ◌≡◌, ◌≢◌, refl, sym, subst, true, List, [], ◌∷◌, map, none, some, arith, ◌==◌,
  if◌then◌else◌, Option-cases, Bool-cases, inl, inr,
}
use trustonic_tee_user_space.TrustletSession.{TrustletSession}
use trustonic_tee_user_space.Device.Irq.{get_trustlet_session, update_at}
use trustonic_tee_user_space.Device.Sessions.{owns, remove_at}
use trustonic_tee_user_space.Device.Close.{detached, last_owned}
use trustonic_tee_user_space.Device.Skeleton.{fixed}

-- No session of the list has the id.
abbrev pub FreshId : ℕ → List TrustletSession → Type 0
FreshId i [] = Unit
FreshId i (s ∷ ss) = (s.session_id ≢ i) × FreshId i ss

-- Session ids are distinct, and the sessions of the connection are GP sessions.
abbrev pub Closable : ℕ → List TrustletSession → Type 0
Closable c [] = Unit
Closable c (s ∷ ss) = (owns c s ≡ true → s.gp_level ≡ 1) × FreshId s.session_id ss × Closable c ss

unfoldable pub count_owned : ℕ → List TrustletSession → ℕ
count_owned c [] = 0
count_owned c (s ∷ ss) = (if owns c s then 1 else 0) + count_owned c ss

-- Both are read off the skeleton.
FreshId-fixed : (i : ℕ) (ss : List TrustletSession) → FreshId i ss → FreshId i (map fixed ss)
FreshId-fixed i [] h = tt
FreshId-fixed i (s ∷ ss) h = (h.0, FreshId-fixed i ss h.1)

FreshId-unfixed : (i : ℕ) (ss : List TrustletSession) → FreshId i (map fixed ss) → FreshId i ss
FreshId-unfixed i [] h = tt
FreshId-unfixed i (s ∷ ss) h = (h.0, FreshId-unfixed i ss h.1)

pub Closable-fixed : (c : ℕ) (ss : List TrustletSession) → Closable c ss → Closable c (map fixed ss)
Closable-fixed c [] h = tt
Closable-fixed c (s ∷ ss) h = (h.0, FreshId-fixed s.session_id ss h.1, Closable-fixed c ss h.2)

pub Closable-unfixed :
    (c : ℕ) (ss : List TrustletSession) → Closable c (map fixed ss) → Closable c ss
Closable-unfixed c [] h = tt
Closable-unfixed c (s ∷ ss) h =
    (h.0, FreshId-unfixed s.session_id ss h.1, Closable-unfixed c ss h.2)

pub count_owned-fixed :
    (c : ℕ) (ss : List TrustletSession) → count_owned c (map fixed ss) ≡ count_owned c ss
unfolding count_owned
count_owned-fixed c [] = refl
count_owned-fixed c (s ∷ ss) = omega (arith, count_owned-fixed c ss)

FreshId-update_at :
    (a i : ℕ) (ss : List TrustletSession) → FreshId i ss → FreshId i (update_at a detached ss)
unfolding update_at
FreshId-update_at a i [] h = tt
FreshId-update_at a i (s ∷ ss) h = ground (arith, FreshId-update_at a i ss h.1)

FreshId-remove_at :
    (a i : ℕ) (ss : List TrustletSession) → FreshId i ss → FreshId i (remove_at a ss)
unfolding remove_at
FreshId-remove_at a i [] h = tt
FreshId-remove_at a i (s ∷ ss) h = ground (arith, FreshId-remove_at a i ss h.1)

pub Closable-update_at :
    (c a : ℕ) (ss : List TrustletSession) → Closable c ss → Closable c (update_at a detached ss)
unfolding update_at
Closable-update_at c a [] h = tt
Closable-update_at c a (s ∷ ss) h = elim (Bool-cases (s.address == a)) [
  | inl e ↦ rw e (λ o. cc, FreshId-update_at a s.session_id ss h.1, Closable-update_at c a ss h.2)
  | inr e ↦ rw e (h.0, FreshId-update_at a s.session_id ss h.1, Closable-update_at c a ss h.2)
]

pub Closable-remove_at :
    (c a : ℕ) (ss : List TrustletSession) → Closable c ss → Closable c (remove_at a ss)
unfolding remove_at
Closable-remove_at c a [] h = tt
Closable-remove_at c a (s ∷ ss) h = elim (Bool-cases (s.address == a)) [
  | inl e ↦ rw e (Closable-remove_at c a ss h.2)
  | inr e ↦ rw e (h.0, FreshId-remove_at a s.session_id ss h.1, Closable-remove_at c a ss h.2)
]

count_owned-update_le :
    (c a : ℕ) (ss : List TrustletSession)
    → count_owned c (update_at a detached ss) ≤ count_owned c ss
unfolding count_owned update_at
count_owned-update_le c a [] = omega arith
count_owned-update_le c a (s ∷ ss) = ground (arith, count_owned-update_le c a ss)

pub count_owned-remove_le :
    (c a : ℕ) (ss : List TrustletSession) → count_owned c (remove_at a ss) ≤ count_owned c ss
unfolding count_owned remove_at
count_owned-remove_le c a [] = omega arith
count_owned-remove_le c a (s ∷ ss) = ground (arith, count_owned-remove_le c a ss)

-- Detaching a session that is found and owned leaves fewer owned ones.
pub count_owned-detached :
    (c i : ℕ) (ss : List TrustletSession) (s : TrustletSession)
    → get_trustlet_session ss i ≡ some s
    → owns c s ≡ true
    → count_owned c (update_at s.address detached ss) < count_owned c ss
unfolding count_owned update_at get_trustlet_session
count_owned-detached c i [] s e o = let impossible : ⊥ = cc in absurd impossible
count_owned-detached c i (t ∷ ss) s e o =
    ground (arith, count_owned-detached c i ss s, count_owned-update_le c s.address ss)

found_id :
    (i j : ℕ) (ss : List TrustletSession) (s : TrustletSession)
    → FreshId i ss
    → get_trustlet_session ss j ≡ some s
    → s.session_id ≢ i
unfolding get_trustlet_session
found_id i j [] s h e here = cc
found_id i j (t ∷ ss) s h e here = ground (arith, found_id i j ss s h.1)

-- The session that the search in reverse finds is found by its id too, and is the connection's own.
pub last_owned-found :
    (c : ℕ) (ss : List TrustletSession) (s : TrustletSession)
    → Closable c ss
    → last_owned c ss ≡ some s
    → (get_trustlet_session ss s.session_id ≡ some s) × (owns c s ≡ true) × (s.gp_level ≡ 1)
unfolding last_owned get_trustlet_session
last_owned-found c [] s h e = cc
last_owned-found c (t ∷ ss) s h e = elim (Option-cases (last_owned c ss)) [
  | inr (u, later) ↦
      let same : last_owned c ss ≡ some s = ground arith in
      let (found, own, gp) = last_owned-found c ss s h.2 same in
      let other : t.session_id ≢ s.session_id =
        λ x. found_id t.session_id s.session_id ss s h.1 found (sym x) in
      (ground arith, own, gp)
  | inl later ↦
      let mine : (owns c t ≡ true) × (t ≡ s) = ground arith in
      subst
        (λ x.
          ((if t.session_id == x.session_id then some t else get_trustlet_session ss x.session_id)
            ≡ some x)
          × (owns c x ≡ true)
          × (x.gp_level ≡ 1))
        mine.1 (ground arith, mine.0, h.0 mine.0)
]

pub last_owned-none :
    (c : ℕ) (ss : List TrustletSession) → last_owned c ss ≡ none → count_owned c ss ≡ 0
unfolding last_owned count_owned
last_owned-none c [] e = refl
last_owned-none c (s ∷ ss) e = ground (arith, last_owned-none c ss)
