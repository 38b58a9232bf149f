-- ===== src/Device/Lookups.antt =====
-- What looking up a session and a buffer finds, and removing a buffer under what notifications do
-- not change.
use trustonic_tee_user_space.Prelude.{
  ℕ, ◌≡◌, refl, sym, ap, true, List, [], ◌∷◌, ◌++◌, map, none, some, arith, ◌==◌, Option-cases,
  Bool-cases, inl, inr,
}
use trustonic_tee_user_space.OrdMap.{OrdMap, find, erase}
use trustonic_tee_user_space.TrustletSession.{
  TrustletSession, Wsm, remove_bulk_buff, find_bulk_buff,
}
use trustonic_tee_user_space.Device.{Device}
use trustonic_tee_user_space.Device.Irq.{get_trustlet_session, update_at}
use trustonic_tee_user_space.Device.Sessions.{owns, find_session}
use trustonic_tee_user_space.Device.Skeleton.{fixed}

-- The session is in the list, with the id, and the connection is its owner.
abbrev pub Owned : List TrustletSession → (c id : ℕ) → TrustletSession → Type 0
Owned ss c id s =
    ((before : List TrustletSession) × (after : List TrustletSession) × (ss ≡ before ++ s ∷ after))
    × (s.session_id ≡ id)
    × (s.device_connection ≡ some c)

get_trustlet_session-found :
    (ss : List TrustletSession) (id : ℕ) (s : TrustletSession)
    → get_trustlet_session ss id ≡ some s
    → ((before : List TrustletSession) × (after : List TrustletSession) × (ss
          ≡ before ++ s ∷ after))
      × (s.session_id ≡ id)
unfolding get_trustlet_session
get_trustlet_session-found [] id s e = cc
get_trustlet_session-found (t ∷ ts) id s e = elim (Bool-cases (t.session_id == id)) [
  | inl hit ↦
      let here : t ≡ s = ground (arith, hit, e) in rw (← here) (([], ts, refl), ground (arith, hit))
  | inr miss ↦
      let ((before, after, split), same) =
        get_trustlet_session-found ts id s (ground (arith, miss, e)) in
      ((t ∷ before, after, ap (λ l. t ∷ l) split), same)
]

owns-connection : (c : ℕ) (s : TrustletSession) → owns c s ≡ true → s.device_connection ≡ some c
owns-connection c s = elim (Option-cases s.device_connection) [
  | inl e ↦ rw e (λ h. cc)
  | inr (o, e) ↦ rw e (λ h. ap some (ground (arith, h)))
]

pub find_session-Owned :
    (d : Device) (c id : ℕ) (s : TrustletSession)
    → find_session d c id ≡ some s
    → Owned d.sessions c id s
unfolding find_session
find_session-Owned d c id s e = elim (Option-cases (get_trustlet_session d.sessions id)) [
  | inl missing ↦ let impossible : ⊥ = ground arith in absurd impossible
  | inr (t, found) ↦
      let checked : (t ≡ s) × (owns c t ≡ true) = ground arith in
      let (split, same) = get_trustlet_session-found d.sessions id t found in
      rw (← checked.0) (split, same, owns-connection c t checked.1)
]

pub find_bulk_buff-found :
    (s : TrustletSession) (handle len : ℕ)
    → find_bulk_buff s handle len ≡ true
    → (w : Wsm) × (find handle s.buffers ≡ some w) × (w.len ≡ len)
unfolding find_bulk_buff
find_bulk_buff-found s handle len = elim (Option-cases (find handle s.buffers)) [
  | inl e ↦ rw (e, find_bulk_buff) (λ h. cc)
  | inr (w, e) ↦ rw (e, find_bulk_buff) (λ h. (w, refl, ground (arith, h)))
]

erase-absent : (k : ℕ) (m : OrdMap Wsm) → find k m ≡ none → erase k m ≡ m
unfolding find erase
erase-absent k [] e = refl
erase-absent k ((j, w) ∷ m) e = ground (arith, erase-absent k m, e)

-- The session without the buffers of the handle.
abbrev pub without_buffer : (handle : ℕ) → TrustletSession → TrustletSession
without_buffer handle s = record s { buffers = erase handle s.buffers }

fixed-remove_bulk_buff :
    (handle : ℕ) (s : TrustletSession)
    → fixed (remove_bulk_buff s handle).0 ≡ without_buffer handle (fixed s)
unfolding remove_bulk_buff
fixed-remove_bulk_buff handle s = elim (Option-cases (find handle s.buffers)) [
  | inl e ↦
      rw (e, remove_bulk_buff)
        (ap (λ m. record (fixed s) { buffers = m }) (sym (erase-absent handle s.buffers e)))
  | inr (w, e) ↦ rw (e, remove_bulk_buff) refl
]

pub map-update_at :
    (a handle : ℕ) (ss : List TrustletSession)
    → map fixed (update_at a (λ t. (remove_bulk_buff t handle).0) ss)
      ≡ update_at a (without_buffer handle) (map fixed ss)
unfolding update_at
map-update_at a handle [] = refl
map-update_at a handle (s ∷ ss) =
    ground (arith, fixed-remove_bulk_buff handle s, map-update_at a handle ss)
