-- ===== src/Client/Memory.antt =====
-- The sessions and the shared memory of a client's device.
use trustonic_tee_user_space.Prelude.{
  ℕ, ◌≡◌, ◌≢◌, refl, true, false, List, [], ◌∷◌, ◌++◌, none, some, arith, ◌==◌, if◌then◌else◌,
  Option-cases, inl, inr,
}
use trustonic_tee_user_space.Client.{Kernel, ClientSession, ClientDevice}
use trustonic_tee_user_space.Client.Session.{new_session, delete_session}
use trustonic_tee_user_space.Client.Device.{
  create_new_session, resolve_session_id, without_session, remove_session,
}

resolve-snoc :
    (ss : List ClientSession) (s : ClientSession) (id : ℕ)
    → resolve_session_id (ss ++ s ∷ []) id ≡ elim (resolve_session_id ss id) [
      | some t ↦ some t
      | none ↦ if s.session_id == id then some s else none
    ]
unfolding resolve_session_id
resolve-snoc [] s id = refl
resolve-snoc (t ∷ ss) s id = ground (arith, resolve-snoc ss s id)

-- A session that is created is found under its id, unless an older one has that id; what the other
-- ids find does not change.
pub resolve_session_id-create :
    (d : ClientDevice) (session_id connection id : ℕ)
    → resolve_session_id (create_new_session d session_id connection).session_list id
      ≡ elim (resolve_session_id d.session_list id) [
        | some t ↦ some t
        | none ↦ if session_id == id then some (new_session session_id connection) else none
      ]
unfolding create_new_session new_session
resolve_session_id-create d session_id connection id =
    resolve-snoc d.session_list (new_session session_id connection) id

resolve-without :
    (ss : List ClientSession) (session_id id : ℕ)
    → id ≢ session_id
    → resolve_session_id (without_session ss session_id) id ≡ resolve_session_id ss id
unfolding resolve_session_id without_session
resolve-without [] session_id id h = refl
resolve-without (s ∷ ss) session_id id h = ground (arith, resolve-without ss session_id id h)

-- Removing a session succeeds just if there is one of that id, deletes the one that the id finds,
-- and leaves what every other id finds.
pub remove_session-resolve :
    (k : Kernel) (d : ClientDevice) (session_id id : ℕ)
    → id ≢ session_id
    → let (done, d') = remove_session k d session_id in
      (done ≡ elim (resolve_session_id d.session_list session_id) [ none ↦ false | some _ ↦ true ])
      × (d'.log ≡ elim (resolve_session_id d.session_list session_id) [
        | none ↦ d.log
        | some s ↦ delete_session k s d.log
      ])
      × (resolve_session_id d'.session_list id ≡ resolve_session_id d.session_list id)
unfolding remove_session
remove_session-resolve k d session_id id h =
    elim (Option-cases (resolve_session_id d.session_list session_id)) [
      | inl e ↦ rw (e, remove_session) (refl, refl, refl)
      | inr (s, e) ↦
          rw (e, remove_session) (refl, refl, resolve-without d.session_list session_id id h)
    ]
