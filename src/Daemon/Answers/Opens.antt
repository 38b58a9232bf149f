-- ===== src/Daemon/Answers/Opens.antt =====
-- What the commands that open a session are answered.
use trustonic_tee_user_space.Prelude.{
  ℕ, ◌≡◌, ◌≢◌, refl, Bool, false, List, [], ◌∷◌, Option, none, some, arith, ◌==◌, Bool-cases,
  Option-cases, inl, inr,
}
use trustonic_tee_user_space.Status.{mc_drv_ok, daemon_socket}
use trustonic_tee_user_space.Device.Open.{OpenPayload, open_session}
use trustonic_tee_user_space.Device.Opening.{Outcome, open_session-Outcome}
use trustonic_tee_user_space.Device.{Device, LoadData}
use trustonic_tee_user_space.Daemon.{
  World, Daemon, Reply, RegObject, Received, read_failed, wrong_length, payload, has_device,
  recv_payload, check_device, write_result,
}
use trustonic_tee_user_space.Daemon.Services.{
  TciRequest, OpenSessionRequest, load_data, register_service, unregister_service, answer_open,
  open_registered, open_service, find_service, process_open_session,
}
use trustonic_tee_user_space.Daemon.Trustlet.{
  Reads, OpenTrustletRequest, read_trustlet, open_blob, receive_blob, process_open_trustlet,
}

-- One reply more, to the connection.
abbrev pub OneReply : ℕ → Daemon → Daemon → Type 0
OneReply c d d' = (r : Reply) × (d'.replies ≡ (c, r) ∷ d.replies)

-- The handler returns with one reply, unless it may hang.
abbrev pub Answers : Type 0 → ℕ → Daemon → Option Daemon → Type 0
Answers MayHang c d none = MayHang
Answers MayHang c d (some d') = OneReply c d d'

module _ (MayHang : Type 0) (c : ℕ) (d : Daemon) where
  pub recv_payload-Answers :
      {A : Type 0} (r : Received A) (next : A → Option Daemon)
      → ((a : A) → Answers MayHang c d (next a))
      → Answers MayHang c d (recv_payload c r d next)
  unfolding recv_payload
  recv_payload-Answers read_failed next k = (_, refl)
  recv_payload-Answers wrong_length next k = (_, refl)
  recv_payload-Answers (payload a) next k = k a

  pub check_device-Answers :
      (next : Option Daemon)
      → Answers MayHang c d next
      → Answers MayHang c d (check_device c d next)
  unfolding check_device
  check_device-Answers next k = elim (Bool-cases (has_device c d.opened)) [
    | inl e ↦ rw e k
    | inr e ↦ rw e (_, refl)
  ]

answer_open-OneReply :
    (c ret : ℕ) (p : Option OpenPayload) (d : Daemon)
    → (ret ≡ mc_drv_ok → p ≢ none)
    → OneReply c d (answer_open c ret p d)
unfolding answer_open
answer_open-OneReply c ret p d h = elim (Bool-cases (ret == mc_drv_ok)) [
  | inr e ↦ rw (e, answer_open) (_, refl)
  | inl e ↦ elim (Option-cases p) [
    | inl n ↦ absurd (h (ground arith) n)
    | inr (sent, n) ↦ rw (e, n, answer_open) (_, refl)
  ]
]

module _ (w : World) (c : ℕ) where
  paid :
      (l : LoadData) (d d' : Device) (ret : ℕ) (p : Option OpenPayload)
      → Outcome w.env c l d (ret, p, d')
      → ret ≡ mc_drv_ok
      → p ≢ none
  paid l d d' ret p (inl (ok, (s, added, own, socket, gp, at, sent))) e n = cc
  paid l d d' ret p (inr (bad, gone, same)) e n = bad e

  open_service-OneReply :
      (d : Daemon) (obj : RegObject) (is_gpta : Bool) (t : TciRequest)
      → OneReply c d (open_service w d c obj is_gpta t)
  unfolding open_service open_registered
  open_service-OneReply d obj is_gpta t =
      let (found, device) = register_service w d.device obj.value obj.len in
      elim (Bool-cases (obj.len == 0)) [
        | inl e ↦ rw (e, open_service) (_, refl)
        | inr e ↦ elim (Option-cases found) [
          | inl r ↦ rw (e, r, open_service) (_, refl)
          | inr (wsm, r) ↦
              let l = load_data obj wsm is_gpta in
              let (ret, p, opened) =
                open_session w.env device c (w.socket_descriptor c) l t.handle t.len t.tci in
              let (done, left) = unregister_service w opened wsm in
              let outcome =
                open_session-Outcome w.env device c (w.socket_descriptor c) l t.handle t.len
                  t.tci in
              rw (e, r, open_service)
                (elim (Bool-cases done) [
                  | inl u ↦
                      rw (u, open_registered)
                        (answer_open-OneReply c ret p (record d { device = left })
                          (paid l device opened ret p outcome))
                  | inr u ↦ rw (u, open_registered) (_, refl)
                ])
        ]
      ]

  pub open_session-Answers :
      (d : Daemon) (is_gp_uuid : Bool) (r : Received OpenSessionRequest)
      → Answers ⊥ c d (process_open_session w d c is_gp_uuid r)
  unfolding process_open_session
  open_session-Answers d is_gp_uuid r = recv_payload-Answers ⊥ c d r _ (λ cmd.
      check_device-Answers ⊥ c d _ (elim (Option-cases (find_service w d cmd.uuid is_gp_uuid)) [
        | inl e ↦ rw e (_, refl)
        | inr (obj, e) ↦ rw e (open_service-OneReply d obj is_gp_uuid cmd.buffer)
      ]))

  open_blob-OneReply :
      (d : Daemon) (cmd : OpenTrustletRequest) (blob : List ℕ)
      → OneReply c d (open_blob w d c cmd blob)
  unfolding open_blob
  open_blob-OneReply d cmd blob =
      elim (Option-cases (w.mem_service_blob d.device.log cmd.spid blob)) [
        | inl e ↦ rw (e, open_blob) (_, refl)
        | inr (obj, e) ↦ rw (e, open_blob) (open_service-OneReply d obj false cmd.buffer)
      ]

  read-Answers :
      (d : Daemon) (cmd : OpenTrustletRequest) (r : Option (Option (List ℕ)))
      → Answers Unit c d (elim r as (λ _. Option Daemon) [
        | none ↦ none
        | some none ↦ some (write_result c daemon_socket d)
        | some (some blob) ↦ some (open_blob w d c cmd blob)
      ])
  read-Answers d cmd none = tt
  read-Answers d cmd (some none) = (_, refl)
  read-Answers d cmd (some (some blob)) = open_blob-OneReply d cmd blob

  pub open_trustlet-Answers :
      (fuel : ℕ) (d : Daemon) (reads : Reads) (r : Received OpenTrustletRequest)
      → Answers Unit c d (process_open_trustlet fuel w d c reads r)
  unfolding process_open_trustlet receive_blob
  open_trustlet-Answers fuel d reads r = recv_payload-Answers Unit c d r _ (λ cmd.
      check_device-Answers Unit c d _
        (elim (Option-cases (w.malloc d.device.log cmd.trustlet_len)) [
          | inl e ↦ rw (e, receive_blob) (_, refl)
          | inr (address, e) ↦
              rw (e, receive_blob)
                (read-Answers d cmd (read_trustlet fuel reads 0 cmd.trustlet_len []))
        ]))
