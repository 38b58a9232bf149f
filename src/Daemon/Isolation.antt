-- ===== src/Daemon/Isolation.antt =====
-- Each handler leaves the sessions of other connections alone, and addresses distinct.
use trustonic_tee_user_space.Prelude.{
  ℕ, ◌≡◌, refl, sym, subst, ap, ◌∙◌, Bool, false, List, [], map, Option, none, some, arith, ◌==◌,
  Bool-cases, Option-cases, inl, inr,
}
use trustonic_tee_user_space.Status.{daemon_socket}
use trustonic_tee_user_space.TrustletSession.{Wsm}
use trustonic_tee_user_space.Device.{Device, Event}
use trustonic_tee_user_space.Device.Open.{OpenPayload, open_session}
use trustonic_tee_user_space.Device.Ownership.{Fresh, Distinct}
use trustonic_tee_user_space.Device.Skeleton.{fixed, skeleton}
use trustonic_tee_user_space.Daemon.{
  World, Daemon, RegObject, Received, read_failed, wrong_length, payload, recv_payload,
  check_device, has_device, write_result,
}
use trustonic_tee_user_space.Daemon.Services.{
  TciRequest, OpenSessionRequest, load_data, register_service, unregister_service, answer_open,
  open_registered, open_service, find_service, process_open_session,
}
use trustonic_tee_user_space.Daemon.Trustlet.{
  Reads, OpenTrustletRequest, read_trustlet, open_blob, receive_blob, process_open_trustlet,
}
use trustonic_tee_user_space.Daemon.Kept.{Kept, Kept-trans, Kept-same, Kept-open_session}

-- What a handler does that returns.
abbrev pub Spares : ℕ → Daemon → Option Daemon → Type 0
Spares c d none = Unit
Spares c d (some d') = Kept c d.device d'.device

module _ (c connection : ℕ) (d : Daemon) (h : Distinct d.device.sessions) where
  pub recv_payload-Spares :
      {A : Type 0} (r : Received A) (next : A → Option Daemon)
      → ((a : A) → Spares c d (next a))
      → Spares c d (recv_payload connection r d next)
  unfolding recv_payload
  recv_payload-Spares read_failed next k = Kept-same c d.device d.device refl h
  recv_payload-Spares wrong_length next k = Kept-same c d.device d.device refl h
  recv_payload-Spares (payload a) next k = k a

  pub check_device-Spares :
      (next : Option Daemon) → Spares c d next → Spares c d (check_device connection d next)
  unfolding check_device
  check_device-Spares next k = elim (Bool-cases (has_device connection d.opened)) [
    | inl e ↦ rw e k
    | inr e ↦ rw e (Kept-same c d.device d.device refl h)
  ]

answer_open-device :
    (connection ret : ℕ) (p : Option OpenPayload) (d : Daemon)
    → (answer_open connection ret p d).device ≡ d.device
unfolding answer_open
answer_open-device connection ret p d = ground arith

unregister-skeleton :
    (w : World) (d : Device) (wsm : Wsm) → skeleton (unregister_service w d wsm).1 ≡ skeleton d
unfolding unregister_service
unregister-skeleton w d wsm = ground arith

open_registered-device :
    (w : World) (d : Daemon) (c : ℕ) (obj : RegObject) (is_gpta : Bool) (t : TciRequest) (wsm : Wsm)
    → skeleton (open_registered w d c obj is_gpta t wsm).device
      ≡ skeleton
          (open_session w.env d.device c
            (w.socket_descriptor c)
            (load_data obj wsm is_gpta)
            t.handle
            t.len
            t.tci).2
unfolding open_registered
open_registered-device w d c obj is_gpta t wsm =
    let (ret, p, opened) =
      open_session w.env d.device c (w.socket_descriptor c) (load_data obj wsm is_gpta) t.handle
        t.len t.tci in
    let (done, left) = unregister_service w opened wsm in
    let same = unregister-skeleton w opened wsm in
    elim (Bool-cases done) [
      | inl e ↦
          rw (e, open_registered)
            (ap skeleton (answer_open-device c ret p (record d { device = left })) ∙ same)
      | inr e ↦ rw (e, open_registered) same
    ]

register-sessions :
    (w : World) (d : Device) (buffer len : ℕ)
    → (register_service w d buffer len).1.sessions ≡ d.sessions
unfolding register_service
register-sessions w d buffer len = ground arith

module _ (w : World) (c : ℕ) where
  abbrev pub Unused : Device → Type 0
  Unused d = (l : List Event) → Fresh (w.env.new_address l) d.sessions

  Kept-open_service :
      (d : Daemon) (obj : RegObject) (is_gpta : Bool) (t : TciRequest)
      → Distinct d.device.sessions
      → Unused d.device
      → Kept c d.device (open_service w d c obj is_gpta t).device
  unfolding open_service
  Kept-open_service d obj is_gpta t h f =
      let (found, device) = register_service w d.device obj.value obj.len in
      let shared : Daemon = record d { device = device } in
      let same = register-sessions w d.device obj.value obj.len in
      let h' : Distinct device.sessions = subst Distinct (sym same) h in
      let start : Kept c d.device device = Kept-same c d.device device (ap (map fixed) same) h in
      elim (Bool-cases (obj.len == 0)) [
        | inl e ↦ rw (e, open_service) (Kept-same c d.device d.device refl h)
        | inr e ↦ elim (Option-cases found) [
          | inl r ↦ rw (e, r, open_service) start
          | inr (wsm, r) ↦
              let opened =
                Kept-open_session w.env c device h'
                  (λ l. subst (Fresh (w.env.new_address l)) (sym same) (f l))
                  (w.socket_descriptor c) (load_data obj wsm is_gpta) t.handle t.len t.tci in
              let left =
                Kept-same c _ (open_registered w shared c obj is_gpta t wsm).device
                  (open_registered-device w shared c obj is_gpta t wsm) opened.distinct in
              rw (e, r, open_service) (Kept-trans start (Kept-trans opened left))
        ]
      ]

  pub Spares-open_session :
      (d : Daemon) (is_gp_uuid : Bool) (r : Received OpenSessionRequest)
      → Distinct d.device.sessions
      → Unused d.device
      → Spares c d (process_open_session w d c is_gp_uuid r)
  unfolding process_open_session
  Spares-open_session d is_gp_uuid r h f = recv_payload-Spares c c d h r _ (λ cmd.
      check_device-Spares c c d h _ (elim (Option-cases (find_service w d cmd.uuid is_gp_uuid)) [
        | inl e ↦ rw e (Kept-same c d.device d.device refl h)
        | inr (obj, e) ↦ rw e (Kept-open_service d obj is_gp_uuid cmd.buffer h f)
      ]))

  Spares-open_blob :
      (d : Daemon) (cmd : OpenTrustletRequest) (blob : List ℕ)
      → Distinct d.device.sessions
      → Unused d.device
      → Kept c d.device (open_blob w d c cmd blob).device
  unfolding open_blob
  Spares-open_blob d cmd blob h f =
      elim (Option-cases (w.mem_service_blob d.device.log cmd.spid blob)) [
        | inl e ↦ rw (e, open_blob) (Kept-same c d.device d.device refl h)
        | inr (obj, e) ↦ rw (e, open_blob) (Kept-open_service d obj false cmd.buffer h f)
      ]

  Spares-read :
      (d : Daemon) (cmd : OpenTrustletRequest) (r : Option (Option (List ℕ)))
      → Distinct d.device.sessions
      → Unused d.device
      → Spares c d (elim r as (λ _. Option Daemon) [
        | none ↦ none
        | some none ↦ some (write_result c daemon_socket d)
        | some (some blob) ↦ some (open_blob w d c cmd blob)
      ])
  Spares-read d cmd none h f = tt
  Spares-read d cmd (some none) h f = Kept-same c d.device d.device refl h
  Spares-read d cmd (some (some blob)) h f = Spares-open_blob d cmd blob h f

  pub Spares-open_trustlet :
      (fuel : ℕ) (d : Daemon) (reads : Reads) (r : Received OpenTrustletRequest)
      → Distinct d.device.sessions
      → Unused d.device
      → Spares c d (process_open_trustlet fuel w d c reads r)
  unfolding process_open_trustlet receive_blob
  Spares-open_trustlet fuel d reads r h f = recv_payload-Spares c c d h r _ (λ cmd.
      check_device-Spares c c d h _ (elim (Option-cases (w.malloc d.device.log cmd.trustlet_len)) [
        | inl e ↦ rw (e, receive_blob) (Kept-same c d.device d.device refl h)
        | inr (address, e) ↦
            rw (e, receive_blob)
              (Spares-read d cmd (read_trustlet fuel reads 0 cmd.trustlet_len []) h f)
      ]))
