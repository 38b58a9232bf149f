-- ===== src/Client/Api/Openings.antt =====
-- The outcome of mcOpenSession and mcOpenGPTA, from the arguments on.
use trustonic_tee_user_space.Prelude.{
  ℕ, ◌%◌, ◌^◌, ◌≡◌, refl, subst, sym, not, List, Option, none, some, arith, ◌==◌, ◌&&◌, ltb,
  Bool-cases, Option-cases, ◌⊎◌, inl, inr,
}
use trustonic_tee_user_space.Status.{mc_drv_ok}
use trustonic_tee_user_space.Client.{ClientDevice, BulkBufferDescriptor}
use trustonic_tee_user_space.Client.Device.{find_contiguous_wsm, map_bulk_buf}
use trustonic_tee_user_space.Client.Api.{
  Platform, Api, OpenDevice, Message, msg_open_session, msg_open_trusted_app, resolve_device_id,
  set_device, send_to_daemon, check_device,
}
use trustonic_tee_user_space.Client.Api.Codes.{open_session_codes, open_gpta_codes}
use trustonic_tee_user_space.Client.Api.Sessions.{
  mc_max_tci_len, check_not_null, register_tci, with_tci, finish_open, open_by_uuid,
  mc_open_session, mc_open_gpta,
}
use trustonic_tee_user_space.Client.Api.Opened.{NoSuccess, Opened, send-Opened, finish_open-Opened}

-- The connection of the device, if it is open.
abbrev pub connection_of : Api → (device_id : ℕ) → ℕ
connection_of a device_id = elim (resolve_device_id a.devices device_id) [
  | none ↦ 0
  | some d ↦ d.connection
]

-- The outcome of an open call that names a service: with the session, and either the devices as
-- they were but for it, or with the TCI registered as a buffer before.
abbrev pub Outcome : Platform → Api → (device_id tci len : ℕ) → ℕ × Api → Type 0
Outcome p a device_id tci len r =
    Opened p device_id (connection_of a device_id) none a.log a.devices r
    ⊎ ((d : OpenDevice) × (b : BulkBufferDescriptor) × (device : ClientDevice) × (resolve_device_id
            a.devices device_id
          ≡ some d)
        × (map_bulk_buf p.kernel d.device tci len ≡ (mc_drv_ok, some b, device))
        × Opened p device_id d.connection (some b) a.log (set_device device_id device a).devices r)

module _ (p : Platform) (codes : List (ℕ × ℕ)) (no_success : NoSuccess codes)
    (message : (device_id uuid tci handle len : ℕ) → Message) where
  sent-Opened :
      (device_id connection : ℕ) (m : Message) (bulk : Option BulkBufferDescriptor) (a : Api)
      → Opened p device_id connection bulk a.log a.devices
          (send_to_daemon p connection m a (finish_open p codes device_id connection bulk))
  sent-Opened device_id connection m bulk a =
      let next = finish_open p codes device_id connection bulk in
      send-Opened p device_id connection bulk m a next (λ a1 same.
        subst (λ ds. Opened p device_id connection bulk a1.log ds (next a1)) same
          (finish_open-Opened p codes device_id connection bulk a1 no_success))

  map_bulk_buf-code :
      (d : ClientDevice) (tci len : ℕ) (b : BulkBufferDescriptor)
      → (map_bulk_buf p.kernel d tci len).1 ≡ some b
      → map_bulk_buf p.kernel d tci len ≡ (mc_drv_ok, some b, (map_bulk_buf p.kernel d tci len).2)
  unfolding map_bulk_buf
  map_bulk_buf-code d tci len b e = ground (arith, e)

  module _ (a : Api) (device_id tci len : ℕ) (d : OpenDevice)
      (found : resolve_device_id a.devices device_id ≡ some d)
      (next : (handle : ℕ) → Option BulkBufferDescriptor → Api → ℕ × Api)
      (rest : (handle : ℕ) (bulk : Option BulkBufferDescriptor) (a1 : Api)
        → Opened p device_id d.connection bulk a1.log a1.devices (next handle bulk a1)) where
    own :
        (r : ℕ × Api)
        → Opened p device_id d.connection none a.log a.devices r
        → Opened p device_id (connection_of a device_id) none a.log a.devices r
    own r =
        let same : connection_of a device_id ≡ d.connection = rw (found, connection_of) refl in
        subst (λ c. Opened p device_id c none a.log a.devices r) (sym same)

    register_tci-Outcome : Outcome p a device_id tci len (register_tci p a d device_id tci len next)
    unfolding register_tci
    register_tci-Outcome = elim (Option-cases (map_bulk_buf p.kernel d.device tci len).1) [
      | inl e ↦ rw (e, register_tci) (inl (inr (omega arith, refl)))
      | inr (b, e) ↦
          let device = (map_bulk_buf p.kernel d.device tci len).2 in
          rw (e, register_tci)
            (inr (
              d,
              b,
              device,
              found,
              map_bulk_buf-code d.device tci len b e,
              rest b.handle (some b) (set_device device_id device a),
            ))
    ]

    with_tci-Outcome : Outcome p a device_id tci len (with_tci p a d device_id tci len next)
    unfolding with_tci
    with_tci-Outcome = elim (Option-cases (find_contiguous_wsm d.device tci)) [
      | inr (w, e) ↦ elim (Bool-cases (ltb w.len len)) [
        | inl short ↦ rw (e, short, with_tci) (inl (inr (omega arith, refl)))
        | inr fits ↦ rw (e, fits, with_tci) (inl (own _ (rest w.handle none a)))
      ]
      | inl e ↦ elim (Bool-cases (not (tci == 0) && not (len == 0))) [
        | inl given ↦ rw (e, given, with_tci) register_tci-Outcome
        | inr absent ↦ elim (Bool-cases (not (len == 0))) [
          | inl long ↦ rw (e, absent, long, with_tci) (inl (inr (omega arith, refl)))
          | inr zero ↦ rw (e, absent, zero, with_tci) (inl (own _ (rest 0 none a)))
        ]
      ]
    ]

  check_device-Outcome :
      (a : Api) (device_id tci len : ℕ) (next : OpenDevice → ℕ × Api)
      → ((d : OpenDevice)
          → resolve_device_id a.devices device_id ≡ some d
          → Outcome p a device_id tci len (next d))
      → Outcome p a device_id tci len (check_device a device_id next)
  unfolding check_device
  check_device-Outcome a device_id tci len next h =
      elim (Option-cases (resolve_device_id a.devices device_id)) [
        | inl e ↦ rw (e, check_device) (inl (inr (omega arith, refl)))
        | inr (d, e) ↦
            let here : check_device a device_id next ≡ next d = rw (e, check_device) refl in
            subst (Outcome p a device_id tci len) (sym here) (h d e)
      ]

  open_by_uuid-Outcome :
      (a : Api) (device_id : ℕ) (uuid : Option ℕ) (tci len : ℕ)
      → Outcome p a device_id tci len (open_by_uuid p codes message a (some device_id) uuid tci len)
  unfolding open_by_uuid check_not_null
  open_by_uuid-Outcome a device_id none tci len = inl (inr (omega arith, refl))
  open_by_uuid-Outcome a device_id (some u) tci len = elim (Bool-cases (ltb mc_max_tci_len len)) [
    | inl long ↦ rw (long, open_by_uuid) (inl (inr (omega arith, refl)))
    | inr fits ↦
        rw (fits, open_by_uuid)
          (check_device-Outcome a device_id tci len _ (λ d e.
            let next : ℕ → Option BulkBufferDescriptor → Api → ℕ × Api = λ handle bulk a1.
              send_to_daemon p d.connection (message device_id u (tci % 2 ^ 12) handle len) a1
                (finish_open p codes device_id d.connection bulk) in
            with_tci-Outcome a device_id tci len d e next (λ handle bulk a1.
              sent-Opened device_id d.connection (message device_id u (tci % 2 ^ 12) handle len)
                bulk a1)))
  ]

open_session_codes-NoSuccess : NoSuccess open_session_codes
open_session_codes-NoSuccess = search arith

-- mcOpenSession either succeeds: one session more on the device, under the id that the daemon sent over
-- the device's connection during the call, and that the caller is given, with the socket that was
-- connected for it during the call; or it fails and adds none. In both cases the TCI, if it was
-- registered with the kernel module for the call, stays registered.
pub mc_open_session-Outcome :
    (p : Platform) (a : Api) (device_id : ℕ) (uuid : Option ℕ) (tci len : ℕ)
    → Outcome p a device_id tci len (mc_open_session p a (some device_id) uuid tci len)
unfolding mc_open_session
mc_open_session-Outcome p a device_id uuid tci len =
    open_by_uuid-Outcome p open_session_codes open_session_codes-NoSuccess msg_open_session a
      device_id uuid tci len

open_gpta_codes-NoSuccess : NoSuccess open_gpta_codes
open_gpta_codes-NoSuccess = search arith

-- mcOpenGPTA either succeeds: one session more on the device, under the id that the daemon sent over
-- the device's connection during the call, and that the caller is given, with the socket that was
-- connected for it during the call; or it fails and adds none. In both cases the TCI, if it was
-- registered with the kernel module for the call, stays registered.
pub mc_open_gpta-Outcome :
    (p : Platform) (a : Api) (device_id : ℕ) (uuid : Option ℕ) (tci len : ℕ)
    → Outcome p a device_id tci len (mc_open_gpta p a (some device_id) uuid tci len)
unfolding mc_open_gpta
mc_open_gpta-Outcome p a device_id uuid tci len =
    open_by_uuid-Outcome p open_gpta_codes open_gpta_codes-NoSuccess msg_open_trusted_app a
      device_id uuid tci len
