-- ===== src/Client/Api/Refused.antt =====
-- What a refusal of the daemon does to the client's devices.
use trustonic_tee_user_space.Prelude.{
  ℕ, ◌≡◌, ◌≢◌, refl, sym, ap, ◌∙◌, true, false, List, [], ◌∷◌, none, some, arith, ◌==◌,
  Option-cases, inl, inr,
}
use trustonic_tee_user_space.Status.{mc_drv_ok, daemon_unreachable}
use trustonic_tee_user_space.Client.{ClientSession}
use trustonic_tee_user_space.Client.Session.{get_buf_handle}
use trustonic_tee_user_space.Client.Device.{resolve_session_id}
use trustonic_tee_user_space.Client.Api.{
  Platform, Api, OpenDevice, Message, Received, got, happened, sent, received, msg_unmap_bulk_buf,
  resolve_device_id, without_device, remove_device, recv_code, send_to_daemon, received_from,
  check_device, check_session,
}
use trustonic_tee_user_space.Client.Api.Sessions.{drop_if_unreachable}
use trustonic_tee_user_space.Client.Api.Memory.{unmap_response, unmap_session_buffer, mc_unmap}

pub check_device-found :
    (a : Api) (device_id : ℕ) (d : OpenDevice) (next : OpenDevice → ℕ × Api)
    → resolve_device_id a.devices device_id ≡ some d
    → check_device a device_id next ≡ next d
unfolding check_device
check_device-found a device_id d next e = rw (e, check_device) refl

pub check_session-found :
    (a : Api) (d : OpenDevice) (session_id : ℕ) (s : ClientSession) (next : ClientSession → ℕ × Api)
    → resolve_session_id d.device.session_list session_id ≡ some s
    → check_session a d session_id next ≡ next s
unfolding check_session
check_session-found a d session_id s next e = rw (e, check_session) refl

send_to_daemon-done :
    (p : Platform) (connection : ℕ) (m : Message) (a : Api) (next : Api → ℕ × Api)
    → p.send a.log connection m ≡ true
    → send_to_daemon p connection m a next ≡ next (happened (sent connection m) a)
unfolding send_to_daemon
send_to_daemon-done p connection m a next e = rw (e, send_to_daemon) refl

received_from-got :
    (connection : ℕ) (r : Received ℕ) (x : ℕ) (a : Api) (next : ℕ → Api → ℕ × Api)
    → r ≡ got x
    → received_from connection r a next ≡ next x (happened (received connection) a)
unfolding received_from
received_from-got connection r x a next e = ap (λ y. received_from connection y a next) e

without-absent :
    (ds : List OpenDevice) (device_id : ℕ)
    → resolve_device_id ds device_id ≡ none
    → without_device ds device_id ≡ ds
unfolding resolve_device_id without_device
without-absent [] device_id e = refl
without-absent (d ∷ ds) device_id e = ground (arith, without-absent ds device_id)

remove_device-devices :
    (p : Platform) (a : Api) (device_id : ℕ)
    → (remove_device p a device_id).devices ≡ without_device a.devices device_id
unfolding remove_device
remove_device-devices p a device_id = elim (Option-cases (resolve_device_id a.devices device_id)) [
  | inl e ↦ rw (e, remove_device) (sym (without-absent a.devices device_id e))
  | inr (d, e) ↦ rw (e, remove_device) refl
]

module _ (p : Platform) (a : Api) (device_id session_id buf adr len code handle : ℕ)
    (d : OpenDevice) (s : ClientSession)
    (known : get_buf_handle s.bulk_buffer_descriptors adr len ≡ handle) (valid : handle ≢ 0)
    (told : p.send a.log d.connection (msg_unmap_bulk_buf session_id handle adr len) ≡ true)
    (answered : p.recv_number
        (sent d.connection (msg_unmap_bulk_buf session_id handle adr len) ∷ a.log)
        d.connection
      ≡ got code)
    (refused : code ≢ mc_drv_ok) where
  -- The state after the exchange.
  abbrev after : Api
  after =
      happened (received d.connection)
        (happened (sent d.connection (msg_unmap_bulk_buf session_id handle adr len)) a)

  unmap_session_buffer-refused :
      unmap_session_buffer p device_id session_id d.connection buf adr len s a
      ≡ (daemon_unreachable, after)
  unfolding unmap_session_buffer unmap_response
  unmap_session_buffer-refused =
      let m = msg_unmap_bulk_buf session_id handle adr len in
      let next = unmap_response p device_id session_id buf in
      let nonzero : (handle == 0) ≡ false = ground arith in
      let bad : (code == mc_drv_ok) ≡ false = ground arith in
      rw (known, nonzero)
        (send_to_daemon-done p d.connection m a (λ a1. recv_code p d.connection a1 next) told
          ∙ received_from-got d.connection _ code (happened (sent d.connection m) a) next answered
          ∙ rw bad refl)

-- A daemon that takes the request and refuses it, with whatever code, is taken for a dead
-- connection: the client's device is deleted, with all its sessions.
pub mc_unmap-refused :
    (p : Platform) (a : Api) (device_id session_id buf adr len code : ℕ) (d : OpenDevice)
    (s : ClientSession)
    → resolve_device_id a.devices device_id ≡ some d
    → resolve_session_id d.device.session_list session_id ≡ some s
    → buf ≢ 0
    → adr ≢ 0
    → get_buf_handle s.bulk_buffer_descriptors adr len ≢ 0
    → let m =
        msg_unmap_bulk_buf session_id (get_buf_handle s.bulk_buffer_descriptors adr len) adr len in
      p.send a.log d.connection m ≡ true
      → p.recv_number (sent d.connection m ∷ a.log) d.connection ≡ got code
      → code ≢ mc_drv_ok
      → let (ret, a') = mc_unmap p a (some (device_id, session_id)) buf (some (adr, len)) in
        (ret ≡ daemon_unreachable) × (a'.devices ≡ without_device a.devices device_id)
unfolding mc_unmap drop_if_unreachable
mc_unmap-refused p a device_id session_id buf adr len code d s e es b0 a0 h0 told answered bad =
    let handle = get_buf_handle s.bulk_buffer_descriptors adr len in
    let left =
      after p a device_id session_id buf adr len code handle d s refl h0 told answered bad in
    let found : (d : OpenDevice) → ℕ × Api = λ d.
      check_session a d session_id
        (λ s. unmap_session_buffer p device_id session_id d.connection buf adr len s a) in
    let refused : check_device a device_id found ≡ (daemon_unreachable, left) =
      check_device-found a device_id d found e
      ∙ check_session-found a d session_id s
          (λ s. unmap_session_buffer p device_id session_id d.connection buf adr len s a) es
      ∙ unmap_session_buffer-refused p a device_id session_id buf adr len code handle d s refl h0
          told answered bad in
    let buf_ok : (buf == 0) ≡ false = ground arith in
    let adr_ok : (adr == 0) ≡ false = ground arith in
    let whole : mc_unmap p a (some (device_id, session_id)) buf (some (adr, len))
        ≡ (daemon_unreachable, remove_device p left device_id) =
      rw (buf_ok, adr_ok) (ap (drop_if_unreachable p device_id) refused) in
    (ap (λ r. r.0) whole, ap (λ r. r.1.devices) whole ∙ remove_device-devices p left device_id)
