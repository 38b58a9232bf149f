-- ===== src/Client/Api/Sessions.antt =====
-- mcOpenSession, mcOpenGPTA, mcOpenTrustlet, mcCloseSession and mcNotify.
use trustonic_tee_user_space.Prelude.{
  ℕ, ◌%◌, ◌^◌, List, [], ◌∷◌, ◌++◌, Option, none, some, ◌==◌, ◌&&◌, not, if◌then◌else◌, ltb,
}
use trustonic_tee_user_space.Status.{
  mc_drv_ok, daemon_unreachable, unknown_device, invalid_parameter, tci_greater_than_wsm,
  wsm_handle_not_found,
}
use trustonic_tee_user_space.Client.{ClientDevice, BulkBufferDescriptor}
use trustonic_tee_user_space.Client.Session.{new_session, append_bulk_buf}
use trustonic_tee_user_space.Client.Device.{find_contiguous_wsm, map_bulk_buf, remove_session}
use trustonic_tee_user_space.Client.Api.{
  Platform, Api, OpenDevice, OpenedPayload, Message, happened, connected, connect_failed,
  socket_deleted, msg_open_session, msg_open_trusted_app, msg_open_trustlet, msg_trustlet_data,
  msg_nq_connect, msg_close_session, msg_notify, update_device, set_device, remove_device,
  send_to_daemon, recv_code, received_from, check_device, check_session,
}
use trustonic_tee_user_space.Client.Api.Codes.{
  open_error, open_session_codes, open_gpta_codes, open_trustlet_codes,
}

-- `CHECK_NOT_NULL`; a pointer is `none` or what it points to.
unfoldable pub check_not_null : Option ℕ → Api → (ℕ → ℕ × Api) → ℕ × Api
check_not_null none a next = (invalid_parameter, a)
check_not_null (some x) a next = next x

abbrev pub mc_max_tci_len : ℕ
mc_max_tci_len = 0x100000

-- What the rest of an open call takes: the handle, 0 for none, and the descriptor of a buffer
-- that was registered for it.
abbrev pub AfterTci : Type 0
AfterTci = (handle : ℕ) → Option BulkBufferDescriptor → Api → ℕ × Api

-- Registers the TCI as a buffer of the client's.
unfoldable pub register_tci :
    Platform → Api → OpenDevice → (device_id tci len : ℕ) → AfterTci → ℕ × Api
register_tci p a d device_id tci len next =
    let (ret, bulk, device) = map_bulk_buf p.kernel d.device tci len in
    elim bulk [
      | none ↦ (wsm_handle_not_found, a)
      | some b ↦ next b.handle (some b) (set_device device_id device a)
    ]

-- mcOpenSession and mcOpenGPTA: a contiguous buffer, else any buffer; neither is needed.
unfoldable pub with_tci : Platform → Api → OpenDevice → (device_id tci len : ℕ) → AfterTci → ℕ × Api
unfolding register_tci
with_tci p a d device_id tci len next = elim (find_contiguous_wsm d.device tci) [
  | some w ↦ if ltb w.len len then (tci_greater_than_wsm, a) else next w.handle none a
  | none ↦
      if not (tci == 0) && not (len == 0)
      then register_tci p a d device_id tci len next
      else if not (len == 0)
      then (tci_greater_than_wsm, a)
      else next 0 none a
]

-- mcOpenTrustlet: the buffer is needed.
unfoldable pub with_trustlet_tci :
    Platform → Api → OpenDevice → (device_id tci len : ℕ) → AfterTci → ℕ × Api
unfolding register_tci
with_trustlet_tci p a d device_id tci len next = elim (find_contiguous_wsm d.device tci) [
  | some w ↦ if ltb w.len len then (tci_greater_than_wsm, a) else next w.handle none a
  | none ↦ register_tci p a d device_id tci len next
]

-- `createNewSession` and, if there is one, `addBulkBuf` of the descriptor.
unfoldable pub add_session :
    (session_id connection : ℕ) → Option BulkBufferDescriptor → ClientDevice → ClientDevice
add_session session_id connection bulk d = record d {
  session_list = d.session_list ++ append_bulk_buf (new_session session_id connection) bulk ∷ [];
}

-- The second connection, for notifications; on every error the daemon keeps the session.
unfoldable pub connect_notifications :
    Platform → (device_id : ℕ) → OpenedPayload → Option BulkBufferDescriptor → Api → ℕ × Api
unfolding send_to_daemon received_from add_session
connect_notifications p device_id o bulk a = elim (p.connect a.log) [
  | none ↦ (daemon_unreachable, happened connect_failed a)
  | some nq ↦
      let message = msg_nq_connect device_id o.session_id o.device_session_id o.session_magic in
      let (code, a') =
        send_to_daemon p nq message (happened (connected nq) a)
          (λ a1. recv_code p nq a1 (λ code a2. (code, a2))) in
      if code == mc_drv_ok
      then (
        mc_drv_ok,
        record a' {
          devices =
              update_device device_id
                (λ x. record x { device = add_session o.session_id nq bulk x.device }) a'.devices;
        },
      )
      else (code, happened (socket_deleted nq) a')
]

-- The payload of a response of success.
unfoldable pub take_payload :
    Platform → (device_id : ℕ) → Option BulkBufferDescriptor → OpenedPayload → Api → ℕ × Api
unfolding connect_notifications
take_payload p device_id bulk o a =
    connect_notifications p device_id o bulk (record a { out = some o.session_id })

-- What follows the response's code.
unfoldable pub take_response :
    Platform
    → (codes : List (ℕ × ℕ)) (device_id connection : ℕ) → Option BulkBufferDescriptor
    → (code : ℕ) → Api
    → ℕ × Api
unfolding received_from open_error take_payload
take_response p codes device_id connection bulk code a =
    if code == mc_drv_ok
    then received_from connection (p.recv_opened a.log connection) a (take_payload p device_id bulk)
    else (open_error codes code, a)

-- What follows the request: the response, its payload, and the connection for notifications. A
-- descriptor is deleted on an error, which does not unregister its buffer.
unfoldable pub finish_open :
    Platform
    → (codes : List (ℕ × ℕ)) (device_id connection : ℕ) → Option BulkBufferDescriptor
    → Api
    → ℕ × Api
unfolding received_from take_response
finish_open p codes device_id connection bulk a =
    recv_code p connection a (take_response p codes device_id connection bulk)

-- The calls that name a service by its uuid differ in the message and in the codes. `session`
-- points to the handle with the device id.
unfoldable pub open_by_uuid :
    Platform
    → (codes : List (ℕ × ℕ)) → ((device_id uuid tci handle len : ℕ) → Message)
    → Api
    → (session uuid : Option ℕ) (tci len : ℕ) → ℕ × Api
unfolding check_not_null check_device with_tci send_to_daemon finish_open
open_by_uuid p codes message a session uuid tci len = check_not_null session a (λ device_id.
    check_not_null uuid a (λ u.
      if ltb mc_max_tci_len len
      then (invalid_parameter, a)
      else check_device a device_id (λ d. with_tci p a d device_id tci len (λ handle bulk a1.
        send_to_daemon p d.connection (message device_id u (tci % 2 ^ 12) handle len) a1
          (finish_open p codes device_id d.connection bulk)))))

unfoldable pub mc_open_session :
    Platform → Api → (session uuid : Option ℕ) → (tci len : ℕ) → ℕ × Api
unfolding open_by_uuid
mc_open_session p = open_by_uuid p open_session_codes msg_open_session

unfoldable pub mc_open_gpta : Platform → Api → (session uuid : Option ℕ) → (tci len : ℕ) → ℕ × Api
unfolding open_by_uuid
mc_open_gpta p = open_by_uuid p open_gpta_codes msg_open_trusted_app

-- A TCI at address 0 is a null pointer.
unfoldable pub mc_open_trustlet :
    Platform
    → Api
    → (session : Option ℕ) (spid : ℕ) (trustlet : Option ℕ) (tlen tci len : ℕ) → ℕ × Api
unfolding check_not_null check_device with_trustlet_tci send_to_daemon finish_open
mc_open_trustlet p a session spid trustlet tlen tci len = check_not_null session a (λ device_id.
    check_not_null trustlet a (λ t. check_not_null (if tci == 0 then none else some tci) a (λ _.
      if ltb mc_max_tci_len len
      then (invalid_parameter, a)
      else check_device a device_id (λ d.
        with_trustlet_tci p a d device_id tci len (λ handle bulk a1.
          send_to_daemon p d.connection
            (msg_open_trustlet device_id spid tlen (tci % 2 ^ 12) handle len) a1
            (λ a2.
              send_to_daemon p d.connection (msg_trustlet_data t tlen) a2
                (finish_open p open_trustlet_codes device_id d.connection bulk)))))))

-- The end of the calls that take an unreachable daemon for a dead connection: the device is
-- deleted, with all its sessions.
unfoldable pub drop_if_unreachable : Platform → (device_id : ℕ) → ℕ × Api → ℕ × Api
drop_if_unreachable p device_id (code, a) =
    (code, if code == daemon_unreachable then remove_device p a device_id else a)

-- The session goes once the daemon has closed it.
close_answered : Platform → (device_id session_id : ℕ) → Api → Api
close_answered p device_id session_id a = record a {
  devices =
      update_device device_id
        (λ x. record x { device = (remove_session p.kernel x.device session_id).1 }) a.devices;
}

unfoldable pub mc_close_session : Platform → Api → (session : Option (ℕ × ℕ)) → ℕ × Api
unfolding check_device check_session send_to_daemon received_from drop_if_unreachable close_answered
mc_close_session p a none = (invalid_parameter, a)
mc_close_session p a (some (device_id, session_id)) = drop_if_unreachable p device_id (
    check_device a device_id (λ d. check_session a d session_id (λ s.
      send_to_daemon p d.connection (msg_close_session session_id) a (λ a1.
        recv_code p d.connection a1 (λ code a2.
          if code == mc_drv_ok
          then (mc_drv_ok, close_answered p device_id session_id a2)
          else (unknown_device, a2))))))

unfoldable pub mc_notify : Platform → Api → (session : Option (ℕ × ℕ)) → ℕ × Api
unfolding check_device check_session send_to_daemon drop_if_unreachable
mc_notify p a none = (invalid_parameter, a)
mc_notify p a (some (device_id, session_id)) = drop_if_unreachable p device_id (
    check_device a device_id (λ d.
      check_session a d session_id
        (λ s. send_to_daemon p d.connection (msg_notify session_id) a (λ a1. (mc_drv_ok, a1)))))
