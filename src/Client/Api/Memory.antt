-- ===== src/Client/Api/Memory.antt =====
-- mcMallocWsm, mcFreeWsm, mcMap, mcUnmap and mcGetSessionErrorCode.
use trustonic_tee_user_space.Prelude.{
  ℕ, ◌%◌, ◌^◌, List, [], ◌∷◌, Option, none, some, ◌==◌, if◌then◌else◌,
}
use trustonic_tee_user_space.Status.{
  mc_drv_ok, daemon_unreachable, invalid_parameter, daemon_device_not_open,
}
use trustonic_tee_user_space.Client.{
  KernelEvent, ClientSession, BulkBufferDescriptor, blk_buff_not_found,
}
use trustonic_tee_user_space.Client.Session.{
  get_last_err, add_bulk_buf, remove_bulk_buf, get_buf_handle,
}
use trustonic_tee_user_space.Client.Device.{
  allocate_contiguous_wsm, free_contiguous_wsm, find_contiguous_wsm, resolve_session_id,
}
use trustonic_tee_user_space.Client.Api.{
  Platform, Api, msg_map_bulk_buf, msg_unmap_bulk_buf, resolve_device_id, update_device, set_device,
  send_to_daemon, recv_code, received_from, check_device, check_session,
}
use trustonic_tee_user_space.Client.Api.Sessions.{check_not_null, drop_if_unreachable}

-- `wsm` is the pointer that the address is written through.
unfoldable pub mc_malloc_wsm : Platform → Api → (device_id len : ℕ) → (wsm : Option ℕ) → ℕ × Api
unfolding check_device check_not_null
mc_malloc_wsm p a device_id len wsm = elim (resolve_device_id a.devices device_id) [
  | none ↦
      if device_id == 0
      then (daemon_device_not_open, a)
      else check_device a device_id (λ _. (mc_drv_ok, a))
  | some d ↦ check_not_null wsm a (λ _.
      let (ret, made, device) =
        allocate_contiguous_wsm p.kernel d.device (p.new_object a.log) len in
      elim made [
        | none ↦ (ret, a)
        | some w ↦ (mc_drv_ok, record (set_device device_id device a) { out = some w.virt_addr })
      ])
]

-- `none` as in `free_contiguous_wsm`; the descriptor that is freed was found in the list.
unfoldable pub mc_free_wsm : Platform → Api → (device_id wsm : ℕ) → Option (ℕ × Api)
unfolding check_device
mc_free_wsm p a device_id wsm = elim (resolve_device_id a.devices device_id) [
  | none ↦ some (check_device a device_id (λ _. (mc_drv_ok, a)))
  | some d ↦ elim (find_contiguous_wsm d.device wsm) [
    | none ↦ some (invalid_parameter, a)
    | some w ↦ elim (free_contiguous_wsm p.kernel d.device w) [
      | none ↦ none
      | some (ret, device) ↦ some (ret, set_device device_id device a)
    ]
  ]
]

-- A write through a pointer to a session of the device.
unfoldable pub update_session :
    (session_id : ℕ) → (ClientSession → ClientSession) → List ClientSession → List ClientSession
update_session session_id f [] = []
update_session session_id f (s ∷ ss) =
    if s.session_id == session_id then f s ∷ ss else s ∷ update_session session_id f ss

unfoldable pub set_session :
    (device_id session_id : ℕ) → ClientSession → List KernelEvent → Api → Api
unfolding update_session
set_session device_id session_id s log a = record a {
  devices =
      update_device device_id
        (λ x. record x {
          device = record x.device {
            session_list = update_session session_id (λ _. s) x.device.session_list;
            log = log;
          };
        })
        a.devices;
}

-- What the session and the kernel module's history are now, if the session is still there.
unfoldable pub session_of :
    Api → (device_id session_id : ℕ) → Option (ClientSession × List KernelEvent)
session_of a device_id session_id = elim (resolve_device_id a.devices device_id) [
  | none ↦ none
  | some d ↦ elim (resolve_session_id d.device.session_list session_id) [
    | none ↦ none
    | some s ↦ some (s, d.device.log)
  ]
]

-- `session->removeBulkBuf(buf)`, with its code.
unfoldable pub remove_buffer_of : Platform → (device_id session_id buf : ℕ) → Api → ℕ × Api
unfolding session_of set_session
remove_buffer_of p device_id session_id buf a = elim (session_of a device_id session_id) [
  | none ↦ (mc_drv_ok, a)
  | some (s, log) ↦
      let (ret, s', log') = remove_bulk_buf p.kernel s log buf in
      (ret, set_session device_id session_id s' log' a)
]

-- The descriptor at the address gets its secure address.
unfoldable pub set_secure_address :
    (buf adr : ℕ) → List BulkBufferDescriptor → List BulkBufferDescriptor
set_secure_address buf adr [] = []
set_secure_address buf adr (b ∷ bs) =
    if b.virt_addr == buf
    then record b { s_virtual_addr = adr } ∷ bs
    else b ∷ set_secure_address buf adr bs

mapped_at : (device_id session_id buf adr : ℕ) → Api → Api
unfolding session_of set_session set_secure_address
mapped_at device_id session_id buf adr a = elim (session_of a device_id session_id) [
  | none ↦ a
  | some (s, log) ↦
      set_session device_id session_id
        (record s {
          bulk_buffer_descriptors = set_secure_address buf adr s.bulk_buffer_descriptors;
        })
        log a
]

-- With the buffer registered: a refusal of the daemon takes it back, an error of the socket does
-- not.
unfoldable pub map_registered :
    Platform → (device_id session_id connection buf : ℕ) → BulkBufferDescriptor → Api → ℕ × Api
unfolding send_to_daemon received_from remove_buffer_of mapped_at
map_registered p device_id session_id connection buf b a =
    send_to_daemon p connection
      (msg_map_bulk_buf session_id b.handle 0 (b.virt_addr % 2 ^ 12) b.len) a
      (λ a1. recv_code p connection a1 (λ code a2.
        if code == mc_drv_ok
        then recv_code p connection a2 (λ adr a3.
          (mc_drv_ok, record (mapped_at device_id session_id buf adr a3) { out = some adr }))
        else (daemon_unreachable, (remove_buffer_of p device_id session_id buf a2).1)))

-- The order of the null checks does not show: they give the same code. A buffer at 0 is null;
-- `map_info` is the pointer that the result is written through.
unfoldable pub mc_map :
    Platform → Api → (session : Option (ℕ × ℕ)) (buf len : ℕ) (map_info : Option ℕ) → ℕ × Api
unfolding check_device check_session map_registered set_session check_not_null
mc_map p a none buf len map_info = (invalid_parameter, a)
mc_map p a (some (device_id, session_id)) buf len map_info = check_not_null map_info a (λ _.
    if buf == 0
    then (invalid_parameter, a)
    else check_device a device_id (λ d. check_session a d session_id (λ s.
      let (ret, added, s', log') = add_bulk_buf p.kernel s d.device.log buf len in
      elim added [
        | none ↦ (ret, a)
        | some b ↦
            map_registered p device_id session_id d.connection buf b
              (set_session device_id session_id s' log' a)
      ])))

-- Whatever code the daemon refuses with, the result is that of an unreachable daemon.
unfoldable pub unmap_response : Platform → (device_id session_id buf code : ℕ) → Api → ℕ × Api
unfolding remove_buffer_of
unmap_response p device_id session_id buf code a =
    if code == mc_drv_ok
    then remove_buffer_of p device_id session_id buf a
    else (daemon_unreachable, a)

unfoldable pub unmap_session_buffer :
    Platform → (device_id session_id connection buf adr len : ℕ) → ClientSession → Api → ℕ × Api
unfolding send_to_daemon received_from unmap_response
unmap_session_buffer p device_id session_id connection buf adr len s a =
    let handle = get_buf_handle s.bulk_buffer_descriptors adr len in
    if handle == 0
    then (blk_buff_not_found, a)
    else send_to_daemon p connection (msg_unmap_bulk_buf session_id handle adr len) a
        (λ a1. recv_code p connection a1 (unmap_response p device_id session_id buf))

-- `map_info` points to secure address and length.
unfoldable pub mc_unmap :
    Platform → Api → (session : Option (ℕ × ℕ)) (buf : ℕ) (map_info : Option (ℕ × ℕ)) → ℕ × Api
unfolding check_device check_session unmap_session_buffer drop_if_unreachable
mc_unmap p a none buf map_info = (invalid_parameter, a)
mc_unmap p a (some (device_id, session_id)) buf none = (invalid_parameter, a)
mc_unmap p a (some (device_id, session_id)) buf (some (adr, len)) =
    if buf == 0
    then (invalid_parameter, a)
    else if adr == 0
    then (invalid_parameter, a)
    else drop_if_unreachable p device_id (
        check_device a device_id (λ d.
          check_session a d session_id
            (λ s. unmap_session_buffer p device_id session_id d.connection buf adr len s a)))

-- `last_err` is the pointer that the code is written through.
unfoldable pub mc_get_session_error_code :
    Api → (session : Option (ℕ × ℕ)) (last_err : Option ℕ) → ℕ × Api
unfolding check_device check_session check_not_null
mc_get_session_error_code a none last_err = (invalid_parameter, a)
mc_get_session_error_code a (some (device_id, session_id)) last_err =
    check_not_null last_err a (λ _. check_device a device_id (λ d.
      check_session a d session_id (λ s. (mc_drv_ok, record a { out = some (get_last_err s) }))))
