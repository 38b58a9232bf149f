-- ===== src/Daemon/Others.antt =====
-- No command of one connection, but for NQ_CONNECT, touches the sessions of another.
use trustonic_tee_user_space.Prelude.{
  ℕ, ◌≡◌, refl, subst, ap, true, false, List, map, arith, ◌==◌, Bool-cases, Option-cases, inl, inr,
}
use trustonic_tee_user_space.Status.{mc_drv_ok}
use trustonic_tee_user_space.Device.{Device, Env, Event, cmd_get_mobicore_version}
use trustonic_tee_user_space.Device.Mcp.{mcp_command, notify_session}
use trustonic_tee_user_space.Device.Sessions.{notify}
use trustonic_tee_user_space.Device.Commands.{map_bulk, unmap_bulk, get_mobicore_version}
use trustonic_tee_user_space.Device.Mapping.{map_bulk-others, unmap_bulk-others}
use trustonic_tee_user_space.Device.Open.{lock_wsm_l2}
use trustonic_tee_user_space.Device.Close.{close}
use trustonic_tee_user_space.Device.Ownership.{Fresh, Distinct}
use trustonic_tee_user_space.Device.Skeleton.{fixed, skeleton, mcp_command-Framed}
use trustonic_tee_user_space.Daemon.{
  World, Daemon, Received, read_failed, wrong_length, payload, has_device,
}
use trustonic_tee_user_space.Daemon.Process.{
  MapRequest, UnmapRequest, device_id_default, process_open_device, close_device, map_locked,
  process_close_device, process_close_session, process_notify, process_map_bulk_buf,
  process_unmap_bulk_buf, process_get_version, process_get_mobicore_version,
}
use trustonic_tee_user_space.Daemon.Dispatch.{
  Request, open_device, close_device_request, open_session_request, open_trustlet, open_trusted_app,
  close_session_request, nq_connect, notify_request, map_bulk_buf_request, unmap_bulk_buf_request,
  get_version, get_mobicore_version_request, handle_command,
}
use trustonic_tee_user_space.Daemon.Kept.{
  Kept, Kept-trans, Kept-same, Kept-close_session, KeptOption, Kept-close,
}
use trustonic_tee_user_space.Daemon.Isolation.{
  Spares, recv_payload-Spares, check_device-Spares, Spares-open_session, Spares-open_trustlet,
}

notify-skeleton :
    (d : Device) (connection session_id : ℕ)
    → skeleton (notify d connection session_id).1 ≡ skeleton d
unfolding notify notify_session
notify-skeleton d connection session_id = ground arith

get_mobicore_version-skeleton :
    (env : Env) (d : Device) → skeleton (get_mobicore_version env d).2 ≡ skeleton d
unfolding get_mobicore_version
get_mobicore_version-skeleton env d =
    let framed = mcp_command-Framed env cmd_get_mobicore_version d in
    elim (Option-cases d.mc_version_info) [
      | inr (v, e) ↦ rw (e, get_mobicore_version) refl
      | inl e ↦ elim (Bool-cases ((mcp_command env cmd_get_mobicore_version d).0 == mc_drv_ok)) [
        | inl ok ↦ rw (e, ok, get_mobicore_version) framed.same_sessions
        | inr bad ↦ rw (e, bad, get_mobicore_version) framed.same_sessions
      ]
    ]

lock-sessions :
    (env : Env) (d : Device) (handle : ℕ) → (lock_wsm_l2 env d handle).1.sessions ≡ d.sessions
unfolding lock_wsm_l2
lock-sessions env d handle = ground arith

module _ (w : World) (c : ℕ) where
  Kept-map_locked :
      (d : Daemon) (cmd : MapRequest)
      → Distinct d.device.sessions
      → Kept c d.device (map_locked w d c cmd).device
  unfolding map_locked
  Kept-map_locked d cmd h =
      let p_addr_l2 = w.env.find_wsm d.device.log cmd.handle (w.socket_descriptor c) in
      let (same, h') =
        map_bulk-others w.env d.device c cmd.session_id cmd.handle p_addr_l2 cmd.offset_payload
          cmd.len_bulk_mem h in
      elim (Bool-cases (p_addr_l2 == 0)) [
        | inl e ↦ rw (e, map_locked) (Kept-same c d.device d.device refl h)
        | inr e ↦
            elim (Option-cases
              (map_bulk w.env d.device c cmd.session_id cmd.handle p_addr_l2 cmd.offset_payload
                cmd.len_bulk_mem).1) [
                  | inl r ↦ rw (e, r, map_locked) (record { untouched = same; distinct = h' })
                  | inr (adr, r) ↦
                      rw (e, r, map_locked) (record { untouched = same; distinct = h' })
                ]
      ]

  module _ (d : Daemon) (h : Distinct d.device.sessions) where
    Spares-open_device : (r : Received ℕ) → Spares c d (process_open_device d c r)
    unfolding process_open_device
    Spares-open_device r = recv_payload-Spares c c d h r _ (λ device_id.
        elim (Bool-cases (has_device c d.opened)) [
          | inl e ↦ rw e (Kept-same c d.device d.device refl h)
          | inr e ↦ elim (Bool-cases (device_id == device_id_default)) [
            | inl i ↦ rw (e, i) (Kept-same c d.device d.device refl h)
            | inr i ↦ rw (e, i) (Kept-same c d.device d.device refl h)
          ]
        ])

    Spares-close_device : (fuel : ℕ) → Spares c d (close_device fuel w d c)
    unfolding close_device
    Spares-close_device fuel =
        let kept = Kept-close fuel w.env c d.device h in
        elim (Option-cases (close fuel w.env d.device c)) [
          | inl e ↦ rw (e, close_device) tt
          | inr (left, e) ↦
              let k : Kept c d.device left = subst (KeptOption c d.device) e kept in
              rw (e, close_device) k
        ]

    Spares-process_close_device : (fuel : ℕ) → Spares c d (process_close_device fuel w d c)
    unfolding process_close_device
    Spares-process_close_device fuel =
        let kept = Spares-close_device fuel in
        check_device-Spares c c d h _ (elim (Option-cases (close_device fuel w d c)) [
          | inl e ↦ rw e tt
          | inr (d', e) ↦ let k : Kept c d.device d'.device = subst (Spares c d) e kept in rw e k
        ])

    Spares-close_session : (r : Received ℕ) → Spares c d (process_close_session w d c r)
    unfolding process_close_session
    Spares-close_session r =
        recv_payload-Spares c c d h r _
          (λ id. check_device-Spares c c d h _ (Kept-close_session w.env c id d.device h))

    Spares-notify : (r : Received ℕ) → Kept c d.device (process_notify d c r).device
    unfolding process_notify
    Spares-notify read_failed = Kept-same c d.device d.device refl h
    Spares-notify wrong_length = Kept-same c d.device d.device refl h
    Spares-notify (payload id) = elim (Bool-cases (has_device c d.opened)) [
      | inl e ↦
          rw (e, process_notify)
            (Kept-same c d.device (notify d.device c id).1 (notify-skeleton d.device c id) h)
      | inr e ↦ rw (e, process_notify) (Kept-same c d.device d.device refl h)
    ]

    Spares-map : (r : Received MapRequest) → Spares c d (process_map_bulk_buf w d c r)
    unfolding process_map_bulk_buf
    Spares-map r = recv_payload-Spares c c d h r _ (λ cmd.
        let (done, device) = lock_wsm_l2 w.env d.device cmd.handle in
        let locked : Daemon = record d { device = device } in
        let same = lock-sessions w.env d.device cmd.handle in
        let start : Kept c d.device device = Kept-same c d.device device (ap (map fixed) same) h in
        check_device-Spares c c d h _ (elim (Bool-cases done) [
          | inl e ↦ rw e (Kept-trans start (Kept-map_locked locked cmd start.distinct))
          | inr e ↦ rw e start
        ]))

    Spares-unmap : (r : Received UnmapRequest) → Spares c d (process_unmap_bulk_buf w d c r)
    unfolding process_unmap_bulk_buf
    Spares-unmap r = recv_payload-Spares c c d h r _ (λ cmd.
        let (same, h') =
          unmap_bulk-others w.env d.device c cmd.session_id cmd.handle cmd.secure_virtual_adr
            cmd.len_bulk_mem h in
        let (ret, left) =
          unmap_bulk w.env d.device c cmd.session_id cmd.handle cmd.secure_virtual_adr
            cmd.len_bulk_mem in
        check_device-Spares c c d h _ (elim (Bool-cases (ret == mc_drv_ok)) [
          | inl e ↦ rw e (record { untouched = same; distinct = h' })
          | inr e ↦ rw e (record { untouched = same; distinct = h' })
        ]))

    Spares-version : Spares c d (process_get_mobicore_version w d c)
    unfolding process_get_mobicore_version
    Spares-version =
        let kept = Kept-same c d.device _ (get_mobicore_version-skeleton w.env d.device) h in
        check_device-Spares c c d h _ (elim (Option-cases (get_mobicore_version w.env d.device).1) [
          | inl e ↦ rw e kept
          | inr (v, e) ↦ rw e kept
        ])

-- The command is not NQ_CONNECT, which names a session of another connection.
abbrev pub NotConnect : Request → Type 0
NotConnect (nq_connect _) = ⊥
NotConnect _ = Unit

-- Whatever a connection sends, NQ_CONNECT and the commands for the registry's files apart, and
-- whatever the secure world, the kernel module and the registry answer: if no two sessions share an address, and the allocator gives none that
-- a session has, a handler that returns leaves the sessions of every other connection as they were,
-- but for their queues and states, and addresses stay distinct.
pub handle_command-Spares :
    (fuel : ℕ) (w : World) (d : Daemon) (c : ℕ) (r : Request)
    → NotConnect r
    → Distinct d.device.sessions
    → ((log : List Event) → Fresh (w.env.new_address log) d.device.sessions)
    → Spares c d (handle_command fuel w d c r)
unfolding handle_command process_get_version
handle_command-Spares fuel w d c (open_device r) n h f = Spares-open_device w c d h r
handle_command-Spares fuel w d c close_device_request n h f =
    Spares-process_close_device w c d h fuel
handle_command-Spares fuel w d c (open_session_request r) n h f =
    Spares-open_session w c d false r h f
handle_command-Spares fuel w d c (open_trustlet reads r) n h f =
    Spares-open_trustlet w c fuel d reads r h f
handle_command-Spares fuel w d c (open_trusted_app r) n h f = Spares-open_session w c d true r h f
handle_command-Spares fuel w d c (close_session_request r) n h f = Spares-close_session w c d h r
handle_command-Spares fuel w d c (nq_connect r) n h f = absurd n
handle_command-Spares fuel w d c (notify_request r) n h f = Spares-notify w c d h r
handle_command-Spares fuel w d c (map_bulk_buf_request r) n h f = Spares-map w c d h r
handle_command-Spares fuel w d c (unmap_bulk_buf_request r) n h f = Spares-unmap w c d h r
handle_command-Spares fuel w d c get_version n h f = Kept-same c d.device d.device refl h
handle_command-Spares fuel w d c get_mobicore_version_request n h f = Spares-version w c d h
