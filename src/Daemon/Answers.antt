-- ===== src/Daemon/Answers.antt =====
-- What a command is answered.
pub mod Opens
use trustonic_tee_user_space.Prelude.{
  ℕ, ◌≡◌, ◌≢◌, refl, Bool, true, false, List, [], ◌∷◌, Option, none, some, arith, ◌==◌, Bool-cases,
  Option-cases, inl, inr,
}
use trustonic_tee_user_space.Status.{mc_drv_ok, daemon_socket}
use trustonic_tee_user_space.Device.Open.{OpenPayload, open_session, lock_wsm_l2}
use trustonic_tee_user_space.Device.Opening.{Outcome, open_session-Outcome}
use trustonic_tee_user_space.Device.Commands.{map_bulk, unmap_bulk, get_mobicore_version}
use trustonic_tee_user_space.Device.Sessions.{register_trustlet_connection}
use trustonic_tee_user_space.Device.Close.{close}
use trustonic_tee_user_space.Device.{Device, LoadData}
use trustonic_tee_user_space.Daemon.{
  World, Daemon, Reply, RegObject, Received, read_failed, wrong_length, payload, has_device,
  recv_payload, check_device, write_result,
}
use trustonic_tee_user_space.Daemon.Services.{
  TciRequest, OpenSessionRequest, load_data, register_service, unregister_service, answer_open,
  open_registered, open_service, find_service, process_open_session,
}
use trustonic_tee_user_space.Daemon.Trustlet.{
  Reads, OpenTrustletRequest, read_trustlet, open_blob, receive_blob, process_open_trustlet,
}
use trustonic_tee_user_space.Daemon.Process.{
  NqRequest, MapRequest, UnmapRequest, process_open_device, close_device, map_locked,
  process_close_device, process_close_session, process_nq_connect, connect_session,
  process_map_bulk_buf, process_unmap_bulk_buf, process_get_version, process_get_mobicore_version,
  device_id_default,
}
use trustonic_tee_user_space.Daemon.Dispatch.{
  Request, open_device, close_device_request, open_session_request, open_trustlet, open_trusted_app,
  close_session_request, nq_connect, notify_request, map_bulk_buf_request, unmap_bulk_buf_request,
  get_version, get_mobicore_version_request, handle_command,
}
use Opens.{
  OneReply, Answers, recv_payload-Answers, check_device-Answers, open_session-Answers,
  open_trustlet-Answers,
}

module _ (w : World) (c : ℕ) where
  map_locked-OneReply : (d : Daemon) (cmd : MapRequest) → OneReply c d (map_locked w d c cmd)
  unfolding map_locked
  map_locked-OneReply d cmd =
      let p_addr_l2 = w.env.find_wsm d.device.log cmd.handle (w.socket_descriptor c) in
      elim (Bool-cases (p_addr_l2 == 0)) [
        | inl e ↦ rw (e, map_locked) (_, refl)
        | inr e ↦
            elim (Option-cases
              (map_bulk w.env d.device c cmd.session_id cmd.handle p_addr_l2 cmd.offset_payload
                cmd.len_bulk_mem).1) [
                  | inl r ↦ rw (e, r, map_locked) (_, refl)
                  | inr (adr, r) ↦ rw (e, r, map_locked) (_, refl)
                ]
      ]

  module _ (d : Daemon) where
    open_device-Answers : (r : Received ℕ) → Answers ⊥ c d (process_open_device d c r)
    unfolding process_open_device
    open_device-Answers r = recv_payload-Answers ⊥ c d r _ (λ device_id.
        elim (Bool-cases (has_device c d.opened)) [
          | inl e ↦ rw e (_, refl)
          | inr e ↦ elim (Bool-cases (device_id == device_id_default)) [
            | inl i ↦ rw (e, i) (_, refl)
            | inr i ↦ rw (e, i) (_, refl)
          ]
        ])

    close_device-Answers : (fuel : ℕ) → Answers Unit c d (process_close_device fuel w d c)
    unfolding process_close_device close_device
    close_device-Answers fuel =
        check_device-Answers Unit c d _ (elim (Option-cases (close fuel w.env d.device c)) [
          | inl e ↦ rw (e, close_device) tt
          | inr (d', e) ↦ rw (e, close_device) (_, refl)
        ])

    nq_connect-Answers : (r : Received NqRequest) → Answers ⊥ c d (process_nq_connect d c r)
    unfolding process_nq_connect connect_session
    nq_connect-Answers r = recv_payload-Answers ⊥ c d r _ (λ cmd.
        elim (Bool-cases (has_device c d.opened)) [
          | inl e ↦ rw e (_, refl)
          | inr e ↦ elim (Bool-cases (cmd.device_id == device_id_default)) [
            | inr i ↦ rw (e, i) (_, refl)
            | inl i ↦
                rw (e, i)
                  (elim (Option-cases (register_trustlet_connection d.device c cmd.target).0) [
                    | inl n ↦ rw (n, connect_session) (_, refl)
                    | inr (s, n) ↦ rw (n, connect_session) (_, refl)
                  ])
          ]
        ])

    map-Answers : (r : Received MapRequest) → Answers ⊥ c d (process_map_bulk_buf w d c r)
    unfolding process_map_bulk_buf
    map-Answers r = recv_payload-Answers ⊥ c d r _ (λ cmd.
        let (done, device) = lock_wsm_l2 w.env d.device cmd.handle in
        check_device-Answers ⊥ c d _ (elim (Bool-cases done) [
          | inl e ↦ rw e (map_locked-OneReply (record d { device = device }) cmd)
          | inr e ↦ rw e (_, refl)
        ]))

    unmap-Answers : (r : Received UnmapRequest) → Answers ⊥ c d (process_unmap_bulk_buf w d c r)
    unfolding process_unmap_bulk_buf
    unmap-Answers r = recv_payload-Answers ⊥ c d r _ (λ cmd.
        let (ret, left) =
          unmap_bulk w.env d.device c cmd.session_id cmd.handle cmd.secure_virtual_adr
            cmd.len_bulk_mem in
        check_device-Answers ⊥ c d _ (elim (Bool-cases (ret == mc_drv_ok)) [
          | inl e ↦ rw e (_, refl)
          | inr e ↦ rw e (_, refl)
        ]))

    version-Answers : Answers ⊥ c d (process_get_mobicore_version w d c)
    unfolding process_get_mobicore_version
    version-Answers =
        check_device-Answers ⊥ c d _ (elim (Option-cases (get_mobicore_version w.env d.device).1) [
          | inl e ↦ rw e (_, refl)
          | inr (v, e) ↦ rw e (_, refl)
        ])

-- The two commands whose handlers have a loop of their own.
abbrev pub Loops : Request → Type 0
Loops close_device_request = Unit
Loops (open_trustlet _ _) = Unit
Loops _ = ⊥

abbrev pub NotNotify : Request → Type 0
NotNotify (notify_request _) = ⊥
NotNotify _ = Unit

-- Every command but NOTIFY and those for the registry's files is answered by exactly one reply, to
-- the connection that sent it, whatever was received and whatever the secure world, the kernel module and the registry answer;
-- only CLOSE_DEVICE and OPEN_TRUSTLET may not return.
pub handle_command-Answers :
    (fuel : ℕ) (w : World) (d : Daemon) (c : ℕ) (r : Request)
    → NotNotify r
    → Answers (Loops r) c d (handle_command fuel w d c r)
unfolding handle_command process_get_version process_close_session
handle_command-Answers fuel w d c (open_device r) n = open_device-Answers w c d r
handle_command-Answers fuel w d c close_device_request n = close_device-Answers w c d fuel
handle_command-Answers fuel w d c (open_session_request r) n = open_session-Answers w c d false r
handle_command-Answers fuel w d c (open_trustlet reads r) n =
    open_trustlet-Answers w c fuel d reads r
handle_command-Answers fuel w d c (open_trusted_app r) n = open_session-Answers w c d true r
handle_command-Answers fuel w d c (close_session_request r) n =
    recv_payload-Answers ⊥ c d r _ (λ id. check_device-Answers ⊥ c d _ (_, refl))
handle_command-Answers fuel w d c (nq_connect r) n = nq_connect-Answers w c d r
handle_command-Answers fuel w d c (notify_request r) n = absurd n
handle_command-Answers fuel w d c (map_bulk_buf_request r) n = map-Answers w c d r
handle_command-Answers fuel w d c (unmap_bulk_buf_request r) n = unmap-Answers w c d r
handle_command-Answers fuel w d c get_version n = (_, refl)
handle_command-Answers fuel w d c get_mobicore_version_request n = version-Answers w c d
