-- ===== src/Daemon/BufferLocks.antt =====
-- How often a bulk buffer is locked after MAP_BULK_BUF and UNMAP_BULK_BUF.
use trustonic_tee_user_space.Prelude.{
  ℕ, suc, ◌+◌, ◌≡◌, refl, true, ap, some, arith, ◌==◌, Bool-cases, if◌then◌else◌, Option-cases, inl,
  inr, ◌∷◌,
}
use trustonic_tee_user_space.Status.{mc_drv_ok, wsm_handle_not_found}
use trustonic_tee_user_space.TrustletSession.{find_bulk_buff}
use trustonic_tee_user_space.Device.{
  Device, Env, cmd_map, cmd_unmap, wsm_l2, logged, locked, unlocked,
}
use trustonic_tee_user_space.Device.Sessions.{find_session}
use trustonic_tee_user_space.Device.Mcp.{mcp_command}
use trustonic_tee_user_space.Device.Commands.{map_bulk, unmap_bulk}
use trustonic_tee_user_space.Device.Open.{lock_wsm_l2}
use trustonic_tee_user_space.Device.Locks.{Quiet, mcp_command-Quiet, lock_count, unlock_count}
use trustonic_tee_user_space.Daemon.{
  World, Daemon, payload, has_device, recv_payload, check_device, write_result, result,
}
use trustonic_tee_user_space.Daemon.Process.{
  MapRequest, UnmapRequest, map_locked, process_map_bulk_buf, process_unmap_bulk_buf,
}

map_bulk-Quiet :
    (h : ℕ) (env : Env) (d : Device) (c session_id handle p_addr_l2 offset_payload len_bulk_mem : ℕ)
    → Quiet h d (map_bulk env d c session_id handle p_addr_l2 offset_payload len_bulk_mem).2
unfolding map_bulk
map_bulk-Quiet h env d c session_id handle p_addr_l2 offset_payload len_bulk_mem =
    elim (Option-cases (find_session d c session_id)) [
      | inl e ↦ rw (e, map_bulk) (refl, refl)
      | inr (s, e) ↦
          rw (e, map_bulk)
            (mcp_command-Quiet h env
              (cmd_map session_id wsm_l2 p_addr_l2 offset_payload len_bulk_mem) _)
    ]

unmap_bulk-Quiet :
    (h : ℕ) (env : Env) (d : Device) (c session_id handle adr len_bulk_mem : ℕ)
    → Quiet h d (unmap_bulk env d c session_id handle adr len_bulk_mem).1
unfolding unmap_bulk
unmap_bulk-Quiet h env d c session_id handle adr len_bulk_mem =
    elim (Option-cases (find_session d c session_id)) [
      | inl e ↦ rw (e, unmap_bulk) (refl, refl)
      | inr (s, e) ↦ elim (Bool-cases (find_bulk_buff s handle len_bulk_mem)) [
        | inr unknown ↦ rw (e, unknown, unmap_bulk) (refl, refl)
        | inl known ↦
            let cmd = cmd_unmap session_id wsm_l2 adr len_bulk_mem in
            let quiet = mcp_command-Quiet h env cmd d in
            elim (Bool-cases ((mcp_command env cmd d).0 == mc_drv_ok)) [
              | inl done ↦ rw (e, known, done, unmap_bulk) quiet
              | inr bad ↦ rw (e, known, bad, unmap_bulk) quiet
            ]
      ]
    ]

map_locked-Quiet :
    (h : ℕ) (w : World) (d : Daemon) (c : ℕ) (cmd : MapRequest)
    → Quiet h d.device (map_locked w d c cmd).device
unfolding map_locked
map_locked-Quiet h w d c cmd =
    let p_addr_l2 = w.env.find_wsm d.device.log cmd.handle (w.socket_descriptor c) in
    let quiet =
      map_bulk-Quiet h w.env d.device c cmd.session_id cmd.handle p_addr_l2 cmd.offset_payload
        cmd.len_bulk_mem in
    elim (Bool-cases (p_addr_l2 == 0)) [
      | inl e ↦ rw (e, map_locked) (refl, refl)
      | inr e ↦
          elim (Option-cases
            (map_bulk w.env d.device c cmd.session_id cmd.handle p_addr_l2 cmd.offset_payload
              cmd.len_bulk_mem).1) [
                | inl r ↦ rw (e, r, map_locked) quiet
                | inr (adr, r) ↦ rw (e, r, map_locked) quiet
              ]
    ]

lock_wsm_l2-granted :
    (env : Env) (d : Device) (handle : ℕ)
    → env.lock_wsm d.log handle ≡ true
    → lock_wsm_l2 env d handle ≡ (true, logged d (locked handle))
unfolding lock_wsm_l2
lock_wsm_l2-granted env d handle k = rw k refl

-- Once the kernel module has locked the buffer, MAP_BULK_BUF returns with one lock of it more and
-- no unlock, whether the reply says that the buffer was mapped or that it failed.
pub process_map_bulk_buf-stays_locked :
    (w : World) (d : Daemon) (c : ℕ) (cmd : MapRequest)
    → has_device c d.opened ≡ true
    → w.env.lock_wsm d.device.log cmd.handle ≡ true
    → (d' : Daemon) × (process_map_bulk_buf w d c (payload cmd) ≡ some d')
      × (lock_count cmd.handle d'.device.log ≡ suc (lock_count cmd.handle d.device.log))
      × (unlock_count cmd.handle d'.device.log ≡ unlock_count cmd.handle d.device.log)
unfolding process_map_bulk_buf recv_payload check_device lock_count unlock_count
process_map_bulk_buf-stays_locked w d c cmd o k =
    let start : Daemon = record d { device = logged d.device (locked cmd.handle) } in
    let (locks, unlocks) = map_locked-Quiet cmd.handle w start c cmd in
    let granted = lock_wsm_l2-granted w.env d.device cmd.handle k in
    let after =
      ap
        (λ r. some (
          if r.0
          then map_locked w (record d { device = r.1 }) c cmd
          else write_result c wsm_handle_not_found (record d { device = r.1 })))
        granted in
    (map_locked w start c cmd, rw o after, ground (arith, locks), ground (arith, unlocks))

-- UNMAP_BULK_BUF unlocks the buffer once if it answers success, and not at all otherwise; it never
-- locks it.
pub process_unmap_bulk_buf-unlocks :
    (w : World) (d : Daemon) (c : ℕ) (cmd : UnmapRequest)
    → has_device c d.opened ≡ true
    → (d' : Daemon) × (ret : ℕ) × (process_unmap_bulk_buf w d c (payload cmd) ≡ some d')
      × (d'.replies ≡ (c, result ret) ∷ d.replies)
      × (lock_count cmd.handle d'.device.log ≡ lock_count cmd.handle d.device.log)
      × (unlock_count cmd.handle d'.device.log
          ≡ unlock_count cmd.handle d.device.log + (if ret == mc_drv_ok then 1 else 0))
unfolding process_unmap_bulk_buf recv_payload check_device lock_count unlock_count
process_unmap_bulk_buf-unlocks w d c cmd o =
    let (ret, left) =
      unmap_bulk w.env d.device c cmd.session_id cmd.handle cmd.secure_virtual_adr
        cmd.len_bulk_mem in
    let (locks, unlocks) =
      unmap_bulk-Quiet cmd.handle w.env d.device c cmd.session_id cmd.handle cmd.secure_virtual_adr
        cmd.len_bulk_mem in
    elim (Bool-cases (ret == mc_drv_ok)) [
      | inl e ↦ (
        write_result c mc_drv_ok (record d { device = logged left (unlocked cmd.handle) }),
        mc_drv_ok,
        rw (o, e) refl,
        refl,
        ground (arith, locks),
        ground (arith, unlocks),
      )
      | inr e ↦ (
        write_result c ret (record d { device = left }),
        ret,
        rw (o, e) refl,
        refl,
        locks,
        rw e (omega (arith, unlocks)),
      )
    ]
