-- ===== src/Device/Commands.antt =====
-- The commands of a client on its session, and those without one: MobiCoreDevice::mapBulk,
-- unmapBulk, getMobiCoreVersion, loadToken and checkLoad.
use trustonic_tee_user_space.Prelude.{ℕ, ◌^◌, Option, none, some, [], ◌==◌, if◌then◌else◌, ltb}
use trustonic_tee_user_space.Status.{mc_drv_ok, unknown_session, wsm_handle_not_found}
use trustonic_tee_user_space.TrustletSession.{
  TrustletSession, Wsm, add_bulk_buff, remove_bulk_buff, find_bulk_buff,
}
use trustonic_tee_user_space.Device.{
  Device, Env, LoadData, WsmType, wsm_l1, wsm_l2, cmd_map, cmd_unmap, cmd_get_mobicore_version,
  cmd_load_token, cmd_check_load,
}
use trustonic_tee_user_space.Device.Irq.{update_at}
use trustonic_tee_user_space.Device.Mcp.{mcp_command}
use trustonic_tee_user_space.Device.Sessions.{find_session}

-- That the handle may be there already is ignored.
add_buffer : Device → TrustletSession → Wsm → Device
add_buffer d s w = record d {
  sessions = update_at s.address (λ t. (add_bulk_buff t w).0) d.sessions;
}

-- Besides the code, the secure virtual address that is handed out on success.
unfoldable pub map_bulk :
    Env
    → Device
    → (connection session_id handle p_addr_l2 offset_payload len_bulk_mem : ℕ)
    → ℕ × Option ℕ × Device
unfolding add_buffer
map_bulk env d connection session_id handle p_addr_l2 offset_payload len_bulk_mem =
    elim (find_session d connection session_id) [
      | none ↦ (unknown_session, none, d)
      | some s ↦
          let w : Wsm = record { len = len_bulk_mem; handle = handle; phys_addr = p_addr_l2 } in
          let (ret, d') =
            mcp_command env (cmd_map session_id wsm_l2 p_addr_l2 offset_payload len_bulk_mem)
              (add_buffer d s w) in
          (ret, if ret == mc_drv_ok then some d'.rsp.secure_virtual_adr else none, d')
    ]

-- Whether there was a buffer to remove is only logged.
remove_buffer : Device → TrustletSession → ℕ → Device
remove_buffer d s handle = record d {
  sessions = update_at s.address (λ t. (remove_bulk_buff t handle).0) d.sessions;
}

unmap_found :
    Env
    → Device
    → TrustletSession
    → (session_id handle secure_virtual_adr len_bulk_mem : ℕ) → ℕ × Device
unfolding remove_buffer
unmap_found env d s session_id handle secure_virtual_adr len_bulk_mem =
    let (ret, d') =
      mcp_command env (cmd_unmap session_id wsm_l2 secure_virtual_adr len_bulk_mem) d in
    (ret, if ret == mc_drv_ok then remove_buffer d' s handle else d')

unfoldable pub unmap_bulk :
    Env → Device → (connection session_id handle secure_virtual_adr len_bulk_mem : ℕ) → ℕ × Device
unfolding unmap_found
unmap_bulk env d connection session_id handle secure_virtual_adr len_bulk_mem =
    elim (find_session d connection session_id) [
      | none ↦ (unknown_session, d)
      | some s ↦
          if find_bulk_buff s handle len_bulk_mem
          then unmap_found env d s session_id handle secure_virtual_adr len_bulk_mem
          else (wsm_handle_not_found, d)
    ]

-- Besides the code, the version: from the first fetch on, without asking again.
unfoldable pub get_mobicore_version : Env → Device → ℕ × Option ℕ × Device
get_mobicore_version env d = elim d.mc_version_info [
  | some v ↦ (mc_drv_ok, some v, d)
  | none ↦
      let (ret, d') = mcp_command env cmd_get_mobicore_version d in
      let v = d'.rsp.version_info in
      if ret == mc_drv_ok
      then (mc_drv_ok, some v, record d' { mc_version_info = some v })
      else (ret, none, d')
]

-- Clears the queue of notifications for unknown sessions first.
unfoldable pub load_token : Env → Device → (addr offs len : ℕ) → ℕ × Device
load_token env d addr offs len =
    mcp_command env (cmd_load_token wsm_l2 addr offs len) (record d { notifications = [] })

-- Load data above 1 MiB is referenced by an L1 table.
abbrev pub load_type : LoadData → WsmType
load_type l = if ltb (2 ^ 20) l.len then wsm_l1 else wsm_l2

unfoldable pub check_load : Env → Device → LoadData → ℕ × Device
check_load env d l =
    mcp_command env (cmd_check_load (load_type l) l) (record d { notifications = [] })
