-- ===== src/Device/Mapping.antt =====
-- What mapping and unmapping a bulk buffer do to the sessions.
use trustonic_tee_user_space.Prelude.{
  ℕ, ◌≡◌, refl, ap, map, ◌∙◌, some, arith, ◌==◌, Option-cases, Bool-cases, inl, inr,
}
use trustonic_tee_user_space.Status.{mc_drv_ok, mcp_ok}
use trustonic_tee_user_space.TrustletSession.{
  TrustletSession, Wsm, add_bulk_buff, remove_bulk_buff, find_bulk_buff,
}
use trustonic_tee_user_space.Device.{Device, Env, cmd_map, cmd_unmap, wsm_l2, response_id}
use trustonic_tee_user_space.Device.Replies.{mcp_command-confirmed}
use trustonic_tee_user_space.Device.Mcp.{mcp_command}
use trustonic_tee_user_space.Device.Sessions.{find_session}
use trustonic_tee_user_space.OrdMap.{find}
use trustonic_tee_user_space.Device.Irq.{update_at}
use trustonic_tee_user_space.Device.Lookups.{
  Owned, without_buffer, find_session-Owned, find_bulk_buff-found, map-update_at,
}
use trustonic_tee_user_space.Device.Commands.{map_bulk, unmap_bulk}
use trustonic_tee_user_space.Device.Skeleton.{fixed, skeleton, mcp_command-Framed}
use trustonic_tee_user_space.Device.Ownership.{Distinct, is_other, others, find_session-NotOther}
use trustonic_tee_user_space.Device.Closing.{Isolated, Isolated-Framed, Isolated-update}

add-other :
    (c : ℕ) (w : Wsm) (s : TrustletSession)
    → ((add_bulk_buff s w).0.address ≡ s.address)
      × (is_other c (add_bulk_buff s w).0 ≡ is_other c s)
unfolding add_bulk_buff
add-other c w s = ground arith

remove-other :
    (c h : ℕ) (s : TrustletSession)
    → ((remove_bulk_buff s h).0.address ≡ s.address)
      × (is_other c (remove_bulk_buff s h).0 ≡ is_other c s)
unfolding remove_bulk_buff
remove-other c h s = ground arith

-- If no two sessions share an address, a client that maps a buffer, whatever the secure world
-- answers, leaves the sessions of every other client in place, with their buffers; addresses stay
-- distinct.
pub map_bulk-others :
    (env : Env) (d : Device) (c session_id handle p_addr_l2 offset_payload len_bulk_mem : ℕ)
    → Distinct d.sessions
    → let d' = (map_bulk env d c session_id handle p_addr_l2 offset_payload len_bulk_mem).2 in
      (others c (skeleton d') ≡ others c (skeleton d)) × Distinct d'.sessions
unfolding map_bulk
map_bulk-others env d c session_id handle p_addr_l2 offset_payload len_bulk_mem h =
    elim (Option-cases (find_session d c session_id)) [
      | inl e ↦ rw (e, map_bulk) (refl, h)
      | inr (s, e) ↦
          let w : Wsm = record { len = len_bulk_mem; handle = handle; phys_addr = p_addr_l2 } in
          let start : Isolated c s.address d d = record {
            distinct = h;
            own = find_session-NotOther d c session_id s h e;
            untouched = refl;
          } in
          let added =
            Isolated-update d (λ t. (add_bulk_buff t w).0) (λ t. (add-other c w t).0)
              (λ t o. (add-other c w t).1 ∙ o) start in
          let done =
            Isolated-Framed
              (mcp_command-Framed env
                (cmd_map session_id wsm_l2 p_addr_l2 offset_payload len_bulk_mem) _)
              added in
          rw (e, map_bulk) (done.untouched, done.distinct)
    ]

-- If no two sessions share an address, a client that unmaps a buffer, whatever the secure world
-- answers, leaves the sessions of every other client in place, with their buffers; addresses stay
-- distinct.
pub unmap_bulk-others :
    (env : Env) (d : Device) (c session_id handle secure_virtual_adr len_bulk_mem : ℕ)
    → Distinct d.sessions
    → let d' = (unmap_bulk env d c session_id handle secure_virtual_adr len_bulk_mem).1 in
      (others c (skeleton d') ≡ others c (skeleton d)) × Distinct d'.sessions
unfolding unmap_bulk
unmap_bulk-others env d c session_id handle secure_virtual_adr len_bulk_mem h =
    elim (Option-cases (find_session d c session_id)) [
      | inl e ↦ rw (e, unmap_bulk) (refl, h)
      | inr (s, e) ↦ elim (Bool-cases (find_bulk_buff s handle len_bulk_mem)) [
        | inr unknown ↦ rw (e, unknown, unmap_bulk) (refl, h)
        | inl known ↦
            let start : Isolated c s.address d d = record {
              distinct = h;
              own = find_session-NotOther d c session_id s h e;
              untouched = refl;
            } in
            let (ret, d') =
              mcp_command env (cmd_unmap session_id wsm_l2 secure_virtual_adr len_bulk_mem) d in
            let told : Isolated c s.address d d' =
              Isolated-Framed
                (mcp_command-Framed env
                  (cmd_unmap session_id wsm_l2 secure_virtual_adr len_bulk_mem) d)
                start in
            let removed =
              Isolated-update d' (λ t. (remove_bulk_buff t handle).0)
                (λ t. (remove-other c handle t).0) (λ t o. (remove-other c handle t).1 ∙ o) told in
            elim (Bool-cases (ret == mc_drv_ok)) [
              | inl done ↦ rw (e, known, done, unmap_bulk) (removed.untouched, removed.distinct)
              | inr bad ↦ rw (e, known, bad, unmap_bulk) (told.untouched, told.distinct)
            ]
      ]
    ]

-- An unmap that is reported as done was asked by the owner of a session in the list with that id,
-- which had a buffer of that length under the handle, and the secure world confirmed it: its
-- response is that of the command, with success. Afterwards the session at that address has the
-- buffer no more, and nothing else of any session has changed but queues and states.
pub unmap_bulk-confirmed :
    (env : Env) (d : Device) (c session_id handle secure_virtual_adr len_bulk_mem : ℕ)
    → (unmap_bulk env d c session_id handle secure_virtual_adr len_bulk_mem).0 ≡ mc_drv_ok
    → let command = cmd_unmap session_id wsm_l2 secure_virtual_adr len_bulk_mem in
      (s : TrustletSession) × Owned d.sessions c session_id s
      × ((w : Wsm) × (find handle s.buffers ≡ some w) × (w.len ≡ len_bulk_mem))
      × ((env.exchange d.log command).rsp.rsp_id ≡ response_id command)
      × ((env.exchange d.log command).rsp.result ≡ mcp_ok)
      × (skeleton (unmap_bulk env d c session_id handle secure_virtual_adr len_bulk_mem).1
          ≡ update_at s.address (without_buffer handle) (skeleton d))
unfolding unmap_bulk
unmap_bulk-confirmed env d c session_id handle secure_virtual_adr len_bulk_mem =
    let command = cmd_unmap session_id wsm_l2 secure_virtual_adr len_bulk_mem in
    elim (Option-cases (find_session d c session_id)) [
      | inl e ↦ rw (e, unmap_bulk) (λ h. absurd (omega arith))
      | inr (s, e) ↦ elim (Bool-cases (find_bulk_buff s handle len_bulk_mem)) [
        | inr unknown ↦ rw (e, unknown, unmap_bulk) (λ h. absurd (omega arith))
        | inl known ↦
            let (ret, d') = mcp_command env command d in
            let framed = mcp_command-Framed env command d in
            let left : map fixed
                  (update_at s.address (λ t. (remove_bulk_buff t handle).0) d'.sessions)
                ≡ update_at s.address (without_buffer handle) (skeleton d) =
              map-update_at s.address handle d'.sessions
              ∙ ap (update_at s.address (without_buffer handle)) framed.same_sessions in
            elim (Bool-cases (ret == mc_drv_ok)) [
              | inr bad ↦ rw (e, known, bad, unmap_bulk) (λ h. absurd (ground (arith, bad, h)))
              | inl good ↦
                  rw (e, known, good, unmap_bulk)
                    (λ h.
                      let (right, done, same) = mcp_command-confirmed env command d h in
                      (
                        s,
                        find_session-Owned d c session_id s e,
                        find_bulk_buff-found s handle len_bulk_mem known,
                        right,
                        done,
                        left,
                      ))
            ]
      ]
    ]
