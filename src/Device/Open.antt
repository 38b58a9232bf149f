-- ===== src/Device/Open.antt =====
-- MobiCoreDevice::openSession.
use trustonic_tee_user_space.Prelude.{
  ℕ, Bool, true, false, List, [], ◌∷◌, ◌++◌, Option, none, some, ◌==◌, ◌&&◌, ◌||◌, not,
  if◌then◌else◌, ltb,
}
use trustonic_tee_user_space.Status.{mc_drv_ok, tci_greater_than_wsm, wsm_handle_not_found}
use trustonic_tee_user_space.NotificationQueue.{Notification}
use trustonic_tee_user_space.TrustletSession.{
  TrustletSession, ta_running, new, add_bulk_buff, queue_notification,
}
use trustonic_tee_user_space.Device.{
  Device, Env, LoadData, OpenCommand, WsmType, wsm_invalid, wsm_contiguous, wsm_l2, cmd_open,
  logged, locked, unlocked, lock_failed,
}
use trustonic_tee_user_space.Device.Mcp.{mcp_command}
use trustonic_tee_user_space.Device.Sessions.{low_address}
use trustonic_tee_user_space.Device.Commands.{load_type}

-- How the TCI buffer is referenced, and the length that is known of it.
pub record Tci : Type 0 where
  pub wsm_type : WsmType
  pub adr : ℕ
  pub ofs : ℕ
  pub len : ℕ

abbrev pub has_tci : ℕ → ℕ → Bool
has_tci tci_handle tci_len = not (tci_handle == 0) && not (tci_len == 0)

-- A contiguous buffer, else one behind an L2 table, whose length is not checked.
find_tci : Env → Device → (fd tci_handle tci_len tci_offset : ℕ) → Option Tci
find_tci env d fd tci_handle tci_len tci_offset =
    elim (env.find_contiguous_wsm d.log tci_handle fd) [
      | some (phys, len) ↦
          some (record { wsm_type = wsm_contiguous; adr = phys; ofs = 0; len = len })
      | none ↦
          let adr = env.find_wsm d.log tci_handle fd in
          if adr == 0
          then none
          else some (record { wsm_type = wsm_l2; adr = adr; ofs = tci_offset; len = tci_len })
    ]

unfoldable pub lock_wsm_l2 : Env → Device → ℕ → Bool × Device
lock_wsm_l2 env d handle =
    if env.lock_wsm d.log handle
    then (true, logged d (locked handle))
    else (false, logged d (lock_failed handle))

-- The first part: finds and locks the buffer. With neither a handle nor a length there is none.
unfoldable pub prepare_tci :
    Env → Device → (fd tci_handle tci_len tci_offset : ℕ) → (Option Tci) × Device
unfolding find_tci lock_wsm_l2
prepare_tci env d fd tci_handle tci_len tci_offset =
    if has_tci tci_handle tci_len
    then elim (find_tci env d fd tci_handle tci_len tci_offset) [
      | none ↦ (none, d)
      | some t ↦
          let (done, d') = lock_wsm_l2 env d tci_handle in (if done then some t else none, d')
    ]
    else (some (record { wsm_type = wsm_invalid; adr = 0; ofs = tci_offset; len = 0 }), d)

unfoldable pub unlock_tci : ℕ → ℕ → Device → Device
unlock_tci tci_handle tci_len d =
    if has_tci tci_handle tci_len then logged d (unlocked tci_handle) else d

-- The payload of the response: `mcDrvRspOpenSessionPayload_t`.
pub record OpenPayload : Type 0 where
  pub session_id : ℕ
  pub device_session_id : ℕ
  pub session_magic : ℕ

-- `addBulkBuff(new CWsm(NULL, pLoadDataOpenSession->len, tciHandle, 0))`: the length is that of the
-- load data.
unfoldable pub add_tci : LoadData → ℕ → ℕ → TrustletSession → TrustletSession
add_tci l tci_handle tci_len s =
    if has_tci tci_handle tci_len
    then (add_bulk_buff s (record { len = l.len; handle = tci_handle; phys_addr = 0 })).0
    else s

-- The loop that empties the device's queue into the new session.
unfoldable pub queue_pending : TrustletSession → List Notification → TrustletSession
queue_pending s [] = s
queue_pending s (n ∷ ns) = queue_pending (queue_notification s n) ns

-- The new session, from what the secure world answered.
unfoldable pub new_session : Env → Device → (connection : ℕ) → LoadData → TrustletSession
new_session env d connection l = record s {
  gp_level = if l.is_gpta then 1 else 0;
  session_state = ta_running;
}
  where
    s : TrustletSession
    s = new (env.new_address d.log) (env.rand d.log) (some connection) d.rsp.session_id

-- The last part, after the secure world has opened the session.
unfoldable pub register_session :
    Env → Device → (connection : ℕ) → LoadData → (tci_handle tci_len : ℕ) → OpenPayload × Device
unfolding add_tci queue_pending new_session
register_session env d connection l tci_handle tci_len =
    let s = new_session env d connection l in
    let opened = queue_pending (add_tci l tci_handle tci_len s) d.notifications in
    (
      record {
        session_id = s.session_id;
        device_session_id = low_address s;
        session_magic = s.session_magic;
      },
      record d { sessions = d.sessions ++ opened ∷ []; notifications = [] },
    )

unfoldable pub open_command : Tci → LoadData → ℕ → OpenCommand
open_command t l tci_len = record {
  wsm_type_tci = t.wsm_type;
  adr_tci = t.adr;
  ofs_tci = t.ofs;
  len_tci = tci_len;
  wsm_type_load = load_type l;
  load = l;
}

unfoldable pub open_with :
    Env
    → Device
    → Tci
    → (connection : ℕ) → LoadData
    → (tci_handle tci_len : ℕ) → ℕ × Option OpenPayload × Device
unfolding register_session open_command unlock_tci
open_with env d t connection l tci_handle tci_len =
    let (ret, d') =
      mcp_command env (cmd_open (open_command t l tci_len)) (record d { notifications = [] }) in
    let (payload, d'') = register_session env d' connection l tci_handle tci_len in
    if ret == mc_drv_ok
    then (mc_drv_ok, some payload, d'')
    else (ret, none, unlock_tci tci_handle tci_len d')

-- `fd` is the connection's socket descriptor. A length that is too large is refused after the
-- buffer was locked.
unfoldable pub open_session :
    Env
    → Device
    → (connection fd : ℕ) → LoadData
    → (tci_handle tci_len tci_offset : ℕ) → ℕ × Option OpenPayload × Device
unfolding prepare_tci open_with
open_session env d connection fd l tci_handle tci_len tci_offset =
    let (found, d') = prepare_tci env d fd tci_handle tci_len tci_offset in
    elim found [
      | none ↦ (wsm_handle_not_found, none, d')
      | some t ↦
          if not (tci_handle == 0) && tci_len == 0 || ltb t.len tci_len
          then (tci_greater_than_wsm, none, d')
          else open_with env d' t connection l tci_handle tci_len
    ]
