-- ===== src/Device/Sessions.antt =====
-- The list of sessions: MobiCoreDevice::findSession, registerTrustletConnection,
-- notify(Connection, uint32_t) and freeSession.
use trustonic_tee_user_space.Prelude.{
  ℕ, zero, suc, ◌%◌, ◌^◌, Bool, false, not, List, [], ◌∷◌, Option, none, some, ◌==◌, ◌&&◌, ◌||◌,
  if◌then◌else◌, length,
}
use trustonic_tee_user_space.Status.{mc_drv_ok, unknown_session}
use trustonic_tee_user_space.TrustletSession.{TrustletSession, pop_bulk_buff}
use trustonic_tee_user_space.Device.{Device, logged, notification_socket_closed, unlocked}
use trustonic_tee_user_space.Device.Irq.{get_trustlet_session}
use trustonic_tee_user_space.Device.Mcp.{notify_session}

abbrev pub owns : ℕ → TrustletSession → Bool
owns connection s = elim s.device_connection [ none ↦ false | some c ↦ c == connection ]

check_owner : ℕ → TrustletSession → Option TrustletSession
check_owner connection s = if owns connection s then some s else none

-- The session of that id, if the connection owns it.
unfoldable pub find_session : Device → ℕ → ℕ → Option TrustletSession
unfolding check_owner
find_session d connection session_id = elim (get_trustlet_session d.sessions session_id) [
  | none ↦ none
  | some s ↦ check_owner connection s
]

-- The object that a pointer to the session shows now.
unfoldable pub deref : List TrustletSession → TrustletSession → TrustletSession
deref [] s = s
deref (t ∷ ts) s = if t.address == s.address then t else deref ts s

-- `trustletSessions.remove(session)`
unfoldable pub remove_at : ℕ → List TrustletSession → List TrustletSession
remove_at a [] = []
remove_at a (s ∷ ss) = if s.address == a then remove_at a ss else s ∷ remove_at a ss

-- `MC_DRV_CMD_NQ_CONNECT_struct`
pub record NqConnect : Type 0 where
  pub device_session_id : ℕ
  pub session_id : ℕ
  pub session_magic : ℕ

-- The low 32 bits of a session's address, which the client is given at open.
abbrev pub low_address : TrustletSession → ℕ
low_address s = s.address % 2 ^ 32

abbrev pub matches : NqConnect → TrustletSession → Bool
matches cmd s =
    low_address s == cmd.device_session_id
    && not (not (s.session_magic == cmd.session_magic) || not (s.session_id == cmd.session_id))

unfoldable pub register_in :
    ℕ → NqConnect → List TrustletSession → Option TrustletSession × List TrustletSession
register_in connection cmd [] = (none, [])
register_in connection cmd (s ∷ ss) =
    let s' = record s { notification_connection = some connection } in
    let (found, rest) = register_in connection cmd ss in
    if matches cmd s then (some s', s' ∷ ss) else (found, s ∷ rest)

unfoldable pub register_trustlet_connection :
    Device → ℕ → NqConnect → Option TrustletSession × Device
unfolding register_in
register_trustlet_connection d connection cmd =
    let (found, ss) = register_in connection cmd d.sessions in (found, record d { sessions = ss })

unfoldable pub notify : Device → ℕ → ℕ → ℕ × Device
notify d connection session_id = elim (find_session d connection session_id) [
  | none ↦ (unknown_session, d)
  | some s ↦ (mc_drv_ok, notify_session d session_id)
]

-- The loop of freeSession: pops the buffers and unlocks each. What `unlockWsmL2` returns is ignored.
-- The fuel is the number of buffers; `Closing` shows that it suffices.
unfoldable pub unlock_buffers : ℕ → TrustletSession → Device → TrustletSession × Device
unlock_buffers zero s d = (s, d)
unlock_buffers (suc fuel) s d =
    let (s', popped) = pop_bulk_buff s in
    elim popped [ none ↦ (s', d) | some w ↦ unlock_buffers fuel s' (logged d (unlocked w.handle)) ]

-- `delete` of a notification connection: its socket is closed.
unfoldable pub close_socket : TrustletSession → Device → Device
close_socket s d = elim s.notification_connection [
  | none ↦ d
  | some c ↦ logged d (notification_socket_closed c)
]

-- The session goes with its notification connection, as its destructor says; no buffer is left by
-- then.
unfoldable pub free_session : Device → TrustletSession → Device
unfolding close_socket
free_session d s =
    let (s', d') = unlock_buffers (length s.buffers) s d in
    close_socket s' (record d' { sessions = remove_at s.address d'.sessions })
