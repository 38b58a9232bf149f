-- ===== src/Device/Locks.antt =====
-- Which TCI buffers an attempt to open a session leaves locked in the kernel module.
use trustonic_tee_user_space.Prelude.{
  ℕ, zero, suc, ◌+◌, ◌≤◌, ◌<◌, ◌≡◌, ◌≢◌, refl, ap, ◌∙◌, Bool, true, false, not, List, [], ◌∷◌,
  Option, none, some, arith, ◌==◌, ◌&&◌, ◌||◌, if◌then◌else◌, ltb, Option-cases, Bool-cases, ◌⊎◌,
  inl, inr,
}
use trustonic_tee_user_space.Status.{mc_drv_ok, tci_greater_than_wsm}
use trustonic_tee_user_space.NotificationQueue.{Notification, sid_mcp}
use trustonic_tee_user_space.Device.{
  Device, Env, Event, Exchange, Command, LoadData, cmd_open, sent, locked, unlocked, logged,
}
use trustonic_tee_user_space.Device.Irq.{handle_notification, handle_all}
use trustonic_tee_user_space.Device.Mcp.{
  notify_session, wait_loop, wait_mcp_notification, msh_notify_and_wait, mcp_command,
}
use trustonic_tee_user_space.Device.Open.{
  Tci, has_tci, prepare_tci, unlock_tci, open_command, open_with, open_session,
}

abbrev pub lock_of : ℕ → Event → ℕ
lock_of h (locked k) = if k == h then 1 else 0
lock_of h _ = 0

abbrev pub unlock_of : ℕ → Event → ℕ
unlock_of h (unlocked k) = if k == h then 1 else 0
unlock_of h _ = 0

-- How often the buffer was locked and unlocked.
unfoldable pub lock_count : ℕ → List Event → ℕ
lock_count h [] = 0
lock_count h (e ∷ es) = lock_of h e + lock_count h es

unfoldable pub unlock_count : ℕ → List Event → ℕ
unlock_count h [] = 0
unlock_count h (e ∷ es) = unlock_of h e + unlock_count h es

-- As many unlocks as locks of the buffer between two moments.
abbrev pub Balanced : ℕ → Device → Device → Type 0
Balanced h d d' =
    lock_count h d'.log + unlock_count h d.log ≡ lock_count h d.log + unlock_count h d'.log

-- Neither a lock nor an unlock.
abbrev pub Quiet : ℕ → Device → Device → Type 0
Quiet h d d' =
    (lock_count h d'.log ≡ lock_count h d.log) × (unlock_count h d'.log ≡ unlock_count h d.log)

handle_notification-Quiet :
    (h : ℕ) (d : Device) (n : Notification) → Quiet h d (handle_notification d n)
unfolding handle_notification lock_count unlock_count
handle_notification-Quiet h d n = ground arith

handle_all-Quiet : (h : ℕ) (d : Device) (ns : List Notification) → Quiet h d (handle_all d ns)
unfolding handle_all
handle_all-Quiet h d [] = (refl, refl)
handle_all-Quiet h d (n ∷ ns) =
    let first = handle_notification-Quiet h d n in
    let rest = handle_all-Quiet h (handle_notification d n) ns in
    (rest.0 ∙ first.0, rest.1 ∙ first.1)

wait_loop-Quiet : (h tries i : ℕ) (x : Exchange) (d : Device) → Quiet h d (wait_loop tries i x d).1
unfolding wait_loop lock_count unlock_count
wait_loop-Quiet h zero i x d = (refl, refl)
wait_loop-Quiet h (suc tries) i x d = ground (arith, wait_loop-Quiet h tries (i + 1) x d)

wait-Quiet : (h : ℕ) (x : Exchange) (d : Device) → Quiet h d (wait_mcp_notification x d).1
unfolding wait_mcp_notification lock_count unlock_count
wait-Quiet h x d = ground (arith, wait_loop-Quiet h 5 0 x d)

pub mcp_command-Quiet :
    (h : ℕ) (env : Env) (c : Command) (d : Device) → Quiet h d (mcp_command env c d).1
unfolding mcp_command msh_notify_and_wait notify_session lock_count unlock_count
mcp_command-Quiet h env c d =
    let x = env.exchange d.log c in
    let told : Device = record (logged (notify_session d sid_mcp) (sent c)) {
      rsp = x.rsp;
      nq = x.nq;
    } in
    let dealt = handle_all told x.delivered in
    let during = handle_all-Quiet h told x.delivered in
    let after = wait-Quiet h x dealt in
    (omega (arith, after.0, during.0), omega (arith, after.1, during.1))

open_with-Balanced :
    (env : Env) (d : Device) (t : Tci) (connection : ℕ) (l : LoadData) (tci_handle tci_len : ℕ)
    → let (ret, payload, d') = open_with env d t connection l tci_handle tci_len in
      ret ≢ mc_drv_ok
      → lock_count tci_handle d'.log
          + unlock_count tci_handle d.log
          + (if has_tci tci_handle tci_len then 1 else 0)
        ≡ lock_count tci_handle d.log + unlock_count tci_handle d'.log
unfolding open_with unlock_tci lock_count unlock_count
open_with-Balanced env d t connection l tci_handle tci_len bad = ground (
  arith,
  mcp_command-Quiet tci_handle env (cmd_open (open_command t l tci_len))
      (record d { notifications = [] }),
)

-- How the first part ends: with nothing locked and an error, with no buffer, or with the buffer
-- locked and long enough.
abbrev Prepared : ℕ → ℕ → Device → Option Tci × Device → Type 0
Prepared tci_handle tci_len d (none, d') = Quiet tci_handle d d'
Prepared tci_handle tci_len d (some t, d') =
    ((has_tci tci_handle tci_len ≡ false) × (d' ≡ d))
    ⊎ ((has_tci tci_handle tci_len ≡ true)
        × (tci_len ≤ t.len)
        × (d' ≡ logged d (locked tci_handle)))

prepare_tci-Prepared :
    (env : Env) (d : Device) (fd tci_handle tci_len tci_offset : ℕ)
    → ((phys len : ℕ)
        → env.find_contiguous_wsm d.log tci_handle fd ≡ some (phys, len)
        → tci_len ≤ len)
    → Prepared tci_handle tci_len d (prepare_tci env d fd tci_handle tci_len tci_offset)
unfolding prepare_tci lock_count unlock_count
prepare_tci-Prepared env d fd tci_handle tci_len tci_offset long =
    elim (Bool-cases (has_tci tci_handle tci_len)) [
      | inr no_tci ↦ rw (no_tci, prepare_tci) (inl (no_tci, refl))
      | inl tci ↦ elim (Bool-cases (env.lock_wsm d.log tci_handle)) [
        | inl k ↦ elim (Option-cases (env.find_contiguous_wsm d.log tci_handle fd)) [
          | inr ((phys, len), e) ↦ rw (tci, e, k, prepare_tci) (inr (tci, long phys len e, refl))
          | inl e ↦ elim (Bool-cases (env.find_wsm d.log tci_handle fd == 0)) [
            | inl z ↦ rw (tci, e, z, prepare_tci) (refl, refl)
            | inr z ↦ rw (tci, e, z, k, prepare_tci) (inr (tci, omega arith, refl))
          ]
        ]
        | inr k ↦ elim (Option-cases (env.find_contiguous_wsm d.log tci_handle fd)) [
          | inr ((phys, len), e) ↦ rw (tci, e, k, prepare_tci) (omega arith, omega arith)
          | inl e ↦ elim (Bool-cases (env.find_wsm d.log tci_handle fd == 0)) [
            | inl z ↦ rw (tci, e, z, prepare_tci) (refl, refl)
            | inr z ↦ rw (tci, e, z, k, prepare_tci) (omega arith, omega arith)
          ]
        ]
      ]
    ]

Prepared-cases :
    (h n : ℕ) (d : Device) (r : Option Tci × Device)
    → Prepared h n d r
    → ((r.0 ≡ none) × Quiet h d r.1) ⊎ ((t : Tci) × (r.0 ≡ some t) × Prepared h n d (some t, r.1))
Prepared-cases h n d (none, d') quiet = inl (refl, quiet)
Prepared-cases h n d (some t, d') p = inr (t, refl, p)

too_long : ℕ → ℕ → Tci → Bool
too_long h n t = not (h == 0) && n == 0 || ltb t.len n

-- The error for a length that is too large returns with the buffer unlocked only if there is none.
refused-Quiet :
    (h n : ℕ) (t : Tci) (d d' : Device)
    → Prepared h n d (some t, d')
    → too_long h n t ≡ true
    → Quiet h d d'
unfolding too_long lock_count unlock_count
refused-Quiet h n t d d' (inl (no_tci, same)) long =
    (ap (λ e. lock_count h e.log) same, ap (λ e. unlock_count h e.log) same)
refused-Quiet h n t d d' (inr (tci, fits, same)) long = ground arith

balance_from :
    (h n : ℕ) (t : Tci) (d d' e : Device)
    → Prepared h n d (some t, d')
    → lock_count h e.log + unlock_count h d'.log + (if has_tci h n then 1 else 0)
      ≡ lock_count h d'.log + unlock_count h e.log
    → Balanced h d e
unfolding lock_count unlock_count
balance_from h n t d d' e (inl (no_tci, same)) b = ground arith
balance_from h n t d d' e (inr (tci, fits, same)) b = ground arith

-- An attempt that fails leaves the TCI buffer locked as often as it was, if a contiguous buffer is
-- as long as the client says.
pub open_session_error-Balanced :
    (env : Env) (d : Device) (connection fd : ℕ) (l : LoadData) (tci_handle tci_len tci_offset : ℕ)
    → ((phys len : ℕ)
        → env.find_contiguous_wsm d.log tci_handle fd ≡ some (phys, len)
        → tci_len ≤ len)
    → (open_session env d connection fd l tci_handle tci_len tci_offset).0 ≢ mc_drv_ok
    → Balanced tci_handle d (open_session env d connection fd l tci_handle tci_len tci_offset).2
unfolding open_session too_long
open_session_error-Balanced env d connection fd l tci_handle tci_len tci_offset long =
    let d' = (prepare_tci env d fd tci_handle tci_len tci_offset).1 in
    elim (Prepared-cases tci_handle tci_len d (prepare_tci env d fd tci_handle tci_len tci_offset)
      (prepare_tci-Prepared env d fd tci_handle tci_len tci_offset long)) [
        | inl (e, quiet) ↦ rw (e, open_session) (λ bad. omega (arith, quiet.0, quiet.1))
        | inr (t, e, p) ↦ elim (Bool-cases (too_long tci_handle tci_len t)) [
          | inl refused ↦
              let quiet = refused-Quiet tci_handle tci_len t d d' p refused in
              rw (e, refused, open_session) (λ bad. omega (arith, quiet.0, quiet.1))
          | inr taken ↦
              rw (e, taken, open_session)
                (λ bad.
                  balance_from tci_handle tci_len t d d'
                    (open_with env d' t connection l tci_handle tci_len).2 p
                    (open_with-Balanced env d' t connection l tci_handle tci_len bad))
        ]
      ]

-- If the kernel module finds a contiguous buffer that is shorter than the client says, and can
-- lock it, the call returns TCI_GREATER_THAN_WSM with the buffer locked once more and not
-- unlocked.
pub open_session_leaves_locked :
    (env : Env) (d : Device) (connection fd : ℕ) (l : LoadData)
    (tci_handle tci_len tci_offset phys len : ℕ)
    → tci_handle ≢ 0
    → env.find_contiguous_wsm d.log tci_handle fd ≡ some (phys, len)
    → len < tci_len
    → env.lock_wsm d.log tci_handle ≡ true
    → let (ret, payload, d') = open_session env d connection fd l tci_handle tci_len tci_offset in
      (ret ≡ tci_greater_than_wsm)
      × (lock_count tci_handle d'.log ≡ lock_count tci_handle d.log + 1)
      × (unlock_count tci_handle d'.log ≡ unlock_count tci_handle d.log)
unfolding open_session prepare_tci lock_count unlock_count
open_session_leaves_locked env d connection fd l tci_handle tci_len tci_offset phys len h e short
      k =
    ground arith
