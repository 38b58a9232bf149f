-- ===== src/Daemon/Trustlet.antt =====
-- MobiCoreDriverDaemon::processOpenTrustlet: the client sends the service's blob.
use trustonic_tee_user_space.Prelude.{
  ℕ, zero, suc, ◌-◌, false, List, [], ◌++◌, Option, none, some, if◌then◌else◌, ltb, length,
}
use trustonic_tee_user_space.Status.{daemon_socket, trustlet_not_found}
use trustonic_tee_user_space.Daemon.{
  World, Daemon, Received, write_result, recv_payload, check_device,
}
use trustonic_tee_user_space.Daemon.Services.{TciRequest, open_service}

-- `MC_DRV_CMD_OPEN_TRUSTLET_struct`; the device id in it is not read.
pub record OpenTrustletRequest : Type 0 where
  pub spid : ℕ
  pub trustlet_len : ℕ
  pub buffer : TciRequest

-- The i-th read of a connection: an error, or the bytes that it gives of those asked for; none if
-- the peer has closed.
abbrev pub Reads : Type 0
Reads = (round asked : ℕ) → Option (List ℕ)

-- The loop that reads the blob: the outer `none` is out of fuel, the inner one a read error.
unfoldable pub read_trustlet :
    ℕ → Reads → (round len : ℕ) → (got : List ℕ) → Option (Option (List ℕ))
read_trustlet zero reads round len got = none
read_trustlet (suc fuel) reads round len got =
    if ltb (length got) len
    then elim (reads round (len - length got)) [
      | none ↦ some none
      | some bytes ↦ read_trustlet fuel reads (suc round) len (got ++ bytes)
    ]
    else some (some got)

-- The rest, with the blob.
unfoldable pub open_blob :
    World → Daemon → (connection : ℕ) → OpenTrustletRequest → (blob : List ℕ) → Daemon
unfolding open_service
open_blob w d connection cmd blob = elim (w.mem_service_blob d.device.log cmd.spid blob) [
  | none ↦ write_result connection trustlet_not_found d
  | some obj ↦ open_service w d connection obj false cmd.buffer
]

unfoldable pub receive_blob :
    ℕ → World → Daemon → (connection : ℕ) → Reads → OpenTrustletRequest → Option Daemon
unfolding read_trustlet open_blob
receive_blob fuel w d connection reads cmd = elim (w.malloc d.device.log cmd.trustlet_len) [
  | none ↦ some (write_result connection daemon_socket d)
  | some _ ↦ elim (read_trustlet fuel reads 0 cmd.trustlet_len []) [
    | none ↦ none
    | some none ↦ some (write_result connection daemon_socket d)
    | some (some blob) ↦ some (open_blob w d connection cmd blob)
  ]
]

unfoldable pub process_open_trustlet :
    ℕ → World → Daemon → (connection : ℕ) → Reads → Received OpenTrustletRequest → Option Daemon
unfolding recv_payload check_device receive_blob
process_open_trustlet fuel w d connection reads r =
    recv_payload connection r d
      (λ cmd. check_device connection d (receive_blob fuel w d connection reads cmd))
