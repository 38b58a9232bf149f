-- ===== src/Daemon/Tests.antt =====
-- A concrete daemon and its commands.
mod Commands
use trustonic_tee_user_space.Prelude.{
  ℕ, zero, suc, ◌+◌, ◌≡◌, ◌≢◌, refl, true, false, List, [], ◌∷◌, none, some, arith, ◌==◌,
  if◌then◌else◌, Bool-cases, inl, inr, ◌<◌, subst,
}
use trustonic_tee_user_space.Status.{mc_drv_ok, daemon_socket}
use trustonic_tee_user_space.Device.{Event}
use trustonic_tee_user_space.Device.Ownership.{Fresh}
use trustonic_tee_user_space.Device.Tests.{world, device, three, three-Distinct}
use trustonic_tee_user_space.Device.Locks.{lock_count, unlock_count}
use trustonic_tee_user_space.Daemon.{
  World, Daemon, RegObject, has_device, payload, wrong_length, write_result, result,
}
use trustonic_tee_user_space.Daemon.Services.{TciRequest}
use trustonic_tee_user_space.Daemon.Trustlet.{Reads, OpenTrustletRequest, read_trustlet}
use trustonic_tee_user_space.Daemon.Process.{
  NqRequest, MapRequest, UnmapRequest, process_nq_connect, process_map_bulk_buf,
  process_unmap_bulk_buf,
}
use trustonic_tee_user_space.Daemon.Dispatch.{
  Request, open_trusted_app, close_session_request, open_trustlet, handle_command,
}
use trustonic_tee_user_space.Daemon.Reading.{
  Complete, Progress, Closed, read_trustlet-Complete, open_trustlet-hangs,
}
use trustonic_tee_user_space.Daemon.Isolation.{Spares}
use trustonic_tee_user_space.Daemon.Others.{handle_command-Spares}
use trustonic_tee_user_space.Daemon.Answers.{Loops, handle_command-Answers}
use trustonic_tee_user_space.Daemon.Answers.Opens.{Answers}
use trustonic_tee_user_space.Daemon.Unopened.{handle_command-not_open}
use trustonic_tee_user_space.Daemon.Connect.{Connected, process_nq_connect-Connected}
use trustonic_tee_user_space.Daemon.BufferLocks.{
  process_map_bulk_buf-stays_locked, process_unmap_bulk_buf-unlocks,
}

abbrev service : RegObject
service = record { value = 0x5010; len = 900; tl_start_offset = 16; uuid = 5 }

-- The registry knows the service 5; a blob that is sent is taken as it is.
abbrev pub system : World
system = record {
  env = world 0 0;
  register_wsm = λ _ _ _. some (40, 65536);
  unregister_wsm = λ _ _. true;
  service_blob = λ _ u _. if u == 5 then some service else none;
  mem_service_blob = λ _ _ _. some service;
  malloc = λ _ _. some 0x7000;
  socket_descriptor = λ c. c + 10;
}

-- Connections 1 and 2 have opened the device, with their sessions; 7 has not.
abbrev pub daemon : Daemon
daemon = record {
  device = device (three 1) false;
  opened = 1 ∷ 2 ∷ [];
  attached = 1 ∷ 2 ∷ 7 ∷ [];
  replies = [];
}

unused : (log : List Event) → Fresh (system.env.new_address log) (three 1)
unused log = (omega arith, (omega arith, (omega arith, tt)))

abbrev buffer : TciRequest
buffer = record { handle = 6; len = 64; tci = 0 }

abbrev open_request : Request
open_request = open_trusted_app (payload (record { uuid = 5; buffer = buffer }))

handle_command-Spares_example : Spares 1 daemon (handle_command 9 system daemon 1 open_request)
handle_command-Spares_example =
    handle_command-Spares 9 system daemon 1 open_request tt (three-Distinct 1) unused

handle_command-Answers_example :
    Answers (Loops open_request) 1 daemon (handle_command 9 system daemon 1 open_request)
handle_command-Answers_example = handle_command-Answers 9 system daemon 1 open_request tt

handle_command-not_open_example :
    handle_command 9 system daemon 7 (close_session_request wrong_length)
    ≡ some (write_result 7 daemon_socket daemon)
unfolding has_device
handle_command-not_open_example =
    handle_command-not_open 9 system daemon 7 (close_session_request wrong_length) tt refl

abbrev trustlet : OpenTrustletRequest
trustlet = record { spid = 1; trustlet_len = 3; buffer = buffer }

-- The peer sends two bytes a time at most.
abbrev slow : Reads
slow = λ _ asked. if asked == 1 then some (8 ∷ []) else some (8 ∷ 9 ∷ [])

-- Here it sends one byte, then another, and closes.
abbrev broken : Reads
broken zero asked = some (8 ∷ [])
broken (suc zero) asked = some (9 ∷ [])
broken (suc (suc i)) asked = some []

slow-Progress : (i asked : ℕ) → 0 < asked → Progress asked (slow i asked)
slow-Progress i asked h = elim (Bool-cases (asked == 1)) [
  | inl e ↦ rw e (omega arith, ground arith)
  | inr e ↦ rw e (omega arith, ground arith)
]

read_trustlet-Complete_example : Complete 3 (read_trustlet 4 slow 0 3 [])
read_trustlet-Complete_example =
    read_trustlet-Complete 4 slow 0 3 [] slow-Progress (omega arith) (omega arith)

read_run : read_trustlet 4 slow 0 3 [] ≡ some (some (8 ∷ 9 ∷ 8 ∷ []))
unfolding read_trustlet
read_run = refl

some-ne-none : (a : ℕ) → some a ≢ none
some-ne-none a e = cc

broken-Closed : Closed 2 broken
broken-Closed i asked =
    let next : suc (suc i) ≡ 2 + i = omega arith in subst (λ j. broken j asked ≡ some []) next refl

open_trustlet-hangs_example :
    handle_command 1000 system daemon 1 (open_trustlet broken (payload trustlet)) ≡ none
unfolding has_device
open_trustlet-hangs_example =
    open_trustlet-hangs 1000 system daemon 1 broken trustlet ((8 ∷ []) ∷ (9 ∷ []) ∷ []) refl
      (some-ne-none 0x7000) (refl, omega arith, (refl, omega arith, (omega arith, broken-Closed)))

-- Session 9 of connection 2 is at address 2000.
abbrev connect : NqRequest
connect = record {
  device_id = 0;
  target = record { device_session_id = 2000; session_id = 9; session_magic = 1 };
}

process_nq_connect-Connected_example :
    (d' : Daemon) × (process_nq_connect daemon 7 (payload connect) ≡ some d')
    × Connected daemon 7 connect.target d'
unfolding has_device
process_nq_connect-Connected_example =
    process_nq_connect-Connected daemon 7 connect (three-Distinct 1) refl

-- Buffer 5 is known to the kernel module.
abbrev map_request : MapRequest
map_request = record { session_id = 7; handle = 5; offset_payload = 0; len_bulk_mem = 8 }

process_map_bulk_buf-stays_locked_example :
    (d' : Daemon) × (process_map_bulk_buf system daemon 1 (payload map_request) ≡ some d')
    × (lock_count 5 d'.device.log ≡ suc (lock_count 5 daemon.device.log))
    × (unlock_count 5 d'.device.log ≡ unlock_count 5 daemon.device.log)
unfolding has_device
process_map_bulk_buf-stays_locked_example =
    process_map_bulk_buf-stays_locked system daemon 1 map_request refl refl

abbrev unmap_request : UnmapRequest
unmap_request = record { session_id = 7; handle = 5; secure_virtual_adr = 0; len_bulk_mem = 8 }

process_unmap_bulk_buf-unlocks_example :
    (d' : Daemon) × (ret : ℕ) × (process_unmap_bulk_buf system daemon 1 (payload unmap_request)
      ≡ some d')
    × (d'.replies ≡ (1, result ret) ∷ [])
    × (lock_count 5 d'.device.log ≡ lock_count 5 daemon.device.log)
    × (unlock_count 5 d'.device.log
        ≡ unlock_count 5 daemon.device.log + (if ret == mc_drv_ok then 1 else 0))
unfolding has_device
process_unmap_bulk_buf-unlocks_example =
    process_unmap_bulk_buf-unlocks system daemon 1 unmap_request refl
