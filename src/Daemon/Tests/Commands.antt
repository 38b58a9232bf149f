-- ===== src/Daemon/Tests/Commands.antt =====
-- The registry's commands on a daemon and a disk.
use trustonic_tee_user_space.Prelude.{◌≡◌, refl, true, [], ◌∷◌, some, take, arith}
use trustonic_tee_user_space.Status.{mc_drv_ok, invalid_operation}
use trustonic_tee_user_space.Registry.{FileSystem}
use trustonic_tee_user_space.Registry.Tests.{working, with_token}
use trustonic_tee_user_space.Daemon.{container, write_data, write_result}
use trustonic_tee_user_space.Daemon.RegistryCommands.{
  Peer, check_permission, reg_read_sp_cont, reg_write_sp_cont, process_registry_read_data,
  process_registry_write_data,
}
use trustonic_tee_user_space.Daemon.Containers.{process_registry_read_data-write}
use trustonic_tee_user_space.Daemon.Tests.{system, daemon}

-- The peer is in the daemon's group; the other is not.
abbrev member : Peer
member = record { checks = true; credentials = some (1000, 7); uid = 0; gid = 7 }

abbrev stranger : Peer
stranger = record { checks = true; credentials = some (1000, 8); uid = 0; gid = 7 }

stranger_refused :
    process_registry_write_data working system stranger daemon with_token 1
      (some 2)
      (reg_write_sp_cont (some 3) (some (5 ∷ 6 ∷ [])))
    ≡ some (write_result 1 invalid_operation daemon, with_token)
unfolding process_registry_write_data check_permission
stranger_refused = refl

process_registry_read_data-write_example :
    (fs' : FileSystem) × (process_registry_write_data working system member daemon with_token 1
        (some 2)
        (reg_write_sp_cont (some 3) (some (5 ∷ 6 ∷ [])))
      ≡ some (write_result 1 mc_drv_ok daemon, fs'))
    × (process_registry_read_data working fs' member daemon 2 (reg_read_sp_cont (some 3))
        ≡ write_data 2 (container (take 512 (5 ∷ 6 ∷ []))) (write_result 2 mc_drv_ok daemon))
unfolding check_permission
process_registry_read_data-write_example =
    process_registry_read_data-write working (λ fs p. refl) (λ fs p. refl) (λ fs p size. refl)
      (λ fs p. refl) (λ fs p. refl) system member member daemon daemon with_token 1 2 2 0x7000 3 5
      (6 ∷ []) refl refl refl (omega arith) (omega arith)
