-- ===== src/Device/Tests/Closings.antt =====
-- The theorems on closing sessions at concrete devices, and a run.
use trustonic_tee_user_space.Prelude.{
  ◌<◌, ◌≡◌, ◌≢◌, refl, true, false, [], ◌∷◌, none, some, arith, inl, inr,
}
use trustonic_tee_user_space.Status.{mc_drv_ok, make_mcp_error, mcp_close_task_failed}
use trustonic_tee_user_space.Device.{Device}
use trustonic_tee_user_space.Device.Irq.{get_trustlet_session, update_at, handle_all}
use trustonic_tee_user_space.Device.Mcp.{
  msh_notify_and_wait, notify_session, wait_mcp_notification, wait_loop, response_code,
}
use trustonic_tee_user_space.Device.Sessions.{
  find_session, deref, remove_at, unlock_buffers, free_session,
}
use trustonic_tee_user_space.Device.Close.{
  send_session_close_cmd, close_session_internal, disconnect, finish_close, close_found,
  close_session, close,
}
use trustonic_tee_user_space.Device.TaExit.{handle_ta_exit}
use trustonic_tee_user_space.Device.Skeleton.{skeleton}
use trustonic_tee_user_space.Device.Ownership.{Distinct, others}
use trustonic_tee_user_space.Device.Closing.{close_session-others}
use trustonic_tee_user_space.Device.Cleanup.{Confirms, handle_ta_exit_ends, handle_ta_exit_hangs}
use trustonic_tee_user_space.Device.Cleanup.Dead.{any_dead}
use trustonic_tee_user_space.Device.CloseAll.{Legacy, close_gp_ends, close-Legacy_hangs}
use trustonic_tee_user_space.Device.CloseAll.Owned.{Closable, count_owned}
use trustonic_tee_user_space.Device.Tests.{world, session, dead, device, three, three-Distinct}

-- The secure world confirms at once.
close_run :
    ((close_session (world 0 0) (device (three 1) false) 1 7).0 ≡ mc_drv_ok)
    × ((close_session (world 0 0) (device (three 1) false) 1 7).1.sessions
        ≡ session 2000 2 9 1 ∷ session 3000 1 8 1 ∷ [])
unfolding close_session close_found find_session get_trustlet_session disconnect update_at
    close_session_internal send_session_close_cmd msh_notify_and_wait notify_session
    wait_mcp_notification wait_loop handle_all response_code finish_close free_session
    unlock_buffers deref remove_at make_mcp_error
close_run = (refl, refl)

close_session-others_example :
    (others 1
        (skeleton (close_session (world mcp_close_task_failed 2) (device (three 1) false) 1 7).1)
      ≡ others 1 (skeleton (device (three 1) false)))
    × Distinct
        (close_session (world mcp_close_task_failed 2) (device (three 1) false) 1 7).1.sessions
close_session-others_example =
    close_session-others (world mcp_close_task_failed 2) (device (three 1) false) 1 7
      (three-Distinct 1)

three-Closable : Closable 1 (three 1)
three-Closable = (
  (λ _. refl),
  (omega arith, (omega arith, tt)),
  ((λ _. refl), (omega arith, tt), ((λ _. refl), tt, tt)),
)

three_owned : count_owned 1 (three 1) < 4
unfolding count_owned
three_owned = omega arith

close_gp_ends_example :
    (d' : Device) × (close 4 (world mcp_close_task_failed 9) (device (three 1) false) 1 ≡ some d')
    × (count_owned 1 d'.sessions ≡ 0)
    × (others 1 (skeleton d') ≡ others 1 (skeleton (device (three 1) false)))
close_gp_ends_example =
    close_gp_ends 4 (world mcp_close_task_failed 9) (device (three 1) false) 1 (three-Distinct 1)
      three-Closable three_owned

three-Legacy : Legacy 1 (three 0)
three-Legacy = ((λ _. omega arith), ((λ _. omega arith), ((λ _. omega arith), tt)))

legacy_owned : count_owned 1 (three 0) ≢ 0
unfolding count_owned
legacy_owned = omega arith

close-Legacy_hangs_example : close 100 (world 0 0) (device (three 0) true) 1 ≡ none
close-Legacy_hangs_example =
    close-Legacy_hangs 100 (world 0 0) (device (three 0) true) 1 refl three-Legacy legacy_owned

world-Confirms : Confirms (world 0 1)
world-Confirms = record {
  answers = λ l id. inr (refl, omega arith, inl refl);
  no_exit = λ _ _. refl;
  right_id = λ _ _. refl;
  done = λ _ _. refl;
}

handle_ta_exit_ends_example :
    (d' : Device) × (handle_ta_exit 5
        (world 0 1)
        (device (dead (session 1000 1 7 1) ∷ three 1) false)
      ≡ some d')
    × (any_dead d'.sessions ≡ false)
handle_ta_exit_ends_example =
    handle_ta_exit_ends 5 (world 0 1) (device (dead (session 1000 1 7 1) ∷ three 1) false)
      world-Confirms refl (omega arith)

one_dead : any_dead (dead (session 1000 1 7 1) ∷ []) ≡ true
unfolding any_dead
one_dead = refl

handle_ta_exit_hangs_example :
    handle_ta_exit 100 (world 0 0) (device (dead (session 1000 1 7 1) ∷ []) true) ≡ none
handle_ta_exit_hangs_example =
    handle_ta_exit_hangs 100 (world 0 0) (device (dead (session 1000 1 7 1) ∷ []) true) refl
      one_dead
