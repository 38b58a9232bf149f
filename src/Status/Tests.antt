-- ===== src/Status/Tests.antt =====
-- The theorems on result codes at concrete codes.
use trustonic_tee_user_space.Prelude.{◌≡◌, refl}
use trustonic_tee_user_space.Status.{mcp_close_task_failed, make_mcp_error}

close_task_failed_packed : make_mcp_error mcp_close_task_failed ≡ 0x1C0F
unfolding make_mcp_error
close_task_failed_packed = refl
