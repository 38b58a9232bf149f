-- ===== src/Client/Api/Codes.antt =====
-- The codes that the open calls of the client API make of the daemon's.
use trustonic_tee_user_space.Prelude.{
  ℕ, ◌<◌, ◌≡◌, refl, ap, true, ◌^◌, List, [], ◌∷◌, ◌==◌, if◌then◌else◌,
}
use trustonic_tee_user_space.Status.Codes.{error_mcp-make_mcp_error}
use trustonic_tee_user_space.Status.{
  make_mcp_error, mcp_error, error_major, error_mcp, trustlet_not_found, mcp_unknown_uuid,
  mcp_no_more_sessions, mcp_wrong_public_key, mcp_container_type_mismatch, mcp_container_locked,
  mcp_sp_no_child, mcp_tl_no_child, mcp_unwrap_root_failed, mcp_unwrap_sp_failed,
  mcp_unwrap_trustlet_failed, mcp_service_blocked, mcp_service_locked, mcp_service_killed,
  wrong_public_key, container_type_mismatch, container_locked, sp_no_child, tl_no_child,
  unwrap_root_failed, unwrap_sp_failed, unwrap_trustlet_failed, service_blocked, service_locked,
  service_killed, no_free_instances,
}

-- A `switch`: from MCP code to result code.
unfoldable pub table_code : List (ℕ × ℕ) → ℕ → ℕ
table_code [] mcp = mcp_error
table_code ((from, to) ∷ rest) mcp = if from == mcp then to else table_code rest mcp

-- The labels that mcOpenTrustlet has, and the first of the other two calls.
abbrev pub open_trustlet_codes : List (ℕ × ℕ)
open_trustlet_codes =
    (mcp_wrong_public_key, wrong_public_key)
    ∷ (mcp_container_type_mismatch, container_type_mismatch)
    ∷ (mcp_container_locked, container_locked)
    ∷ (mcp_sp_no_child, sp_no_child)
    ∷ (mcp_tl_no_child, tl_no_child)
    ∷ (mcp_unwrap_root_failed, unwrap_root_failed)
    ∷ (mcp_unwrap_sp_failed, unwrap_sp_failed)
    ∷ (mcp_unwrap_trustlet_failed, unwrap_trustlet_failed)
    ∷ []

-- mcOpenSession: a blocked or locked service is reported as a locked container.
abbrev pub open_session_codes : List (ℕ × ℕ)
open_session_codes =
    (mcp_service_blocked, container_locked)
    ∷ (mcp_service_locked, container_locked)
    ∷ (mcp_unknown_uuid, trustlet_not_found)
    ∷ open_trustlet_codes

abbrev pub open_gpta_codes : List (ℕ × ℕ)
open_gpta_codes =
    (mcp_unknown_uuid, trustlet_not_found)
    ∷ (mcp_service_blocked, service_blocked)
    ∷ (mcp_service_locked, service_locked)
    ∷ (mcp_service_killed, service_killed)
    ∷ (mcp_no_more_sessions, no_free_instances)
    ∷ open_trustlet_codes

-- A code of the daemon other than success.
unfoldable pub open_error : List (ℕ × ℕ) → ℕ → ℕ
unfolding table_code
open_error codes code =
    if error_major code == mcp_error then table_code codes (error_mcp code) else code

-- What the client makes of an MCP code below 256 that the daemon passes on is what the switch says
-- of that code.
pub open_error-make_mcp_error :
    (codes : List (ℕ × ℕ)) (mcp : ℕ)
    → mcp < 2 ^ 8
    → open_error codes (make_mcp_error mcp) ≡ table_code codes mcp
unfolding open_error
open_error-make_mcp_error codes mcp h =
    let (major, back, detail) = error_mcp-make_mcp_error mcp h in
    let is_mcp : (error_major (make_mcp_error mcp) == mcp_error) ≡ true = rw major refl in
    rw is_mcp (ap (table_code codes) back)
