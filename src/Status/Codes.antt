-- ===== src/Status/Codes.antt =====
-- Packing an MCP result into a driver code and taking it out again.
use trustonic_tee_user_space.Prelude.{
  ℕ, ◌+◌, ◌*◌, ◌/◌, ◌%◌, ◌^◌, ◌<◌, ◌≡◌, ◌≢◌, ap, arith, bit_and, bit_or,
}
use trustonic_tee_user_space.Prelude.Bits.{bit_and_mask, bit_or_fifteen}
use trustonic_tee_user_space.Status.{
  mcp_error, make_mcp_error, error_major, error_mcp, error_detail,
}

pub make_mcp_error_lem : (c : ℕ) → make_mcp_error c ≡ c % 2 ^ 20 * 256 + 15
unfolding make_mcp_error
make_mcp_error_lem c = omega (
  arith,
  bit_and_mask 20 c,
  ap (bit_or 15) (sixteens (bit_and c 0xFFFFF)),
  bit_or_fifteen (bit_and c 0xFFFFF * 16),
)
  where
    sixteens : (x : ℕ) → x * 2 ^ 8 ≡ x * 16 * 16
    sixteens x = omega arith

-- An MCP code below 256 survives the packing, and the packed code is an MCP error.
pub error_mcp-make_mcp_error :
    (c : ℕ)
    → c < 256
    → (error_major (make_mcp_error c) ≡ mcp_error)
      × (error_mcp (make_mcp_error c) ≡ c)
      × (error_detail (make_mcp_error c) ≡ 0)
unfolding error_major error_mcp error_detail
error_mcp-make_mcp_error c h = (
  omega (arith, make_mcp_error_lem c, bit_and_mask 8 (make_mcp_error c)),
  omega (arith, make_mcp_error_lem c, bit_and_mask 8 (make_mcp_error c / 2 ^ 8)),
  omega (arith, make_mcp_error_lem c, bit_and_mask 12 (make_mcp_error c / 2 ^ 16)),
)

-- A packed code is never 0, the code of success.
pub make_mcp_error-ne-ok : (c : ℕ) → make_mcp_error c ≢ 0
make_mcp_error-ne-ok c = omega (arith, make_mcp_error_lem c)

-- Packed twice, whatever the MCP code was, the code that comes out is 15.
pub error_mcp-make_twice : (c : ℕ) → error_mcp (make_mcp_error (make_mcp_error c)) ≡ 15
unfolding error_mcp
error_mcp-make_twice c = omega (
  arith,
  make_mcp_error_lem c,
  make_mcp_error_lem (make_mcp_error c),
  bit_and_mask 8 (make_mcp_error (make_mcp_error c) / 2 ^ 8),
)
