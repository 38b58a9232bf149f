-- ===== src/Prelude/Bits.antt =====
-- `&` with a mask of ones and `|` of separate fields, as arithmetic.
use Prim.Native.Nat.{
  ℕ, zero, suc, ◌+◌, ◌-◌, ◌*◌, ◌/◌, ◌%◌, ◌^◌, ◌≤◌, ◌<◌, min, max, bit_and, bit_or, digits, bitwise,
  bit_and-bitwise, bit_or-bitwise,
}
use mathlib.Core.Path.{◌≡◌, refl, sym, ap, ◌∙◌}
use native.Mathlib.Omega.{arith}
use native.Mathlib.Nat.{
  mod-lt, mod-eq_of_lt, div-add-mod, mul-add-mod_self_left, two-pow-succ, one-le-pow,
}

-- An operation that goes digit by digit, with `z` for what is left when the first number ends.
module _ (z : ℕ → ℕ) (f : ℕ → ℕ → ℕ) where
  no_digit : (count b : ℕ) → digits z f count 0 b ≡ z b
  no_digit zero b = refl
  no_digit (suc count) b = refl

  -- Any two counts that are large enough give the same.
  spare_count : (i j x y : ℕ) → x ≤ j → j ≤ i → digits z f i x y ≡ digits z f j x y
  spare_count i j zero y small large = no_digit i y ∙ sym (no_digit j y)
  spare_count i zero (suc x) y small large = absurd (omega arith)
  spare_count zero (suc j) (suc x) y small large = absurd (omega arith)
  spare_count (suc i) (suc j) (suc x) y small large =
      ap (λ (r : ℕ). r * 2 + f (suc x % 2) (y % 2))
        (spare_count i j (suc x / 2) (y / 2) (omega arith) (omega arith))

  bitwise_lem :
      (x y : ℕ)
      → bitwise z f (suc x) y ≡ bitwise z f (suc x / 2) (y / 2) * 2 + f (suc x % 2) (y % 2)
  bitwise_lem x y =
      ap (λ (r : ℕ). r * 2 + f (suc x % 2) (y % 2))
        (spare_count x (suc x / 2) (suc x / 2) (y / 2) (omega arith) (omega arith))

and_half : (x y : ℕ) → bit_and x y ≡ bit_and (x / 2) (y / 2) * 2 + min (x % 2) (y % 2)
and_half zero y = omega (arith, bit_and-bitwise 0 y, bit_and-bitwise 0 (y / 2))
and_half (suc x) y =
    bit_and-bitwise (suc x) y
    ∙ bitwise_lem (λ _. 0) min x y
    ∙ ap (λ (r : ℕ). r * 2 + min (suc x % 2) (y % 2)) (sym (bit_and-bitwise (suc x / 2) (y / 2)))

or_half : (x y : ℕ) → bit_or x y ≡ bit_or (x / 2) (y / 2) * 2 + max (x % 2) (y % 2)
or_half zero y = omega (arith, bit_or-bitwise 0 y, bit_or-bitwise 0 (y / 2))
or_half (suc x) y =
    bit_or-bitwise (suc x) y
    ∙ bitwise_lem (λ r. r) max x y
    ∙ ap (λ (r : ℕ). r * 2 + max (suc x % 2) (y % 2)) (sym (bit_or-bitwise (suc x / 2) (y / 2)))

no_mask : (bound x : ℕ) → x ≤ bound → bit_and x 0 ≡ 0
no_mask zero x small =
    omega (arith, bit_and-bitwise 0 0, ap (λ (r : ℕ). bit_and r 0) (zero_only x small))
  where
    zero_only : (y : ℕ) → y ≤ 0 → y ≡ 0
    zero_only y h = omega arith
no_mask (suc bound) x small = omega (arith, and_half x 0, no_mask bound (x / 2) (omega arith))

-- One digit of a remainder by a power of two.
mod_double : (a m : ℕ) → 0 < m → a % (m + m) ≡ a / 2 % m * 2 + a % 2
mod_double a m h =
    let split : a ≡ (m + m) * (a / 2 / m) + (a / 2 % m * 2 + a % 2) =
      omega (arith, div-add-mod (a / 2) m) in
    ap (λ (x : ℕ). x % (m + m)) split
    ∙ mul-add-mod_self_left (m + m) (a / 2 / m) (a / 2 % m * 2 + a % 2)
    ∙ mod-eq_of_lt (omega (arith, mod-lt (a / 2) h))

-- `a & (2^k - 1)` keeps the k lowest digits.
pub bit_and_mask : (k a : ℕ) → bit_and a (2 ^ k - 1) ≡ a % 2 ^ k
bit_and_mask zero a = omega (arith, no_mask a a (omega arith))
bit_and_mask (suc k) a =
    let doubled : 2 ^ suc k ≡ 2 ^ k + 2 ^ k = two-pow-succ k in
    let pos : 0 < 2 ^ k = one-le-pow k 2 (omega arith) in
    let half : (2 ^ suc k - 1) / 2 ≡ 2 ^ k - 1 = omega arith in
    omega (
      arith,
      and_half a (2 ^ suc k - 1),
      ap (bit_and (a / 2)) half,
      bit_and_mask k (a / 2),
      mod_double a (2 ^ k) pos,
      ap (λ (m : ℕ). a % m) doubled,
    )

-- `0xF | b` where the four lowest digits of `b` are clear.
pub bit_or_fifteen : (b : ℕ) → bit_or 15 (b * 16) ≡ b * 16 + 15
bit_or_fifteen b = omega (
  arith,
  or_half 15 (b * 16),
  or_half 7 (b * 16 / 2),
  or_half 3 (b * 16 / 2 / 2),
  or_half 1 (b * 16 / 2 / 2 / 2),
  bit_or-bitwise 0 (b * 16 / 2 / 2 / 2 / 2),
)
