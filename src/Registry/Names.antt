-- ===== src/Registry/Names.antt =====
-- Two service providers have different container files.
use trustonic_tee_user_space.Prelude.{
  ℕ, zero, suc, ◌*◌, ◌<◌, ◌/◌, ◌%◌, ◌^◌, ◌≡◌, ◌≢◌, subst, refl, true, false, arith, Bool-cases, inl,
  inr,
}
use native.Mathlib.Nat.{pow-suc}
use trustonic_tee_user_space.Registry.{same_digits, same_path}
use trustonic_tee_user_space.Registry.Paths.{digits, uint32_to_string, sp_cont_path}

quotient-lt : (a n : ℕ) → a < 16 ^ suc n → a / 16 < 16 ^ n
quotient-lt a n p =
    let bound : a < 16 ^ n * 16 = subst (λ m. a < m) (pow-suc 16 n) p in omega (arith, bound)

pub same_digits-digits :
    (count a b : ℕ)
    → a < 16 ^ count
    → b < 16 ^ count
    → same_digits (digits count a) (digits count b) ≡ true
    → a ≡ b
unfolding digits
same_digits-digits zero a b p q same = omega (arith, p, q)
same_digits-digits (suc count) a b p q same =
    let low : a % 16 ≡ b % 16 = ground (arith, same) in
    let high : same_digits (digits count (a / 16)) (digits count (b / 16)) ≡ true =
      ground (arith, same) in
    let quotients : a / 16 ≡ b / 16 =
      same_digits-digits count (a / 16) (b / 16) (quotient-lt a count p) (quotient-lt b count q)
        high in
    omega (arith, low, quotients)

pub sp_cont_path-other :
    (a b : ℕ)
    → a < 2 ^ 32
    → b < 2 ^ 32
    → a ≢ b
    → same_path (sp_cont_path a) (sp_cont_path b) ≡ false
unfolding same_path uint32_to_string
sp_cont_path-other a b p q other = elim (Bool-cases (same_digits (digits 8 a) (digits 8 b))) [
  | inl e ↦ absurd (other (same_digits-digits 8 a b p q e))
  | inr e ↦ rw e refl
]
