-- ===== src/NotificationQueue/Window.antt =====
-- The entries between the two counters of a ring, oldest first, and when a ring is well formed.
use Prim.Native.Nat.{◌∣◌}
use native.Mathlib.Nat.{
  mod-mod_of_dvd, dvd_refl, dvd-mul_right_of_dvd, le_of_dvd, pow-suc, mod-lt, one-le-pow,
  mod-add-mod,
}
use trustonic_tee_user_space.Prelude.{
  ℕ, zero, suc, ◌+◌, ◌-◌, ◌%◌, ◌^◌, ◌≤◌, ◌<◌, ◌≡◌, ◌≢◌, refl, sym, ap, ◌∙◌, List, [], ◌∷◌, ◌++◌,
  length, set, arith, get_or, get_or-set_ne,
}
use trustonic_tee_user_space.Prelude.Bits.{bit_and_mask}
use trustonic_tee_user_space.Prelude.Words.{u32_mod, sub32}
use trustonic_tee_user_space.NotificationQueue.{Notification, Ring, slot}

-- The ring has 2 ^ k slots, k below 32, and holds at most so many entries.
pub record IsValid (k : ℕ) (r : Ring) : Type 0 where
  pub width : k < 32
  pub size : r.queue_size ≡ 2 ^ k
  pub slots_there : length r.slots ≡ 2 ^ k
  pub write_word : r.write_cnt < u32_mod
  pub read_word : r.read_cnt < u32_mod
  pub bounded : sub32 r.write_cnt r.read_cnt ≤ 2 ^ k

abbrev pub blank : Notification
blank = record { session_id = 0; payload = 0 }

-- `n` entries from the counter `c` on.
abbrev pub window : ℕ → List Notification → ℕ → ℕ → List Notification
window k xs c zero = []
window k xs c (suc n) = get_or xs (c % 2 ^ k) blank ∷ window k xs (c + 1) n

abbrev pub contents : ℕ → Ring → List Notification
contents k r = window k r.slots r.read_cnt (sub32 r.write_cnt r.read_cnt)

pub length-window : (k : ℕ) (xs : List Notification) (c n : ℕ) → length (window k xs c n) ≡ n
length-window k xs c zero = refl
length-window k xs c (suc n) = ap suc (length-window k xs (c + 1) n)

pub window_snoc :
    (k : ℕ) (xs : List Notification) (c n : ℕ)
    → window k xs c (suc n) ≡ window k xs c n ++ get_or xs ((c + n) % 2 ^ k) blank ∷ []
window_snoc k xs c zero = let e : c + 0 ≡ c = omega arith in rw e
window_snoc k xs c (suc n) =
    let e : c + suc n ≡ c + 1 + n = omega arith in
    rw e (ap (λ t. get_or xs (c % 2 ^ k) blank ∷ t) (window_snoc k xs (c + 1) n))

pow-dvd : (k d n : ℕ) → k + d ≡ n → 2 ^ k ∣ 2 ^ n
pow-dvd k zero n e = let e' : k ≡ n = omega arith in rw (← e') (dvd_refl (2 ^ k))
pow-dvd k (suc d) zero e = absurd (omega arith)
pow-dvd k (suc d) (suc n) e =
    rw (pow-suc 2 n) (dvd-mul_right_of_dvd (2 ^ k) (pow-dvd k d n (omega arith)) 2)

-- 2 ^ k divides 2 ^ 32, so a counter that wraps keeps its slot.
pub mod_word : (k c : ℕ) → k < 32 → c % u32_mod % 2 ^ k ≡ c % 2 ^ k
mod_word k c h = mod-mod_of_dvd (2 ^ k) c (pow-dvd k (32 - k) 32 (omega arith))

pub slot_lem : (k c : ℕ) → k < 32 → slot c (2 ^ k) ≡ c % 2 ^ k
unfolding sub32
slot_lem k c h =
    let pos : 0 < 2 ^ k = one-le-pow k 2 (omega arith) in
    let small : 2 ^ k ≤ 2 ^ 32 = le_of_dvd (omega arith) (pow-dvd k (32 - k) 32 (omega arith)) in
    let minus : (2 ^ k + u32_mod - 1) % u32_mod ≡ 2 ^ k - 1 = omega arith in
    rw minus (bit_and_mask k c)

-- Two counters less than a ring apart have different slots.
pub slots_apart : (m c d : ℕ) → 0 < d → d < m → c % m ≢ (c + d) % m
slots_apart m c d p q e = grind (arith, mod-add-mod c m d, mod-lt c {m = m} (omega arith))

-- The entries depend on the counter only through its slot.
pub window_same :
    (k : ℕ) (xs : List Notification) (c c' n : ℕ)
    → c % 2 ^ k ≡ c' % 2 ^ k
    → window k xs c n ≡ window k xs c' n
window_same k xs c c' zero e = refl
window_same k xs c c' (suc n) e = rw (e, window_same k xs (c + 1) (c' + 1) n next)
  where
    next : (c + 1) % 2 ^ k ≡ (c' + 1) % 2 ^ k
    next =
        sym (mod-add-mod c (2 ^ k) 1) ∙ ap (λ (x : ℕ). (x + 1) % 2 ^ k) e ∙ mod-add-mod c' (2 ^ k) 1

-- A write outside the window leaves it.
pub window-set :
    (k : ℕ) (xs : List Notification) (c d n j : ℕ) (v : Notification)
    → n ≤ d
    → d < 2 ^ k
    → j ≡ (c + d) % 2 ^ k
    → window k (set xs j v) c n ≡ window k xs c n
window-set k xs c d zero j v p q e = refl
window-set k xs c d (suc n) j v p q e =
    let next : j ≡ (c + 1 + (d - 1)) % 2 ^ k = e ∙ ap (λ (x : ℕ). x % 2 ^ k) (omega arith) in
    rw (head, window-set k xs (c + 1) (d - 1) n j v (omega arith) (omega arith) next)
  where
    head : get_or (set xs j v) (c % 2 ^ k) blank ≡ get_or xs (c % 2 ^ k) blank
    head = get_or-set_ne xs v blank (λ h. slots_apart (2 ^ k) c d (omega arith) q (sym h ∙ e))
