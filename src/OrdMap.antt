-- ===== src/OrdMap.antt =====
-- What MobiCoreDriverLib/Daemon/Device/TrustletSession.cpp uses of `std::map<uint32_t, T>`: an
-- association list in the order of its keys.
use trustonic_tee_user_space.Prelude.{
  ℕ, ◌+◌, ◌<◌, ◌≡◌, refl, List, [], ◌∷◌, Option, none, some, arith, ltb, ◌==◌, if◌then◌else◌,
}

abbrev pub OrdMap {ℓ} : Type ℓ → Type ℓ
OrdMap V = List (ℕ × V)

module _ {ℓ} {V : Type ℓ} where
  unfoldable pub find : ℕ → OrdMap V → Option V
  find k [] = none
  find k ((j, v) ∷ m) = if j == k then some v else find k m

  -- `m[k] = v`
  unfoldable pub insert : ℕ → V → OrdMap V → OrdMap V
  insert k v [] = (k, v) ∷ []
  insert k v ((j, w) ∷ m) =
      if ltb k j then (k, v) ∷ (j, w) ∷ m else if j == k then (k, v) ∷ m else (j, w) ∷ insert k v m

  unfoldable pub erase : ℕ → OrdMap V → OrdMap V
  erase k [] = []
  erase k ((j, w) ∷ m) = if j == k then m else (j, w) ∷ erase k m

  -- Every key is above `k`, and the keys rise.
  abbrev pub Above : ℕ → OrdMap V → Type 0
  Above k [] = Unit
  Above k ((j, w) ∷ m) = (k < j) × Above j m

  abbrev pub IsSorted : OrdMap V → Type 0
  IsSorted [] = Unit
  IsSorted ((j, w) ∷ m) = Above j m

  Above-trans : (i k : ℕ) (m : OrdMap V) → i < k → Above k m → Above i m
  Above-trans i k [] h a = tt
  Above-trans i k ((j, w) ∷ m) h a = (omega arith, a.1)

  Above-IsSorted : (k : ℕ) (m : OrdMap V) → Above k m → IsSorted m
  Above-IsSorted k [] a = tt
  Above-IsSorted k ((j, w) ∷ m) a = a.1

  find-Above : (i k : ℕ) (m : OrdMap V) → i < k + 1 → Above k m → find i m ≡ none
  unfolding find
  find-Above i k [] h a = refl
  find-Above i k ((j, w) ∷ m) h a = ground (arith, find-Above i j m)

  -- Looking up after an insertion, a removal.
  pub find-insert :
      (i k : ℕ) (v : V) (m : OrdMap V)
      → IsSorted m
      → find i (insert k v m) ≡ (if k == i then some v else find i m)
  unfolding find insert
  find-insert i k v [] a = refl
  find-insert i k v ((j, w) ∷ m) a = ground (arith, find-insert i k v m (Above-IsSorted j m a))

  pub find-erase :
      (i k : ℕ) (m : OrdMap V)
      → IsSorted m
      → find i (erase k m) ≡ (if k == i then none else find i m)
  unfolding find erase
  find-erase i k [] a = ground arith
  find-erase i k ((j, w) ∷ m) a =
      ground (arith, find-erase i k m (Above-IsSorted j m a), find-Above i j m)

  insert-Above : (i k : ℕ) (v : V) (m : OrdMap V) → i < k → Above i m → Above i (insert k v m)
  unfolding insert
  insert-Above i k v [] h a = (h, tt)
  insert-Above i k v ((j, w) ∷ m) h a = ground (arith, insert-Above j k v m, Above-trans i j m)

  pub insert-IsSorted : (k : ℕ) (v : V) (m : OrdMap V) → IsSorted m → IsSorted (insert k v m)
  unfolding insert
  insert-IsSorted k v [] a = tt
  insert-IsSorted k v ((j, w) ∷ m) a = ground (arith, insert-Above j k v m)

  erase-Above : (i k : ℕ) (m : OrdMap V) → Above i m → Above i (erase k m)
  unfolding erase
  erase-Above i k [] a = tt
  erase-Above i k ((j, w) ∷ m) a = ground (arith, erase-Above j k m a.1, Above-trans i j m)

  pub erase-IsSorted : (k : ℕ) (m : OrdMap V) → IsSorted m → IsSorted (erase k m)
  unfolding erase
  erase-IsSorted k [] a = tt
  erase-IsSorted k ((j, w) ∷ m) a = ground (arith, erase-Above j k m a, Above-IsSorted j m a)
