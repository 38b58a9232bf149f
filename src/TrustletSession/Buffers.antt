-- ===== src/TrustletSession/Buffers.antt =====
-- The buffers that a session maps, by handle.
use trustonic_tee_user_space.Prelude.{
  ℕ, ◌≡◌, refl, true, false, [], ◌∷◌, none, some, arith, ◌==◌, if◌then◌else◌,
}
use trustonic_tee_user_space.OrdMap.{
  OrdMap, find, insert, erase, IsSorted, find-insert, find-erase, insert-IsSorted, erase-IsSorted,
}
use trustonic_tee_user_space.TrustletSession.{TrustletSession, Wsm, add_bulk_buff, remove_bulk_buff}

-- Each buffer stands under its own handle.
abbrev pub Keyed : OrdMap Wsm → Type 0
Keyed [] = Unit
Keyed ((k, w) ∷ m) = (k ≡ w.handle) × Keyed m

pub record IsValid (s : TrustletSession) : Type 0 where
  pub sorted : IsSorted s.buffers
  pub keyed : Keyed s.buffers

insert-Keyed : (w : Wsm) (m : OrdMap Wsm) → Keyed m → Keyed (insert w.handle w m)
unfolding insert
insert-Keyed w [] h = (refl, tt)
insert-Keyed w ((j, v) ∷ m) h = ground (arith, insert-Keyed w m h.1)

erase-Keyed : (k : ℕ) (m : OrdMap Wsm) → Keyed m → Keyed (erase k m)
unfolding erase
erase-Keyed k [] h = tt
erase-Keyed k ((j, v) ∷ m) h = ground (arith, erase-Keyed k m h.1)

pub add_bulk_buff-IsValid :
    (s : TrustletSession) (w : Wsm) → IsValid s → IsValid (add_bulk_buff s w).0
unfolding add_bulk_buff
add_bulk_buff-IsValid s w v =
    ground (arith, insert-IsSorted w.handle w s.buffers v.sorted, insert-Keyed w s.buffers v.keyed)

pub remove_bulk_buff-IsValid :
    (s : TrustletSession) (handle : ℕ) → IsValid s → IsValid (remove_bulk_buff s handle).0
unfolding remove_bulk_buff
remove_bulk_buff-IsValid s handle v =
    ground (arith, erase-IsSorted handle s.buffers v.sorted, erase-Keyed handle s.buffers v.keyed)

-- In a well formed session a buffer that is added is found under its handle; a second one under
-- the same handle is refused and the first stays; what the other handles find does not change, and
-- the session stays well formed.
pub add_bulk_buff-find :
    (s : TrustletSession) (w : Wsm)
    → IsValid s
    → let (s', done) = add_bulk_buff s w in
      IsValid s'
      × (done ≡ elim (find w.handle s.buffers) [ none ↦ true | some _ ↦ false ])
      × ((h : ℕ)
          → find h s'.buffers ≡ (
              if w.handle == h
              then elim (find h s.buffers) [ none ↦ some w | some x ↦ some x ]
              else find h s.buffers))
unfolding add_bulk_buff
add_bulk_buff-find s w v = (
  add_bulk_buff-IsValid s w v,
  ground arith,
  λ h. ground (arith, find-insert h w.handle w s.buffers v.sorted),
)

-- In a well formed session a buffer that is removed is found no more, and what the other handles
-- find does not change; a handle without a buffer is refused; the session stays well formed.
pub remove_bulk_buff-find :
    (s : TrustletSession) (handle : ℕ)
    → IsValid s
    → let (s', done) = remove_bulk_buff s handle in
      IsValid s'
      × (done ≡ elim (find handle s.buffers) [ none ↦ false | some _ ↦ true ])
      × ((h : ℕ) → find h s'.buffers ≡ (if handle == h then none else find h s.buffers))
unfolding remove_bulk_buff
remove_bulk_buff-find s handle v = (
  remove_bulk_buff-IsValid s handle v,
  ground arith,
  λ h. ground (arith, find-erase h handle s.buffers v.sorted),
)
