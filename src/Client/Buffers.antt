-- ===== src/Client/Buffers.antt =====
-- The bulk buffers of a client's session.
use trustonic_tee_user_space.Prelude.{
  ℕ, ◌≡◌, ◌≢◌, refl, sym, ap, subst, ◌∙◌, false, List, [], ◌∷◌, ◌++◌, Option, none, some, arith,
  ◌==◌, ◌||◌, if◌then◌else◌, Option-cases, Bool-cases, inl, inr, ◌⊎◌,
}
use trustonic_tee_user_space.Status.{mc_drv_ok}
use trustonic_tee_user_space.Client.{
  KernelEvent, registered, unregistered, Kernel, BulkBufferDescriptor, ClientSession,
}
use trustonic_tee_user_space.Client.Session.{
  is_mapped, add_bulk_buf, take_bulk_buf, remove_bulk_buf,
}

-- Each virtual address is mapped once.
abbrev pub Unique : List BulkBufferDescriptor → Type 0
Unique [] = Unit
Unique (b ∷ bs) = (is_mapped b.virt_addr bs ≡ false) × Unique bs

is_mapped-snoc :
    (a : ℕ) (bs : List BulkBufferDescriptor) (c : BulkBufferDescriptor)
    → is_mapped a (bs ++ c ∷ []) ≡ (is_mapped a bs || c.virt_addr == a)
unfolding is_mapped
is_mapped-snoc a [] c = ground arith
is_mapped-snoc a (b ∷ bs) c = ground (arith, is_mapped-snoc a bs c)

Unique-snoc :
    (bs : List BulkBufferDescriptor) (c : BulkBufferDescriptor)
    → Unique bs
    → is_mapped c.virt_addr bs ≡ false
    → Unique (bs ++ c ∷ [])
unfolding is_mapped
Unique-snoc [] c u h = (refl, tt)
Unique-snoc (b ∷ bs) c u h =
    (is_mapped-snoc b.virt_addr bs c ∙ ground arith, Unique-snoc bs c u.1 (ground arith))

is_mapped-take :
    (a virt_addr : ℕ) (bs : List BulkBufferDescriptor)
    → is_mapped a bs ≡ false
    → is_mapped a (take_bulk_buf virt_addr bs).1 ≡ false
unfolding is_mapped take_bulk_buf
is_mapped-take a virt_addr [] h = refl
is_mapped-take a virt_addr (b ∷ bs) h = ground (arith, is_mapped-take a virt_addr bs)

take_bulk_buf-Unique :
    (virt_addr : ℕ) (bs : List BulkBufferDescriptor)
    → Unique bs
    → Unique (take_bulk_buf virt_addr bs).1
      × (is_mapped virt_addr (take_bulk_buf virt_addr bs).1 ≡ false)
unfolding is_mapped take_bulk_buf
take_bulk_buf-Unique virt_addr [] u = (tt, refl)
take_bulk_buf-Unique virt_addr (b ∷ bs) u =
    let rest = take_bulk_buf-Unique virt_addr bs u.1 in
    let kept = is_mapped-take b.virt_addr virt_addr bs u.0 in
    elim (Bool-cases (b.virt_addr == virt_addr)) [
      | inl e ↦ rw (e, take_bulk_buf) (u.1, ground arith)
      | inr e ↦ rw (e, take_bulk_buf) ((kept, rest.0), ground arith)
    ]

take_bulk_buf-none :
    (a : ℕ) (bs : List BulkBufferDescriptor)
    → (take_bulk_buf a bs).0 ≡ none
    → is_mapped a bs ≡ false
unfolding is_mapped take_bulk_buf
take_bulk_buf-none a [] h = refl
take_bulk_buf-none a (b ∷ bs) h = ground (arith, take_bulk_buf-none a bs)

-- What mapping a buffer has done, by its code.
abbrev pub Added :
    ClientSession
    → List KernelEvent
    → (buf len : ℕ) → ℕ × Option BulkBufferDescriptor × ClientSession × List KernelEvent
    → Type 0
Added s log buf len (ret, b, s', log') =
    ((ret ≡ mc_drv_ok)
      × (is_mapped buf s.bulk_buffer_descriptors ≡ false)
      × ((c : BulkBufferDescriptor) × (b ≡ some c)
          × (c.virt_addr ≡ buf)
          × (c.len ≡ len)
          × (s'.bulk_buffer_descriptors ≡ s.bulk_buffer_descriptors ++ c ∷ [])
          × (log' ≡ registered c.handle ∷ log)))
    ⊎ ((ret ≢ mc_drv_ok) × (b ≡ none) × (s' ≡ s) × (log' ≡ log))

-- A buffer is mapped only if its address is not mapped yet and the kernel module takes it: then it
-- is the last of the list, under the handle that the kernel module gave. Else nothing changes.
pub add_bulk_buf-Added :
    (k : Kernel) (s : ClientSession) (log : List KernelEvent) (buf len : ℕ)
    → Added s log buf len (add_bulk_buf k s log buf len)
unfolding add_bulk_buf
add_bulk_buf-Added k s log buf len =
    let (ret, handle) = k.register_wsm_l2 log buf len in
    let c : BulkBufferDescriptor = record {
      virt_addr = buf;
      s_virtual_addr = 0;
      len = len;
      handle = handle;
    } in
    elim (Bool-cases (is_mapped buf s.bulk_buffer_descriptors)) [
      | inl e ↦ rw (e, add_bulk_buf) (inr (omega arith, refl, refl, refl))
      | inr e ↦ elim (Bool-cases (ret == mc_drv_ok)) [
        | inl ok ↦ rw (e, ok, add_bulk_buf) (inl (refl, refl, (c, refl, refl, refl, refl, refl)))
        | inr bad ↦ rw (e, bad, add_bulk_buf) (inr (ground arith, refl, refl, refl))
      ]
    ]

-- If every address is mapped at most once, it is so after mapping a buffer, whatever the kernel
-- module answers.
pub add_bulk_buf-Unique :
    (k : Kernel) (s : ClientSession) (log : List KernelEvent) (buf len : ℕ)
    → Unique s.bulk_buffer_descriptors
    → Unique (add_bulk_buf k s log buf len).2.bulk_buffer_descriptors
add_bulk_buf-Unique k s log buf len u = elim (add_bulk_buf-Added k s log buf len) [
  | inl (ok, fresh, (c, there, at, length_is, list_is, log_is)) ↦ subst Unique (sym list_is) (
      Unique-snoc s.bulk_buffer_descriptors c u
        (ap (λ (a : ℕ). is_mapped a s.bulk_buffer_descriptors) at ∙ fresh))
  | inr (bad, gone, same, quiet) ↦
      subst (λ (t : ClientSession). Unique t.bulk_buffer_descriptors) (sym same) u
]

take_bulk_buf-snoc :
    (a : ℕ) (bs : List BulkBufferDescriptor) (c : BulkBufferDescriptor)
    → is_mapped a bs ≡ false
    → c.virt_addr ≡ a
    → take_bulk_buf a (bs ++ c ∷ []) ≡ (some c, bs)
unfolding is_mapped take_bulk_buf
take_bulk_buf-snoc a [] c h e = ground arith
take_bulk_buf-snoc a (b ∷ bs) c h e = ground (arith, take_bulk_buf-snoc a bs c)

-- What unmapping the last buffer of a session does.
remove_last :
    (k : Kernel) (s : ClientSession) (log : List KernelEvent) (a : ℕ)
    (bs : List BulkBufferDescriptor) (c : BulkBufferDescriptor)
    → s.bulk_buffer_descriptors ≡ bs ++ c ∷ []
    → is_mapped a bs ≡ false
    → c.virt_addr ≡ a
    → ((remove_bulk_buf k s log a).1.bulk_buffer_descriptors ≡ bs)
      × ((remove_bulk_buf k s log a).0 ≡ k.unregister_wsm_l2 log c.handle)
      × ((remove_bulk_buf k s log a).2 ≡ (
          if k.unregister_wsm_l2 log c.handle == mc_drv_ok
          then unregistered c.handle ∷ log
          else log))
unfolding remove_bulk_buf
remove_last k s log a bs c list fresh at =
    let taken : take_bulk_buf a s.bulk_buffer_descriptors ≡ (some c, bs) =
      ap (take_bulk_buf a) list ∙ take_bulk_buf-snoc a bs c fresh at in
    let first : (take_bulk_buf a s.bulk_buffer_descriptors).0 ≡ some c = ap (λ p. p.0) taken in
    let rest : (take_bulk_buf a s.bulk_buffer_descriptors).1 ≡ bs = ap (λ p. p.1) taken in
    rw (first, rest, remove_bulk_buf) (refl, refl, refl)

-- A buffer that was just mapped can be unmapped by its address: the session has the buffers that it
-- had before, and the kernel module was asked to let go of the very handle that it gave, with its
-- code as the result.
pub remove_bulk_buf-add :
    (k : Kernel) (s : ClientSession) (log : List KernelEvent) (buf len : ℕ)
    → (add_bulk_buf k s log buf len).0 ≡ mc_drv_ok
    → let (added, b, s', log') = add_bulk_buf k s log buf len in
      let (ret, s'', log'') = remove_bulk_buf k s' log' buf in
      (c : BulkBufferDescriptor) × (b ≡ some c)
      × (log' ≡ registered c.handle ∷ log)
      × (s''.bulk_buffer_descriptors ≡ s.bulk_buffer_descriptors)
      × (ret ≡ k.unregister_wsm_l2 log' c.handle)
      × (log'' ≡ (
          if k.unregister_wsm_l2 log' c.handle == mc_drv_ok
          then unregistered c.handle ∷ log'
          else log'))
remove_bulk_buf-add k s log buf len h =
    let (added, b, s', log') = add_bulk_buf k s log buf len in
    elim (add_bulk_buf-Added k s log buf len) [
      | inl (ok, fresh, (c, there, at, length_is, list_is, log_is)) ↦
          let (back, code, quiet) =
            remove_last k s' log' buf s.bulk_buffer_descriptors c list_is fresh at in
          (c, there, log_is, back, code, quiet)
      | inr (bad, gone, same, quiet) ↦ absurd (bad h)
    ]

-- If every address is mapped at most once, unmapping one takes it from the session, whatever the
-- kernel module answers, and every address stays mapped at most once.
pub remove_bulk_buf-Unique :
    (k : Kernel) (s : ClientSession) (log : List KernelEvent) (virt_addr : ℕ)
    → Unique s.bulk_buffer_descriptors
    → let s' = (remove_bulk_buf k s log virt_addr).1 in
      Unique s'.bulk_buffer_descriptors × (is_mapped virt_addr s'.bulk_buffer_descriptors ≡ false)
unfolding remove_bulk_buf
remove_bulk_buf-Unique k s log virt_addr u =
    let (found, rest) = take_bulk_buf virt_addr s.bulk_buffer_descriptors in
    let kept = take_bulk_buf-Unique virt_addr s.bulk_buffer_descriptors u in
    elim (Option-cases found) [
      | inl e ↦
          rw (e, remove_bulk_buf) (u, take_bulk_buf-none virt_addr s.bulk_buffer_descriptors e)
      | inr (b, e) ↦ rw (e, remove_bulk_buf) kept
    ]
