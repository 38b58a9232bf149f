-- ===== src/Registry/TaReads.antt =====
-- The reads of mcRegistryStoreTABlob are inside the binary, but for those of the attestation.
use trustonic_tee_user_space.Prelude.{
  ℕ, ◌+◌, ◌≤◌, ◌≡◌, refl, subst, false, List, Option, none, some, ◌==◌, ◌&&◌, ltb, length, arith,
  Bool-cases, Option-cases, inl, inr,
}
use trustonic_tee_user_space.Prelude.Words.{add32}
use trustonic_tee_user_space.Registry.{Disk, FileSystem, same_digits}
use trustonic_tee_user_space.Registry.TaBlob.{
  ta_name, bytes_at, word_at, get_as_uint32_be, attested_uuid, check_header, store_ta_blob,
  header_size, version_2_4, mc_spid_system, service_type_sp_trustlet, service_type_system_trustlet,
  attestation_size, attestation_magic, at_version,
}

-- Nothing was read past the binary.
abbrev pub Inside {ℓ} : {A : Type ℓ} → Option A → Type 0
Inside none = ⊥
Inside (some _) = Unit

bytes_at-within :
    (blob : List ℕ) (offset count : ℕ)
    → offset + count ≤ length blob
    → (bytes : List ℕ) × (bytes_at blob offset count ≡ some bytes)
unfolding bytes_at
bytes_at-within blob offset count p =
    let inside : ltb (length blob) (offset + count) ≡ false = ground (arith, p) in
    rw inside (_, refl)

get_as_uint32_be-within :
    (blob : List ℕ) (offset : ℕ)
    → offset + 4 ≤ length blob
    → (value : ℕ) × (get_as_uint32_be blob offset ≡ some value)
unfolding get_as_uint32_be
get_as_uint32_be-within blob offset p =
    let (bytes, e) = bytes_at-within blob offset 4 p in rw e (_, refl)

word_at-within :
    (blob : List ℕ) (offset : ℕ)
    → offset + 4 ≤ length blob
    → (value : ℕ) × (word_at blob offset ≡ some value)
unfolding word_at
word_at-within blob offset p = let (bytes, e) = bytes_at-within blob offset 4 p in rw e (_, refl)

attested_uuid-Inside :
    (blob : List ℕ) (offset : ℕ) → offset + 32 ≤ length blob → Inside (attested_uuid blob offset)
unfolding attested_uuid
attested_uuid-Inside blob offset p =
    let (size, e) = get_as_uint32_be-within blob (offset + 8) (omega (arith, p)) in
    let (magic, m) = bytes_at-within blob offset 8 (omega (arith, p)) in
    let (version, v) = get_as_uint32_be-within blob (offset + 12) (omega (arith, p)) in
    let (uuid, u) = bytes_at-within blob (offset + 16) 16 (omega (arith, p)) in
    let past = ltb (length blob) offset && ltb (length blob) (add32 offset size) in
    elim (Bool-cases past) [
      | inl a ↦ rw (e, a, attested_uuid) tt
      | inr a ↦ elim (Bool-cases (ltb size attestation_size)) [
        | inl b ↦ rw (e, a, b, attested_uuid) tt
        | inr b ↦ elim (Bool-cases (same_digits magic attestation_magic)) [
          | inr c ↦ rw (e, a, b, m, c, attested_uuid) tt
          | inl c ↦ elim (Bool-cases (version == at_version)) [
            | inr d ↦ rw (e, a, b, m, c, v, d, attested_uuid) tt
            | inl d ↦ rw (e, a, b, m, c, v, d, u, attested_uuid) tt
          ]
        ]
      ]
    ]

check_header-Inside :
    (spid : ℕ) (blob : List ℕ) (version gp_level service_type offset : ℕ)
    → header_size ≤ length blob
    → offset + 32 ≤ length blob
    → Inside (check_header spid blob version gp_level service_type offset)
unfolding check_header
check_header-Inside spid blob version gp_level service_type offset long p =
    let (uuid, u) = bytes_at-within blob 24 16 (omega (arith, long)) in
    elim (Bool-cases (ltb version version_2_4)) [
      | inl a ↦ rw (a, check_header) tt
      | inr a ↦ elim (Bool-cases (gp_level == 1)) [
        | inr b ↦ rw (a, b, check_header) tt
        | inl b ↦ elim (Bool-cases (service_type == service_type_system_trustlet)) [
          | inl c ↦ elim (Bool-cases (spid == mc_spid_system)) [
            | inr d ↦ rw (a, b, c, d, check_header) tt
            | inl d ↦ rw (a, b, c, d, u, check_header) tt
          ]
          | inr c ↦ elim (Bool-cases (service_type == service_type_sp_trustlet)) [
            | inr d ↦ rw (a, b, c, d, check_header) tt
            | inl d ↦ elim (Bool-cases (ltb spid mc_spid_system)) [
              | inr e ↦ rw (a, b, c, d, e, check_header) tt
              | inl e ↦ rw (a, b, c, d, e, check_header) (attested_uuid-Inside blob offset p)
            ]
          ]
        ]
      ]
    ]

ta_name-Inside :
    (spid : ℕ) (blob : List ℕ)
    → ((offset : ℕ) → word_at blob 100 ≡ some offset → offset + 32 ≤ length blob)
    → Inside (ta_name spid blob)
unfolding ta_name
ta_name-Inside spid blob p = elim (Bool-cases (ltb (length blob) header_size)) [
  | inl short ↦ rw (short, ta_name) tt
  | inr long ↦
      let size : header_size ≤ length blob = ground (arith, long) in
      let (version, v) = word_at-within blob 4 (omega (arith, size)) in
      let (gp_level, g) = word_at-within blob 96 (omega (arith, size)) in
      let (service_type, t) = word_at-within blob 16 (omega (arith, size)) in
      let (offset, at) = word_at-within blob 100 (omega (arith, size)) in
      rw (v, g, t, at, long, ta_name)
        (check_header-Inside spid blob version gp_level service_type offset size (p offset at))
]

-- Storing a binary reads nothing past its end and returns a code, on success and on every error,
-- if the offset in its header, where it has one, leaves the 32 bytes in front of the key to the
-- attestation.
pub store_ta_blob-in_bounds :
    (disk : Disk) (fs : FileSystem) (spid : ℕ) (blob : List ℕ)
    → ((offset : ℕ) → word_at blob 100 ≡ some offset → offset + 32 ≤ length blob)
    → (code : ℕ) × (fs' : FileSystem) × (store_ta_blob disk fs spid blob ≡ some (code, fs'))
unfolding store_ta_blob
store_ta_blob-in_bounds disk fs spid blob p = elim (Option-cases (ta_name spid blob)) [
  | inl e ↦ absurd (subst Inside e (ta_name-Inside spid blob p))
  | inr (found, e) ↦ rw (e, store_ta_blob) (_, _, refl)
]
