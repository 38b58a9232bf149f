-- ===== src/Registry/TaChecks.antt =====
-- What the checks of mcRegistryStoreTABlob say of a binary that passes them.
use trustonic_tee_user_space.Prelude.{
  ℕ, ◌+◌, ◌<◌, ◌≤◌, ◌≡◌, ◌≢◌, refl, ap, ◌∙◌, subst, true, false, List, [], ◌∷◌, Option, none, some,
  ◌==◌, ◌&&◌, ltb, length, arith, Bool-cases, Option-cases, inl, inr,
}
use trustonic_tee_user_space.Prelude.Words.{add32}
use trustonic_tee_user_space.Status.{mc_drv_ok}
use trustonic_tee_user_space.Registry.{same_digits}
use trustonic_tee_user_space.Registry.TaBlob.{
  TaName, refused, system_ta, sp_ta, ta_name, bytes_at, word_at, get_as_uint32_be, attested_uuid,
  check_header, header_size, version_2_4, mc_spid_system, service_type_sp_trustlet,
  service_type_system_trustlet, attestation_size, attestation_magic, at_version, ◌>>=◌,
}

-- The header says a version of 2.4 or later, GP level 1, and the service type.
abbrev pub Header : (blob : List ℕ) (service_type : ℕ) → Type 0
Header blob service_type =
    ((version : ℕ) × (word_at blob 4 ≡ some version) × (version_2_4 ≤ version))
    × (word_at blob 96 ≡ some 1)
    × (word_at blob 16 ≡ some service_type)

-- At the offset there is an attestation of the UUID.
abbrev pub Attestation : (blob : List ℕ) (offset : ℕ) (uuid : List ℕ) → Type 0
Attestation blob offset uuid =
    ((size : ℕ) × (get_as_uint32_be blob (offset + 8) ≡ some size) × (attestation_size ≤ size))
    × (bytes_at blob offset 8 ≡ some attestation_magic)
    × (get_as_uint32_be blob (offset + 12) ≡ some at_version)
    × (bytes_at blob (offset + 16) 16 ≡ some uuid)

abbrev pub Attested : (blob : List ℕ) (offset : ℕ) → Option TaName → Type 0
Attested blob offset none = Unit
Attested blob offset (some (refused code)) = code ≢ mc_drv_ok
Attested blob offset (some (system_ta uuid)) = ⊥
Attested blob offset (some (sp_ta uuid)) = Attestation blob offset uuid

same_digits_eq : (xs ys : List ℕ) → same_digits xs ys ≡ true → xs ≡ ys
same_digits_eq [] [] h = refl
same_digits_eq [] (y ∷ ys) h = cc
same_digits_eq (x ∷ xs) [] h = cc
same_digits_eq (x ∷ xs) (y ∷ ys) h = ground (arith, same_digits_eq xs ys)

-- The tests that follow that of the size.
magic_checked-Attested :
    (blob : List ℕ) (offset size : ℕ)
    → get_as_uint32_be blob (offset + 8) ≡ some size
    → (ltb (length blob) offset && ltb (length blob) (add32 offset size)) ≡ false
    → ltb size attestation_size ≡ false
    → Attested blob offset (attested_uuid blob offset)
unfolding attested_uuid
magic_checked-Attested blob offset size e within large =
    elim (Option-cases (bytes_at blob offset 8)) [
      | inl m ↦ rw (e, within, large, m, attested_uuid) tt
      | inr (magic, m) ↦ elim (Bool-cases (same_digits magic attestation_magic)) [
        | inr other ↦ rw (e, within, large, m, other, attested_uuid) (omega arith)
        | inl same ↦ elim (Option-cases (get_as_uint32_be blob (offset + 12))) [
          | inl v ↦ rw (e, within, large, m, same, v, attested_uuid) tt
          | inr (version, v) ↦ elim (Bool-cases (version == at_version)) [
            | inr old ↦ rw (e, within, large, m, same, v, old, attested_uuid) (omega arith)
            | inl known ↦ elim (Option-cases (bytes_at blob (offset + 16) 16)) [
              | inl u ↦ rw (e, within, large, m, same, v, known, u, attested_uuid) tt
              | inr (uuid, u) ↦
                  let enough : attestation_size ≤ size = ground (arith, large) in
                  let right : version ≡ at_version = ground (arith, known) in
                  rw (e, within, large, m, same, v, known, u, attested_uuid)
                    (
                      (size, e, enough),
                      m ∙ ap some (same_digits_eq magic attestation_magic same),
                      v ∙ ap some right,
                      u,
                    )
            ]
          ]
        ]
      ]
    ]

attested_uuid-Attested :
    (blob : List ℕ) (offset : ℕ) → Attested blob offset (attested_uuid blob offset)
unfolding attested_uuid
attested_uuid-Attested blob offset = elim (Option-cases (get_as_uint32_be blob (offset + 8))) [
  | inl e ↦ rw (e, attested_uuid) tt
  | inr (size, e) ↦
      elim (Bool-cases (ltb (length blob) offset && ltb (length blob) (add32 offset size))) [
        | inl past ↦ rw (e, past, attested_uuid) (omega arith)
        | inr within ↦ elim (Bool-cases (ltb size attestation_size)) [
          | inl small ↦ rw (e, within, small, attested_uuid) (omega arith)
          | inr large ↦ magic_checked-Attested blob offset size e within large
        ]
      ]
]

-- What a binary that names its files satisfies: a system Trusted Application is stored under the
-- UUID of its header, for the system's identifier only; a service provider's under an attested
-- UUID, for an identifier below the system's.
abbrev pub Passed : (spid : ℕ) (blob : List ℕ) → TaName → Type 0
Passed spid blob (refused code) = ⊥
Passed spid blob (system_ta uuid) =
    Header blob service_type_system_trustlet
    × (spid ≡ mc_spid_system)
    × (bytes_at blob 24 16 ≡ some uuid)
Passed spid blob (sp_ta uuid) =
    Header blob service_type_sp_trustlet
    × (spid < mc_spid_system)
    × ((offset : ℕ) × (word_at blob 100 ≡ some offset) × Attestation blob offset uuid)

-- A code of success is none of the refusals.
abbrev pub Outcome : (spid : ℕ) (blob : List ℕ) → Option TaName → Type 0
Outcome spid blob none = Unit
Outcome spid blob (some (refused code)) = code ≢ mc_drv_ok
Outcome spid blob (some (system_ta uuid)) = Passed spid blob (system_ta uuid)
Outcome spid blob (some (sp_ta uuid)) = Passed spid blob (sp_ta uuid)

Attested-Outcome :
    (spid : ℕ) (blob : List ℕ) (offset : ℕ) (r : Option TaName)
    → Header blob service_type_sp_trustlet
    → spid < mc_spid_system
    → word_at blob 100 ≡ some offset
    → Attested blob offset r
    → Outcome spid blob r
Attested-Outcome spid blob offset none h p at a = tt
Attested-Outcome spid blob offset (some (refused code)) h p at a = a
Attested-Outcome spid blob offset (some (system_ta uuid)) h p at a = absurd a
Attested-Outcome spid blob offset (some (sp_ta uuid)) h p at a = (h, p, (offset, at, a))

system-Outcome :
    (spid : ℕ) (blob : List ℕ)
    → Header blob service_type_system_trustlet
    → spid ≡ mc_spid_system
    → Outcome spid blob (bytes_at blob 24 16 >>= λ uuid. some (system_ta uuid))
system-Outcome spid blob h p = elim (Option-cases (bytes_at blob 24 16)) [
  | inl e ↦ rw e tt
  | inr (uuid, e) ↦ rw e (h, p, e)
]

check_header-Outcome :
    (spid : ℕ) (blob : List ℕ) (version gp_level service_type offset : ℕ)
    → word_at blob 4 ≡ some version
    → word_at blob 96 ≡ some gp_level
    → word_at blob 16 ≡ some service_type
    → word_at blob 100 ≡ some offset
    → Outcome spid blob (check_header spid blob version gp_level service_type offset)
unfolding check_header
check_header-Outcome spid blob version gp_level service_type offset v g t at =
    elim (Bool-cases (ltb version version_2_4)) [
      | inl old ↦ rw (old, check_header) (omega arith)
      | inr recent ↦ elim (Bool-cases (gp_level == 1)) [
        | inr legacy ↦ rw (recent, legacy, check_header) (omega arith)
        | inl gp ↦
            let enough : version_2_4 ≤ version = ground (arith, recent) in
            let level : word_at blob 96 ≡ some 1 =
              subst (λ n. word_at blob 96 ≡ some n) (ground (arith, gp)) g in
            elim (Bool-cases (service_type == service_type_system_trustlet)) [
              | inl system ↦
                  let kind : word_at blob 16 ≡ some service_type_system_trustlet =
                    subst (λ n. word_at blob 16 ≡ some n) (ground (arith, system)) t in
                  elim (Bool-cases (spid == mc_spid_system)) [
                    | inr other ↦ rw (recent, gp, system, other, check_header) (omega arith)
                    | inl own ↦
                        rw (recent, gp, system, own, check_header)
                          (system-Outcome spid blob ((version, v, enough), level, kind)
                            (ground (arith, own)))
                  ]
              | inr user ↦ elim (Bool-cases (service_type == service_type_sp_trustlet)) [
                | inr unknown ↦ rw (recent, gp, user, unknown, check_header) (omega arith)
                | inl sp ↦ elim (Bool-cases (ltb spid mc_spid_system)) [
                  | inr system ↦ rw (recent, gp, user, sp, system, check_header) (omega arith)
                  | inl below ↦
                      let kind : word_at blob 16 ≡ some service_type_sp_trustlet =
                        subst (λ n. word_at blob 16 ≡ some n) (ground (arith, sp)) t in
                      rw (recent, gp, user, sp, below, check_header)
                        (Attested-Outcome spid blob offset (attested_uuid blob offset)
                          ((version, v, enough), level, kind) (ground (arith, below)) at
                          (attested_uuid-Attested blob offset))
                ]
              ]
            ]
      ]
    ]

pub ta_name-Outcome : (spid : ℕ) (blob : List ℕ) → Outcome spid blob (ta_name spid blob)
unfolding ta_name
ta_name-Outcome spid blob = elim (Bool-cases (ltb (length blob) header_size)) [
  | inl short ↦ rw (short, ta_name) (omega arith)
  | inr long ↦ elim (Option-cases (word_at blob 4)) [
    | inl v ↦ rw (v, long, ta_name) tt
    | inr (version, v) ↦ elim (Option-cases (word_at blob 96)) [
      | inl g ↦ rw (v, g, long, ta_name) tt
      | inr (gp_level, g) ↦ elim (Option-cases (word_at blob 16)) [
        | inl t ↦ rw (v, g, t, long, ta_name) tt
        | inr (service_type, t) ↦ elim (Option-cases (word_at blob 100)) [
          | inl at ↦ rw (v, g, t, at, long, ta_name) tt
          | inr (offset, at) ↦
              rw (v, g, t, at, long, ta_name)
                (check_header-Outcome spid blob version gp_level service_type offset v g t at)
        ]
      ]
    ]
  ]
]
