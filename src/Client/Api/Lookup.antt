-- ===== src/Client/Api/Lookup.antt =====
-- The list of opened devices: looking up after a write.
use trustonic_tee_user_space.Prelude.{
  ℕ, ◌<◌, ◌^◌, ◌≤◌, ◌≡◌, refl, ap, ◌∙◌, false, List, [], ◌∷◌, some, arith, ◌==◌,
}
use trustonic_tee_user_space.Prelude.Words.{add32, sub32}
use trustonic_tee_user_space.Status.{mc_drv_ok}
use trustonic_tee_user_space.Client.{ClientSession}
use trustonic_tee_user_space.Client.Device.{resolve_session_id}
use trustonic_tee_user_space.Client.Api.{
  Platform, Api, OpenDevice, resolve_device_id, update_device,
}
use trustonic_tee_user_space.Client.Api.Devices.{mc_open_device, mc_close_device}
use trustonic_tee_user_space.Client.Api.Memory.{update_session}

module _ (id : ℕ) (f : OpenDevice → OpenDevice)
    (keep : (d : OpenDevice) → (f d).device_id ≡ d.device_id) where
  pub resolve-update :
      (ds : List OpenDevice) (d : OpenDevice)
      → resolve_device_id ds id ≡ some d
      → resolve_device_id (update_device id f ds) id ≡ some (f d)
  unfolding resolve_device_id update_device
  resolve-update [] d e = cc
  resolve-update (x ∷ xs) d e = ground (arith, keep x, resolve-update xs d)

  pub update-update :
      (g : OpenDevice → OpenDevice) (ds : List OpenDevice)
      → update_device id g (update_device id f ds) ≡ update_device id (λ d. g (f d)) ds
  unfolding update_device
  update-update g [] = refl
  update-update g (x ∷ xs) = ground (arith, keep x, update-update g xs)

update-same :
    (id : ℕ) (f : OpenDevice → OpenDevice) (ds : List OpenDevice) (d : OpenDevice)
    → resolve_device_id ds id ≡ some d
    → f d ≡ d
    → update_device id f ds ≡ ds
unfolding update_device resolve_device_id
update-same id f [] d e h = refl
update-same id f (x ∷ xs) d e h = ground (arith, h, update-same id f xs d)

-- A call of mcOpenDevice for a device that is open, whose count is a 32-bit word and not 0,
-- succeeds and does not say that the device is open; one of mcCloseDevice that follows succeeds
-- and leaves everything as it was, without a word to the daemon.
pub mc_close_device-mc_open_device :
    (p : Platform) (a : Api) (id : ℕ) (d : OpenDevice)
    → resolve_device_id a.devices id ≡ some d
    → 1 ≤ d.open_count
    → d.open_count < 2 ^ 32
    → ((mc_open_device p a id).0 ≡ mc_drv_ok)
      × (mc_close_device p (mc_open_device p a id).1 id ≡ (mc_drv_ok, a))
unfolding mc_open_device mc_close_device add32 sub32
mc_close_device-mc_open_device p a id d e h w =
    let up : OpenDevice → OpenDevice = λ x. record x { open_count = add32 x.open_count 1 } in
    let down : OpenDevice → OpenDevice = λ x. record x { open_count = sub32 x.open_count 1 } in
    let a1 : Api = record a { devices = update_device id up a.devices } in
    let found = resolve-update id up (λ _. refl) a.devices d e in
    let more : (add32 d.open_count 1 == 1) ≡ false = ground arith in
    let opened : mc_open_device p a id ≡ (mc_drv_ok, a1) = rw (e, mc_open_device) refl in
    let closed : mc_close_device p a1 id
        ≡ (mc_drv_ok, record a { devices = update_device id down a1.devices }) =
      rw (found, more, mc_close_device) refl in
    let count : sub32 (add32 d.open_count 1) 1 ≡ d.open_count = omega (arith, w) in
    let back =
      update-update id up (λ _. refl) down a.devices
      ∙ update-same id (λ x. down (up x)) a.devices d e
          (ap (λ n. record d { open_count = n }) count) in
    (
      ap (λ r. r.0) opened,
      ap (λ r. mc_close_device p r.1 id) opened
          ∙ closed
          ∙ ap (λ ds. (mc_drv_ok, record a { devices = ds })) back,
    )

-- The same of a session.
pub resolve_session-update :
    (id : ℕ) (f : ClientSession → ClientSession) (ss : List ClientSession) (s : ClientSession)
    → ((x : ClientSession) → (f x).session_id ≡ x.session_id)
    → resolve_session_id ss id ≡ some s
    → resolve_session_id (update_session id f ss) id ≡ some (f s)
unfolding resolve_session_id update_session
resolve_session-update id f [] s keep e = cc
resolve_session-update id f (x ∷ xs) s keep e =
    ground (arith, keep x, resolve_session-update id f xs s keep)
