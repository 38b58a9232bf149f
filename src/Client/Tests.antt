-- ===== src/Client/Tests.antt =====
-- The theorems on the client's sessions and devices at a concrete kernel module.
use trustonic_tee_user_space.Prelude.{ℕ, ◌+◌, ◌≡◌, refl, [], ◌∷◌, some, ◌==◌, if◌then◌else◌, length}
use trustonic_tee_user_space.Status.{mc_drv_ok}
use trustonic_tee_user_space.Client.{
  Kernel, registered, unregistered, BulkBufferDescriptor, ClientSession, ClientDevice,
  session_state_open,
}
use trustonic_tee_user_space.Client.Session.{
  is_mapped, add_bulk_buf, take_bulk_buf, remove_bulk_buf,
}
use trustonic_tee_user_space.Client.Buffers.{Unique, remove_bulk_buf-add}

-- Handles count the calls; a buffer of no bytes is refused, and handle 9 is kept.
abbrev pub kernel : Kernel
kernel = record {
  register_wsm_l2 = λ log buf len. (if len == 0 then 5 else 0, length log + 1);
  unregister_wsm_l2 = λ _ handle. if handle == 9 then 5 else 0;
  map_wsm = λ log len. (0, length log + 1, 4096);
  free = λ _ handle virt_addr len. 0;
}

abbrev buffer : ℕ → BulkBufferDescriptor
buffer a = record { virt_addr = a; s_virtual_addr = 0; len = 16; handle = 9 }

abbrev session : ClientSession
session = record {
  session_id = 7;
  notification_connection = 1;
  last_err = 0;
  state = session_state_open;
  bulk_buffer_descriptors = buffer 100 ∷ buffer 200 ∷ [];
}

session-Unique : Unique session.bulk_buffer_descriptors
unfolding is_mapped
session-Unique = (refl, (refl, tt))

added : (add_bulk_buf kernel session [] 300 8).0 ≡ mc_drv_ok
unfolding add_bulk_buf is_mapped
added = refl

remove_bulk_buf-add_example :
    let (done, b, s', log') = add_bulk_buf kernel session [] 300 8 in
    let (ret, s'', log'') = remove_bulk_buf kernel s' log' 300 in
    (c : BulkBufferDescriptor) × (b ≡ some c)
    × (log' ≡ registered c.handle ∷ [])
    × (s''.bulk_buffer_descriptors ≡ session.bulk_buffer_descriptors)
    × (ret ≡ kernel.unregister_wsm_l2 log' c.handle)
    × (log'' ≡ (
        if kernel.unregister_wsm_l2 log' c.handle == mc_drv_ok
        then unregistered c.handle ∷ log'
        else log'))
remove_bulk_buf-add_example = remove_bulk_buf-add kernel session [] 300 8 added

-- The kernel module refuses, and the buffer is gone from the session all the same.
refused_run :
    let (ret, s', log') = remove_bulk_buf kernel session [] 100 in
    (ret ≡ 5) × (s'.bulk_buffer_descriptors ≡ buffer 200 ∷ []) × (log' ≡ [])
unfolding remove_bulk_buf take_bulk_buf
refused_run = (refl, refl, refl)

abbrev client : ClientDevice
client = record { session_list = session ∷ []; wsm_l2_list = []; log = [] }
