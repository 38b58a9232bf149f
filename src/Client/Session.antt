-- ===== src/Client/Session.antt =====
-- A session of the client library: class Session. Each operation takes and gives the kernel
-- module's history beside the session.
use trustonic_tee_user_space.Prelude.{
  ℕ, Bool, false, List, [], ◌∷◌, ◌++◌, Option, none, some, ◌==◌, ◌&&◌, ◌||◌, if◌then◌else◌,
}
use trustonic_tee_user_space.Status.{mc_drv_ok}
use trustonic_tee_user_space.Client.{
  KernelEvent, registered, unregistered, connection_closed, Kernel, BulkBufferDescriptor,
  ClientSession, session_state_initial, buffer_already_mapped, blk_buff_not_found,
}

-- The constructor.
unfoldable pub new_session : (session_id connection : ℕ) → ClientSession
new_session session_id connection = record {
  session_id = session_id;
  notification_connection = connection;
  last_err = 0;
  state = session_state_initial;
  bulk_buffer_descriptors = [];
}

unfoldable pub set_error_info : ClientSession → ℕ → ClientSession
set_error_info s err = record s { last_err = err }

unfoldable pub get_last_err : ClientSession → ℕ
get_last_err s = s.last_err

unfoldable pub is_mapped : ℕ → List BulkBufferDescriptor → Bool
is_mapped buf [] = false
is_mapped buf (b ∷ bs) = b.virt_addr == buf || is_mapped buf bs

-- With the descriptor that it hands out.
unfoldable pub add_bulk_buf :
    Kernel
    → ClientSession
    → List KernelEvent
    → (buf len : ℕ) → ℕ × Option BulkBufferDescriptor × ClientSession × List KernelEvent
unfolding is_mapped
add_bulk_buf k s log buf len =
    let (ret, handle) = k.register_wsm_l2 log buf len in
    let b : BulkBufferDescriptor = record {
      virt_addr = buf;
      s_virtual_addr = 0;
      len = len;
      handle = handle;
    } in
    if is_mapped buf s.bulk_buffer_descriptors
    then (buffer_already_mapped, none, s, log)
    else if ret == mc_drv_ok
    then (
      mc_drv_ok,
      some b,
      record s { bulk_buffer_descriptors = s.bulk_buffer_descriptors ++ b ∷ [] },
      registered handle ∷ log,
    )
    else (ret, none, s, log)

-- `addBulkBuf(BulkBufferDescriptor *)`: a null pointer is ignored.
unfoldable pub append_bulk_buf : ClientSession → Option BulkBufferDescriptor → ClientSession
append_bulk_buf s none = s
append_bulk_buf s (some b) = record s {
  bulk_buffer_descriptors = s.bulk_buffer_descriptors ++ b ∷ [];
}

unfoldable pub get_buf_handle : List BulkBufferDescriptor → (s_virt_addr s_virtual_len : ℕ) → ℕ
get_buf_handle [] s_virt_addr s_virtual_len = 0
get_buf_handle (b ∷ bs) s_virt_addr s_virtual_len =
    if b.s_virtual_addr == s_virt_addr && b.len == s_virtual_len
    then b.handle
    else get_buf_handle bs s_virt_addr s_virtual_len

-- The first descriptor of the address, and the list without it.
unfoldable pub take_bulk_buf :
    ℕ → List BulkBufferDescriptor → Option BulkBufferDescriptor × List BulkBufferDescriptor
take_bulk_buf virt_addr [] = (none, [])
take_bulk_buf virt_addr (b ∷ bs) =
    let (found, rest) = take_bulk_buf virt_addr bs in
    if b.virt_addr == virt_addr then (some b, bs) else (found, b ∷ rest)

unregister : Kernel → List KernelEvent → ℕ → ℕ × List KernelEvent
unregister k log handle =
    let ret = k.unregister_wsm_l2 log handle in
    (ret, if ret == mc_drv_ok then unregistered handle ∷ log else log)

-- The descriptor is taken from the list whether or not the kernel module lets it go.
unfoldable pub remove_bulk_buf :
    Kernel
    → ClientSession
    → List KernelEvent
    → (virt_addr : ℕ) → ℕ × ClientSession × List KernelEvent
unfolding take_bulk_buf unregister
remove_bulk_buf k s log virt_addr =
    let (found, rest) = take_bulk_buf virt_addr s.bulk_buffer_descriptors in
    elim found [
      | none ↦ (blk_buff_not_found, s, log)
      | some b ↦
          let (ret, log') = unregister k log b.handle in
          (ret, record s { bulk_buffer_descriptors = rest }, log')
    ]

unfoldable pub unregister_all :
    Kernel → List BulkBufferDescriptor → List KernelEvent → List KernelEvent
unfolding unregister
unregister_all k [] log = log
unregister_all k (b ∷ bs) log = unregister_all k bs (unregister k log b.handle).1

-- The destructor: the session is gone, the history is left.
unfoldable pub delete_session : Kernel → ClientSession → List KernelEvent → List KernelEvent
unfolding unregister_all
delete_session k s log =
    connection_closed s.notification_connection ∷ unregister_all k s.bulk_buffer_descriptors log
