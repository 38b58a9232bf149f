-- ===== src/Client/Device.antt =====
-- A device of the client library: class Device. Without `assert`, as in a build with NDEBUG.
use trustonic_tee_user_space.Prelude.{
  ℕ, Bool, true, false, List, [], ◌∷◌, ◌++◌, Option, none, some, ◌==◌, if◌then◌else◌,
}
use trustonic_tee_user_space.Status.{mc_drv_ok}
use trustonic_tee_user_space.Client.{
  KernelEvent, registered, mapped, freed, connection_closed, Kernel, BulkBufferDescriptor,
  ClientSession, ClientWsm, ClientDevice, invalid_length,
}
use trustonic_tee_user_space.Client.Session.{new_session, delete_session}

unfoldable pub has_sessions : ClientDevice → Bool
has_sessions d = elim d.session_list [ [] ↦ false | s ∷ ss ↦ true ]

unfoldable pub create_new_session : ClientDevice → (session_id connection : ℕ) → ClientDevice
create_new_session d session_id connection = record d {
  session_list = d.session_list ++ new_session session_id connection ∷ [];
}

-- The first session of that id.
unfoldable pub resolve_session_id : List ClientSession → ℕ → Option ClientSession
resolve_session_id [] session_id = none
resolve_session_id (s ∷ ss) session_id =
    if s.session_id == session_id then some s else resolve_session_id ss session_id

-- The list without the first session of that id.
unfoldable pub without_session : List ClientSession → ℕ → List ClientSession
without_session [] session_id = []
without_session (s ∷ ss) session_id =
    if s.session_id == session_id then ss else s ∷ without_session ss session_id

unfoldable pub remove_session : Kernel → ClientDevice → ℕ → Bool × ClientDevice
unfolding resolve_session_id without_session
remove_session k d session_id = elim (resolve_session_id d.session_list session_id) [
  | none ↦ (false, d)
  | some s ↦ (
    true,
    record d {
      session_list = without_session d.session_list session_id;
      log = delete_session k s d.log;
    },
  )
]

-- `object` is the address that `new` gives.
unfoldable pub allocate_contiguous_wsm :
    Kernel → ClientDevice → (object len : ℕ) → ℕ × Option ClientWsm × ClientDevice
allocate_contiguous_wsm k d object len =
    let (ret, handle, virt_addr) = k.map_wsm d.log len in
    let w : ClientWsm = record {
      object = object;
      virt_addr = virt_addr;
      len = len;
      handle = handle;
    } in
    if len == 0
    then (invalid_length, none, d)
    else if ret == 0
    then (
      mc_drv_ok,
      some w,
      record d { wsm_l2_list = d.wsm_l2_list ++ w ∷ []; log = mapped handle ∷ d.log },
    )
    else (ret, none, d)

unfoldable pub without_object : List ClientWsm → ℕ → List ClientWsm
without_object [] object = []
without_object (w ∷ ws) object = if w.object == object then ws else w ∷ without_object ws object

has_object : List ClientWsm → ℕ → Bool
has_object [] object = false
has_object (w ∷ ws) object = if w.object == object then true else has_object ws object

-- `none`: the descriptor is not in the list, and the code erases the end of it, which is undefined
-- behaviour, if the kernel module frees the memory.
unfoldable pub free_contiguous_wsm : Kernel → ClientDevice → ClientWsm → Option (ℕ × ClientDevice)
unfolding without_object has_object
free_contiguous_wsm k d w =
    let ret = k.free d.log w.handle w.virt_addr w.len in
    if ret == mc_drv_ok
    then if has_object d.wsm_l2_list w.object
      then some (
        mc_drv_ok,
        record d {
          wsm_l2_list = without_object d.wsm_l2_list w.object;
          log = freed w.handle ∷ d.log;
        },
      )
      else none
    else some (ret, d)

find_wsm_in : List ClientWsm → ℕ → Option ClientWsm
find_wsm_in [] virt_addr = none
find_wsm_in (w ∷ ws) virt_addr =
    if virt_addr == w.virt_addr then some w else find_wsm_in ws virt_addr

unfoldable pub find_contiguous_wsm : ClientDevice → ℕ → Option ClientWsm
unfolding find_wsm_in
find_contiguous_wsm d virt_addr =
    if virt_addr == 0 then none else find_wsm_in d.wsm_l2_list virt_addr

-- A descriptor that is not in any session yet.
unfoldable pub map_bulk_buf :
    Kernel → ClientDevice → (buf len : ℕ) → ℕ × Option BulkBufferDescriptor × ClientDevice
map_bulk_buf k d buf len =
    let (ret, handle) = k.register_wsm_l2 d.log buf len in
    if ret == mc_drv_ok
    then (
      mc_drv_ok,
      some (record { virt_addr = buf; s_virtual_addr = 0; len = len; handle = handle }),
      record d { log = registered handle ∷ d.log },
    )
    else (ret, none, d)

delete_sessions : Kernel → List ClientSession → List KernelEvent → List KernelEvent
delete_sessions k [] log = log
delete_sessions k (s ∷ ss) log = delete_sessions k ss (delete_session k s log)

free_all : Kernel → List ClientWsm → List KernelEvent → List KernelEvent
free_all k [] log = log
free_all k (w ∷ ws) log =
    free_all k ws (if k.free log w.handle w.virt_addr w.len == 0 then freed w.handle ∷ log else log)

-- The destructor; `connection` is the device's own.
unfoldable pub delete_device : Kernel → ClientDevice → (connection : ℕ) → List KernelEvent
unfolding delete_sessions free_all
delete_device k d connection =
    connection_closed connection ∷ free_all k d.wsm_l2_list (delete_sessions k d.session_list d.log)
