-- ===== src/Client/Api/Opened.antt =====
-- What the calls that open a session leave behind, on success and on every error.
use trustonic_tee_user_space.Prelude.{
  ℕ, ◌≡◌, ◌≢◌, refl, subst, ap, ◌∙◌, List, [], ◌∷◌, Option, some, arith, ◌==◌, Bool-cases,
  Option-cases, ◌⊎◌, inl, inr,
}
use trustonic_tee_user_space.Status.{mc_drv_ok, mcp_error, error_major, error_mcp}
use trustonic_tee_user_space.Client.{BulkBufferDescriptor}
use trustonic_tee_user_space.Client.Api.{
  Platform, Api, OpenDevice, OpenedPayload, Message, Received, read_failed, wrong_length, got,
  update_device, send_to_daemon, received_from, recv_code, happened, ApiEvent, connected, sent,
  send_failed, received, msg_nq_connect,
}
use trustonic_tee_user_space.Client.Api.Codes.{table_code, open_error}
use trustonic_tee_user_space.Client.Api.Sessions.{
  add_session, connect_notifications, take_payload, take_response, finish_open,
}

-- No label of the switch stands for success.
abbrev pub NoSuccess : List (ℕ × ℕ) → Type 0
NoSuccess [] = Unit
NoSuccess ((from, to) ∷ rest) = (to ≢ mc_drv_ok) × NoSuccess rest

table_code-ne-ok :
    (codes : List (ℕ × ℕ)) (mcp : ℕ) → NoSuccess codes → table_code codes mcp ≢ mc_drv_ok
unfolding table_code
table_code-ne-ok [] mcp h = omega arith
table_code-ne-ok ((from, to) ∷ rest) mcp h = elim (Bool-cases (from == mcp)) [
  | inl e ↦ rw e h.0
  | inr e ↦ rw e (table_code-ne-ok rest mcp h.1)
]

open_error-ne-ok :
    (codes : List (ℕ × ℕ)) (code : ℕ)
    → NoSuccess codes
    → code ≢ mc_drv_ok
    → open_error codes code ≢ mc_drv_ok
unfolding open_error
open_error-ne-ok codes code h n = elim (Bool-cases (error_major code == mcp_error)) [
  | inl e ↦ rw (e, open_error) (table_code-ne-ok codes (error_mcp code) h)
  | inr e ↦ rw (e, open_error) n
]

-- The history has gone on from a point.
abbrev pub After : (start log : List ApiEvent) → Type 0
After start [] = start ≡ []
After start (e ∷ log) = (start ≡ e ∷ log) ⊎ After start log

-- Since a point in the history, the platform has given the socket for a new connection.
abbrev pub Connected : Platform → (start : List ApiEvent) (nq : ℕ) (log : List ApiEvent) → Type 0
Connected p start nq [] = ⊥
Connected p start nq (e ∷ log) =
    ((e ≡ connected nq) × (p.connect log ≡ some nq) × After start log) ⊎ Connected p start nq log

After-refl : (log : List ApiEvent) → After log log
After-refl [] = refl
After-refl (e ∷ log) = inl refl

After-earlier : (start log : List ApiEvent) (e : ApiEvent) → After (e ∷ start) log → After start log
After-earlier start [] e h = cc
After-earlier start (x ∷ log) e (inl h) =
    let tails : start ≡ log = ap (λ l. elim l [ [] ↦ start | y ∷ ys ↦ ys ]) h in
    inr (subst (After start) tails (After-refl start))
After-earlier start (x ∷ log) e (inr h) = inr (After-earlier start log e h)

Connected-earlier :
    (p : Platform) (start : List ApiEvent) (nq : ℕ) (log : List ApiEvent) (e : ApiEvent)
    → Connected p (e ∷ start) nq log
    → Connected p start nq log
Connected-earlier p start nq [] e h = h
Connected-earlier p start nq (x ∷ log) e (inl (now, given, h)) =
    inl (now, given, After-earlier start log e h)
Connected-earlier p start nq (x ∷ log) e (inr h) = inr (Connected-earlier p start nq log e h)

-- Since a point in the history, the daemon has sent the id of a session.
abbrev pub IdReceived :
    Platform → (start : List ApiEvent) (connection id : ℕ) (log : List ApiEvent) → Type 0
IdReceived p start connection id [] = ⊥
IdReceived p start connection id (e ∷ log) =
    ((e ≡ received connection)
      × ((o : OpenedPayload) × (p.recv_opened log connection ≡ got o) × (o.session_id ≡ id))
      × After start log)
    ⊎ IdReceived p start connection id log

IdReceived-earlier :
    (p : Platform) (start : List ApiEvent) (connection id : ℕ) (log : List ApiEvent) (e : ApiEvent)
    → IdReceived p (e ∷ start) connection id log
    → IdReceived p start connection id log
IdReceived-earlier p start connection id [] e h = h
IdReceived-earlier p start connection id (x ∷ log) e (inl (now, sent_id, h)) =
    inl (now, sent_id, After-earlier start log e h)
IdReceived-earlier p start connection id (x ∷ log) e (inr h) =
    inr (IdReceived-earlier p start connection id log e h)

-- A session more, with the id that the daemon sent over the connection, the socket that was
-- connected for it and the buffer of the TCI, and its id given to the caller; or an error, and the
-- devices as they were.
abbrev pub Opened :
    Platform
    → (device_id connection : ℕ) → Option BulkBufferDescriptor
    → (start : List ApiEvent) → List OpenDevice
    → ℕ × Api
    → Type 0
Opened p device_id connection bulk start ds (code, a') =
    ((code ≡ mc_drv_ok)
      × ((session_id : ℕ) × (nq : ℕ) × (a'.out ≡ some session_id)
          × IdReceived p start connection session_id a'.log
          × Connected p start nq a'.log
          × (a'.devices
              ≡ update_device device_id
                  (λ x. record x { device = add_session session_id nq bulk x.device }) ds)))
    ⊎ ((code ≢ mc_drv_ok) × (a'.devices ≡ ds))

Opened-earlier :
    (p : Platform) (device_id connection : ℕ) (bulk : Option BulkBufferDescriptor)
    (start : List ApiEvent) (ds : List OpenDevice) (e : ApiEvent) (r : ℕ × Api)
    → Opened p device_id connection bulk (e ∷ start) ds r
    → Opened p device_id connection bulk start ds r
Opened-earlier p device_id connection bulk start ds e (code, a') (inr failed) = inr failed
Opened-earlier p device_id connection bulk start ds e (code, a')
      (inl (ok, (id, nq, out, told, socket, same))) =
    inl (
      ok,
      (
        id,
        nq,
        out,
        IdReceived-earlier p start connection id a'.log e told,
        Connected-earlier p start nq a'.log e socket,
        same,
      ),
    )

module _ (p : Platform) (device_id connection : ℕ) (bulk : Option BulkBufferDescriptor) where
  pub send-Opened :
      (m : Message) (a : Api) (next : Api → ℕ × Api)
      → ((a1 : Api)
          → a1.devices ≡ a.devices
          → Opened p device_id connection bulk a1.log a.devices (next a1))
      → Opened p device_id connection bulk a.log a.devices (send_to_daemon p connection m a next)
  unfolding send_to_daemon
  send-Opened m a next h = elim (Bool-cases (p.send a.log connection m)) [
    | inl e ↦
        rw (e, send_to_daemon)
          (Opened-earlier p device_id connection bulk a.log a.devices (sent connection m)
            (next (happened (sent connection m) a)) (h (happened (sent connection m) a) refl))
    | inr e ↦ rw (e, send_to_daemon) (inr (omega arith, refl))
  ]

  received-Opened :
      {A : Type 0} (r : Received A) (a : Api) (next : A → Api → ℕ × Api)
      → ((x : A) (a1 : Api)
          → a1.devices ≡ a.devices
          → Opened p device_id connection bulk a1.log a.devices (next x a1))
      → Opened p device_id connection bulk a.log a.devices (received_from connection r a next)
  unfolding received_from
  received-Opened read_failed a next h = inr (omega arith, refl)
  received-Opened wrong_length a next h = inr (omega arith, refl)
  received-Opened (got x) a next h =
      Opened-earlier p device_id connection bulk a.log a.devices (received connection)
        (next x (happened (received connection) a)) (h x (happened (received connection) a) refl)

code_received-devices :
    (connection : ℕ) (r : Received ℕ) (a : Api)
    → (received_from connection r a (λ code a2. (code, a2))).1.devices ≡ a.devices
unfolding received_from
code_received-devices connection read_failed a = refl
code_received-devices connection wrong_length a = refl
code_received-devices connection (got x) a = refl

asked-devices :
    (p : Platform) (connection : ℕ) (m : Message) (a : Api)
    → (send_to_daemon p connection m a
        (λ a1. recv_code p connection a1 (λ code a2. (code, a2)))).1.devices
      ≡ a.devices
unfolding send_to_daemon
asked-devices p connection m a = elim (Bool-cases (p.send a.log connection m)) [
  | inl e ↦ rw (e, send_to_daemon) (code_received-devices connection _ _)
  | inr e ↦ rw (e, send_to_daemon) refl
]

code_received-out :
    (connection : ℕ) (r : Received ℕ) (a : Api)
    → (received_from connection r a (λ code a2. (code, a2))).1.out ≡ a.out
unfolding received_from
code_received-out connection read_failed a = refl
code_received-out connection wrong_length a = refl
code_received-out connection (got x) a = refl

asked-out :
    (p : Platform) (connection : ℕ) (m : Message) (a : Api)
    → (send_to_daemon p connection m a
        (λ a1. recv_code p connection a1 (λ code a2. (code, a2)))).1.out
      ≡ a.out
unfolding send_to_daemon
asked-out p connection m a = elim (Bool-cases (p.send a.log connection m)) [
  | inl e ↦ rw (e, send_to_daemon) (code_received-out connection _ _)
  | inr e ↦ rw (e, send_to_daemon) refl
]

-- What holds of the history and goes on to hold after one more event.
module _ (P : List ApiEvent → Type 0)
    (more : (e : ApiEvent) (log : List ApiEvent) → P log → P (e ∷ log)) where
  code_received-kept :
      (connection : ℕ) (r : Received ℕ) (a : Api)
      → P a.log
      → P (received_from connection r a (λ code a2. (code, a2))).1.log
  unfolding received_from
  code_received-kept connection read_failed a h = more (received connection) a.log h
  code_received-kept connection wrong_length a h = more (received connection) a.log h
  code_received-kept connection (got x) a h = more (received connection) a.log h

  asked-kept :
      (p : Platform) (connection : ℕ) (m : Message) (a : Api)
      → P a.log
      → P
          (send_to_daemon p connection m a
            (λ a1. recv_code p connection a1 (λ code a2. (code, a2)))).1.log
  unfolding send_to_daemon
  asked-kept p connection m a h = elim (Bool-cases (p.send a.log connection m)) [
    | inl e ↦
        rw (e, send_to_daemon)
          (code_received-kept connection _ (happened (sent connection m) a)
            (more (sent connection m) a.log h))
    | inr e ↦ rw (e, send_to_daemon) (more (send_failed connection m) a.log h)
  ]

connect_notifications-Opened :
    (p : Platform) (device_id connection : ℕ) (o : OpenedPayload)
    (bulk : Option BulkBufferDescriptor) (start : List ApiEvent) (a : Api)
    → a.out ≡ some o.session_id
    → After start a.log
    → IdReceived p start connection o.session_id a.log
    → Opened p device_id connection bulk start a.devices
        (connect_notifications p device_id o bulk a)
unfolding connect_notifications
connect_notifications-Opened p device_id connection o bulk start a out after told =
    elim (Option-cases (p.connect a.log)) [
      | inl e ↦ rw (e, connect_notifications) (inr (omega arith, refl))
      | inr (nq, e) ↦
          let message = msg_nq_connect device_id o.session_id o.device_session_id o.session_magic in
          let begun = happened (connected nq) a in
          let (code, a') =
            send_to_daemon p nq message begun (λ a1. recv_code p nq a1 (λ code a2. (code, a2))) in
          let same = asked-devices p nq message begun in
          let kept = asked-out p nq message begun in
          let still =
            asked-kept (IdReceived p start connection o.session_id) (λ e log h. inr h) p nq message
              begun (inr told) in
          let socket =
            asked-kept (Connected p start nq) (λ e log h. inr h) p nq message begun
              (inl (refl, e, after)) in
          elim (Bool-cases (code == mc_drv_ok)) [
            | inl ok ↦
                rw (e, connect_notifications, ok)
                  (inl (
                    refl,
                    (
                      o.session_id,
                      nq,
                      kept ∙ out,
                      still,
                      socket,
                      ap
                          (update_device device_id
                            (λ x. record x { device = add_session o.session_id nq bulk x.device }))
                          same,
                    ),
                  ))
            | inr bad ↦
                let n : code ≢ mc_drv_ok = ground (arith, bad) in
                rw (e, connect_notifications, bad) (inr (n, same))
          ]
    ]

take_payload-Opened :
    (p : Platform) (device_id connection : ℕ) (bulk : Option BulkBufferDescriptor) (a : Api)
    (r : Received OpenedPayload)
    → p.recv_opened a.log connection ≡ r
    → Opened p device_id connection bulk a.log a.devices
        (received_from connection r a (take_payload p device_id bulk))
unfolding received_from take_payload
take_payload-Opened p device_id connection bulk a read_failed e = inr (omega arith, refl)
take_payload-Opened p device_id connection bulk a wrong_length e = inr (omega arith, refl)
take_payload-Opened p device_id connection bulk a (got o) e =
    connect_notifications-Opened p device_id connection o bulk a.log
      (record (happened (received connection) a) { out = some o.session_id }) refl
      (inr (After-refl a.log)) (inl (refl, (o, e, refl), After-refl a.log))

take_response-Opened :
    (p : Platform) (codes : List (ℕ × ℕ)) (device_id connection : ℕ)
    (bulk : Option BulkBufferDescriptor) (code : ℕ) (a : Api)
    → NoSuccess codes
    → Opened p device_id connection bulk a.log a.devices
        (take_response p codes device_id connection bulk code a)
unfolding take_response
take_response-Opened p codes device_id connection bulk code a h =
    elim (Bool-cases (code == mc_drv_ok)) [
      | inl e ↦
          rw (e, take_response)
            (take_payload-Opened p device_id connection bulk a (p.recv_opened a.log connection)
              refl)
      | inr e ↦
          let n : code ≢ mc_drv_ok = ground (arith, e) in
          rw (e, take_response) (inr (open_error-ne-ok codes code h n, refl))
    ]

pub finish_open-Opened :
    (p : Platform) (codes : List (ℕ × ℕ)) (device_id connection : ℕ)
    (bulk : Option BulkBufferDescriptor) (a : Api)
    → NoSuccess codes
    → Opened p device_id connection bulk a.log a.devices
        (finish_open p codes device_id connection bulk a)
unfolding finish_open
finish_open-Opened p codes device_id connection bulk a h =
    received-Opened p device_id connection bulk (p.recv_number a.log connection) a
      (take_response p codes device_id connection bulk)
      (λ code a1 same.
        subst
          (λ ds.
            Opened p device_id connection bulk a1.log ds
              (take_response p codes device_id connection bulk code a1))
          same (take_response-Opened p codes device_id connection bulk code a1 h))
