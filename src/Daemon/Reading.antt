-- ===== src/Daemon/Reading.antt =====
-- The loop of processOpenTrustlet that reads the blob: when it ends, and when it does not.
use trustonic_tee_user_space.Prelude.{
  ℕ, zero, suc, ◌+◌, ◌-◌, ◌<◌, ◌≤◌, ◌≡◌, ◌≢◌, refl, subst, true, List, [], ◌∷◌, ◌++◌, Option, none,
  some, arith, ltb, length, length-append, Option-cases, Bool-cases, inl, inr,
}
use trustonic_tee_user_space.Daemon.{World, Daemon, payload, has_device, recv_payload, check_device}
use trustonic_tee_user_space.Daemon.Trustlet.{
  Reads, OpenTrustletRequest, read_trustlet, receive_blob, process_open_trustlet,
}
use trustonic_tee_user_space.Daemon.Dispatch.{open_trustlet, handle_command}

-- A read of a connected peer: an error, or at least one byte and at most those asked for.
abbrev pub Progress : ℕ → Option (List ℕ) → Type 0
Progress asked none = Unit
Progress asked (some bytes) = (0 < length bytes) × (length bytes ≤ asked)

-- The loop has ended: with an error, or with a blob of the length.
abbrev pub Complete : ℕ → Option (Option (List ℕ)) → Type 0
Complete len none = ⊥
Complete len (some none) = Unit
Complete len (some (some blob)) = length blob ≡ len

-- If every read of a missing part makes progress, the loop ends after at most as many rounds as
-- bytes are missing: with an error, or with exactly the bytes announced.
pub read_trustlet-Complete :
    (fuel : ℕ) (reads : Reads) (round len : ℕ) (got : List ℕ)
    → ((i asked : ℕ) → 0 < asked → Progress asked (reads i asked))
    → length got ≤ len
    → len < length got + fuel
    → Complete len (read_trustlet fuel reads round len got)
unfolding read_trustlet
read_trustlet-Complete zero reads round len got p h f = absurd (omega arith)
read_trustlet-Complete (suc fuel) reads round len got p h f =
    elim (Bool-cases (ltb (length got) len)) [
      | inr e ↦ rw (e, read_trustlet) (ground arith)
      | inl e ↦ elim (Option-cases (reads round (len - length got))) [
        | inl r ↦ rw (e, r, read_trustlet) tt
        | inr (bytes, r) ↦
            let less : length got < len = ground arith in
            let (some_bytes, few) : Progress (len - length got) (some bytes) =
              subst (Progress (len - length got)) r
                (p round (len - length got) (omega (arith, less))) in
            let sum = length-append got bytes in
            rw (e, r, read_trustlet)
              (read_trustlet-Complete fuel reads (suc round) len (got ++ bytes) p (omega arith)
                (omega arith))
      ]
    ]

-- The reads give nothing any more, from the round on: the peer has closed.
abbrev pub Closed : ℕ → Reads → Type 0
Closed round reads = (i asked : ℕ) → reads (round + i) asked ≡ some []

read_trustlet-Closed :
    (fuel : ℕ) (reads : Reads) (round len : ℕ) (got : List ℕ)
    → Closed round reads
    → length got < len
    → read_trustlet fuel reads round len got ≡ none
unfolding read_trustlet
read_trustlet-Closed zero reads round len got p h = refl
read_trustlet-Closed (suc fuel) reads round len got p h =
    let here : reads round (len - length got) ≡ some [] =
      subst (λ i. reads i (len - length got) ≡ some []) (omega arith) (p 0 (len - length got)) in
    let later : Closed (suc round) reads =
      λ i asked. subst (λ j. reads j asked ≡ some []) (omega arith) (p (suc i) asked) in
    let short : ltb (length got) len ≡ true = ground arith in
    rw (short, here, read_trustlet)
      (read_trustlet-Closed fuel reads (suc round) len (got ++ []) later
        (omega (arith, length-append got [])))

-- From the round on, the reads give the chunks, fewer bytes together than are missing, and then the
-- peer has closed. A read that fails ends the loop, and is not one of these.
abbrev pub ClosesEarly : Reads → (round missing : ℕ) → (chunks : List (List ℕ)) → Type 0
ClosesEarly reads round missing [] = (0 < missing) × Closed round reads
ClosesEarly reads round missing (chunk ∷ chunks) =
    (reads round missing ≡ some chunk)
    × (length chunk < missing)
    × ClosesEarly reads (suc round) (missing - length chunk) chunks

read_trustlet-ClosesEarly :
    (fuel : ℕ) (reads : Reads) (round len : ℕ) (got : List ℕ) (chunks : List (List ℕ))
    → length got ≤ len
    → ClosesEarly reads round (len - length got) chunks
    → read_trustlet fuel reads round len got ≡ none
unfolding read_trustlet
read_trustlet-ClosesEarly zero reads round len got chunks few early = refl
read_trustlet-ClosesEarly (suc fuel) reads round len got [] few (missing, closed) =
    read_trustlet-Closed (suc fuel) reads round len got closed (omega (arith, missing))
read_trustlet-ClosesEarly (suc fuel) reads round len got (chunk ∷ chunks) few (now, short, later) =
    let less : ltb (length got) len ≡ true = ground (arith, short) in
    let sum = length-append got chunk in
    let left : len - length got - length chunk ≡ len - length (got ++ chunk) = omega (arith, sum) in
    rw (less, now, read_trustlet)
      (read_trustlet-ClosesEarly fuel reads (suc round) len (got ++ chunk) chunks
        (omega (arith, sum, short))
        (subst (λ n. ClosesEarly reads (suc round) n chunks) left later))

-- A client that sends any number of chunks, fewer bytes together than it announced, and then closes
-- its socket: the handler does not return, however long it runs, since a read of nothing is not
-- taken for the end. The device is open, and there is memory for the Trustlet.
pub open_trustlet-hangs :
    (fuel : ℕ) (w : World) (d : Daemon) (connection : ℕ) (reads : Reads) (cmd : OpenTrustletRequest)
    (chunks : List (List ℕ))
    → has_device connection d.opened ≡ true
    → w.malloc d.device.log cmd.trustlet_len ≢ none
    → ClosesEarly reads 0 cmd.trustlet_len chunks
    → handle_command fuel w d connection (open_trustlet reads (payload cmd)) ≡ none
unfolding handle_command process_open_trustlet recv_payload check_device receive_blob
open_trustlet-hangs fuel w d connection reads cmd chunks o m early =
    elim (Option-cases (w.malloc d.device.log cmd.trustlet_len)) [
      | inl e ↦ absurd (m e)
      | inr (address, e) ↦
          let stuck : read_trustlet fuel reads 0 cmd.trustlet_len [] ≡ none =
            read_trustlet-ClosesEarly fuel reads 0 cmd.trustlet_len [] chunks (omega arith)
              (subst (λ n. ClosesEarly reads 0 n chunks) (omega arith) early) in
          rw (o, e, stuck, receive_blob) refl
    ]
