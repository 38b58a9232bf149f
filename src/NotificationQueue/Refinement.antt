-- ===== src/NotificationQueue/Refinement.antt =====
-- A ring refines a bounded FIFO: `put` appends unless full, `get` takes the oldest entry.
use native.Mathlib.Nat.{mod-lt, one-le-pow, pow-le-pow_right}
use trustonic_tee_user_space.Prelude.{
  ℕ, suc, ◌+◌, ◌%◌, ◌^◌, ◌≤◌, ◌<◌, ◌≡◌, refl, sym, ap, ◌∙◌, inl, inr, true, false, List, [], ◌∷◌,
  ◌++◌, Option, none, some, length, get_elem?, set, length-set, get_or-set_self,
  get_elem?-eq-get_or, arith, ltb, ltb→lt, if◌then◌else◌, Bool-cases,
}
use trustonic_tee_user_space.Prelude.Words.{u32_mod, add32, sub32, add32-lt}
use trustonic_tee_user_space.NotificationQueue.{
  Notification, Ring, NotificationQueue, slot, put, get, put_notification, get_notification,
}
use trustonic_tee_user_space.NotificationQueue.Window.{
  IsValid, blank, window, contents, length-window, window_snoc, mod_word, slot_lem, window_same,
  window-set,
}

-- The FIFO of at most `cap` entries, oldest first.
pub push : ℕ → List Notification → Notification → List Notification
push cap xs n = if ltb (length xs) cap then xs ++ n ∷ [] else xs

unfoldable pub pop : List Notification → Option Notification × List Notification
pop [] = (none, [])
pop (x ∷ xs) = (some x, xs)

-- The counters wrap at 2 ^ 32; their difference does not.
count_put :
    (w r : ℕ)
    → w < u32_mod
    → r < u32_mod
    → sub32 w r < 2 ^ 31 + 1
    → sub32 (add32 w 1) r ≡ suc (sub32 w r)
unfolding add32 sub32
count_put w r p q h = omega arith

count_get :
    (w r : ℕ) → w < u32_mod → r < u32_mod → 0 < sub32 w r → sub32 w r ≡ suc (sub32 w (add32 r 1))
unfolding add32 sub32
count_get w r p q h = omega arith

write_cnt_lem : (w r : ℕ) → w < u32_mod → r < u32_mod → (r + sub32 w r) % u32_mod ≡ w
unfolding sub32
write_cnt_lem w r p q = omega arith

pow_small : (k : ℕ) → k < 32 → 2 ^ k ≤ 2 ^ 31
pow_small k h = pow-le-pow_right (omega arith) {j = 31} (omega arith)

pow_pos : (k : ℕ) → 0 < 2 ^ k
pow_pos k = one-le-pow k 2 (omega arith)

write_slot :
    (k w r : ℕ) → k < 32 → w < u32_mod → r < u32_mod → slot w (2 ^ k) ≡ (r + sub32 w r) % 2 ^ k
write_slot k w r h p q =
    slot_lem k w h
    ∙ ap (λ (x : ℕ). x % 2 ^ k) (sym (write_cnt_lem w r p q))
    ∙ mod_word k (r + sub32 w r) h

-- What the slots of a ring with room hold after a put.
window_put :
    (k : ℕ) (xs : List Notification) (w r : ℕ) (n : Notification)
    → k < 32
    → length xs ≡ 2 ^ k
    → w < u32_mod
    → r < u32_mod
    → sub32 w r < 2 ^ k
    → window k (set xs (slot w (2 ^ k)) n) r (sub32 (add32 w 1) r)
      ≡ window k xs r (sub32 w r) ++ n ∷ []
window_put k xs w r n h l p q room = rw (
  count_put w r p q (omega (arith, pow_small k h)),
  window_snoc k (set xs (slot w (2 ^ k)) n) r (sub32 w r),
  window-set k xs r (sub32 w r) (sub32 w r) (slot w (2 ^ k)) n (omega arith) room
      (write_slot k w r h p q),
  ← write_slot k w r h p q,
  get_or-set_self xs (slot w (2 ^ k)) n blank
      (omega (arith, write_slot k w r h p q, mod-lt (r + sub32 w r) (pow_pos k))),
)

put_room :
    (m : ℕ) (r : Ring) (n : Notification)
    → r.queue_size ≡ m
    → ltb (sub32 r.write_cnt r.read_cnt) m ≡ true
    → put r n
      ≡ record r { slots = set r.slots (slot r.write_cnt m) n; write_cnt = add32 r.write_cnt 1 }
unfolding put
put_room m r n s e = ground arith

put_full :
    (m : ℕ) (r : Ring) (n : Notification)
    → r.queue_size ≡ m
    → ltb (sub32 r.write_cnt r.read_cnt) m ≡ false
    → put r n ≡ r
unfolding put
put_full m r n s e = ground arith

get_some :
    (m : ℕ) (r : Ring)
    → r.queue_size ≡ m
    → ltb 0 (sub32 r.write_cnt r.read_cnt) ≡ true
    → get r ≡ (get_elem? r.slots (slot r.read_cnt m), record r { read_cnt = add32 r.read_cnt 1 })
unfolding get
get_some m r s e = ground arith

get-none : (r : Ring) → ltb 0 (sub32 r.write_cnt r.read_cnt) ≡ false → get r ≡ (none, r)
unfolding get
get-none r e = rw e

-- What a get from a ring with entries returns and leaves.
window_get :
    (k : ℕ) (xs : List Notification) (w r : ℕ)
    → k < 32
    → length xs ≡ 2 ^ k
    → w < u32_mod
    → r < u32_mod
    → 0 < sub32 w r
    → ◌≡◌ {A = Option Notification × List Notification}
        (get_elem? xs (slot r (2 ^ k)), window k xs (add32 r 1) (sub32 w (add32 r 1)))
        (pop (window k xs r (sub32 w r)))
unfolding pop add32
window_get k xs w r h l p q some_left = rw (
  count_get w r p q some_left,
  slot_lem k r h,
  get_elem?-eq-get_or xs (r % 2 ^ k) blank (omega (arith, mod-lt r (pow_pos k))),
  window_same k xs ((r + 1) % u32_mod) (r + 1) (sub32 w ((r + 1) % u32_mod)) (mod_word k (r + 1) h),
)

put-contents :
    (k : ℕ) (r : Ring) (n : Notification)
    → IsValid k r
    → IsValid k (put r n) × (contents k (put r n) ≡ push (2 ^ k) (contents k r) n)
unfolding push
put-contents k r n v = elim (Bool-cases (ltb (sub32 r.write_cnt r.read_cnt) (2 ^ k))) [
  | inl e ↦
      rw
        (
          put_room (2 ^ k) r n v.size e,
          length-window k r.slots r.read_cnt (sub32 r.write_cnt r.read_cnt),
          e,
        )
        (
          record {
            width = v.width;
            size = v.size;
            slots_there = length-set r.slots (slot r.write_cnt (2 ^ k)) n ∙ v.slots_there;
            write_word = add32-lt r.write_cnt 1;
            read_word = v.read_word;
            bounded = omega (
              arith,
              count_put r.write_cnt r.read_cnt v.write_word v.read_word
                  (omega (arith, pow_small k v.width)),
              ltb→lt _ _ e,
            );
          },
          window_put k r.slots r.write_cnt r.read_cnt n v.width v.slots_there v.write_word
              v.read_word (ltb→lt _ _ e),
        )
  | inr e ↦
      rw
        (
          put_full (2 ^ k) r n v.size e,
          length-window k r.slots r.read_cnt (sub32 r.write_cnt r.read_cnt),
          e,
        )
        (v, refl)
]

get-contents :
    (k : ℕ) (r : Ring)
    → IsValid k r
    → IsValid k (get r).1 × (((get r).0, contents k (get r).1) ≡ pop (contents k r))
unfolding pop
get-contents k r v = elim (Bool-cases (ltb 0 (sub32 r.write_cnt r.read_cnt))) [
  | inl e ↦ rw (get_some (2 ^ k) r v.size e) (
    record {
      width = v.width;
      size = v.size;
      slots_there = v.slots_there;
      write_word = v.write_word;
      read_word = add32-lt r.read_cnt 1;
      bounded = omega (
        arith,
        count_get r.write_cnt r.read_cnt v.write_word v.read_word (ltb→lt _ _ e),
        v.bounded,
      );
    },
    window_get k r.slots r.write_cnt r.read_cnt v.width v.slots_there v.write_word v.read_word
        (ltb→lt _ _ e),
  )
  | inr e ↦ rw (get-none r e) (v, let z : sub32 r.write_cnt r.read_cnt ≡ 0 = ground arith in rw z)
]

-- A well formed outgoing ring of 2 ^ k slots is a FIFO of that capacity: a notification goes to
-- the end, or is dropped if the ring is full; the ring stays well formed and the incoming one is
-- not touched.
pub put_notification-push :
    (k : ℕ) (q : NotificationQueue) (n : Notification)
    → IsValid k q.outgoing
    → IsValid k (put_notification q n).outgoing
      × (contents k (put_notification q n).outgoing ≡ push (2 ^ k) (contents k q.outgoing) n)
      × ((put_notification q n).incoming ≡ q.incoming)
unfolding put_notification
put_notification-push k q n v =
    let (kept, pushed) = put-contents k q.outgoing n v in (kept, pushed, refl)

-- A well formed incoming ring gives its oldest entry and keeps the rest in order, or gives none if
-- it is empty; the ring stays well formed and the outgoing one is not touched.
pub get_notification-pop :
    (k : ℕ) (q : NotificationQueue)
    → IsValid k q.incoming
    → let (n, q') = get_notification q in
      IsValid k q'.incoming
      × ((n, contents k q'.incoming) ≡ pop (contents k q.incoming))
      × (q'.outgoing ≡ q.outgoing)
unfolding get_notification
get_notification-pop k q v =
    let (kept, popped) = get-contents k q.incoming v in (kept, popped, refl)

-- The two sides of one ring, in any order of their calls.
pub data Call : Type 0 where
  puts : Notification → Call
  gets : Call

unfoldable pub ring_run : Ring → List Call → List (Option Notification)
unfolding put get
ring_run r [] = []
ring_run r (puts n ∷ cs) = ring_run (put r n) cs
ring_run r (gets ∷ cs) = (get r).0 ∷ ring_run (get r).1 cs

pub fifo_run : ℕ → List Notification → List Call → List (Option Notification)
fifo_run cap xs [] = []
fifo_run cap xs (puts n ∷ cs) = fifo_run cap (push cap xs n) cs
fifo_run cap xs (gets ∷ cs) = (pop xs).0 ∷ fifo_run cap (pop xs).1 cs

-- However the producer's and the consumer's calls on a well formed ring follow one another, the
-- consumer sees what a FIFO of the same capacity and contents would give it.
pub ring_run-eq-fifo_run :
    (k : ℕ) (r : Ring) (cs : List Call)
    → IsValid k r
    → ring_run r cs ≡ fifo_run (2 ^ k) (contents k r) cs
unfolding ring_run fifo_run
ring_run-eq-fifo_run k r [] v = refl
ring_run-eq-fifo_run k r (puts n ∷ cs) v =
    let (kept, e) = put-contents k r n v in rw (← e) (ring_run-eq-fifo_run k (put r n) cs kept)
ring_run-eq-fifo_run k r (gets ∷ cs) v =
    let (kept, e) = get-contents k r v in
    rw (← e) (ap (λ t. (get r).0 ∷ t) (ring_run-eq-fifo_run k (get r).1 cs kept))
