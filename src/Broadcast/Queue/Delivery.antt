-- ===== src/Broadcast/Queue/Delivery.antt =====
-- What a consumer of the queue gets: for each key the frame written last, in the order in which the
-- keys came, and never an unkeyed frame replaced.
use archon_vibe.Prelude.{
  ℕ, zero, suc, ◌≤◌, String, ◌≡◌, refl, sym, subst, ap, ◌∙◌, ◌↔◌, Bool, true, false, Option, none,
  some, List, [], ◌∷◌, arith, length, member, ◌==◌, if◌then◌else◌,
}
use archon_vibe.Prelude.Dict.{
  Dict, lookup, contains, insert, lookup-insert, keys, values, IsDistinct, insert-IsDistinct,
  length-insert,
}
use archon_vibe.Prelude.Pigeonhole.{AllIn, AllIn-insert, length-le-of-AllIn}
use archon_vibe.Broadcast.Queue.{
  new_queue, FrameKey, frame_key_eq, CoalescingQueue, put_at, put_nowait, pop_first, get_nowait,
}

-- A write is refused exactly when the queue is full of other keys; it then changes nothing.
pub put_refused_iff :
    (m : String) (k : FrameKey) (q : CoalescingQueue)
    → ((put_nowait m (some k) q).0 ≡ false)
      ↔ ((contains k q.items ≡ false) × (q.maxsize ≤ length q.items))
unfolding put_nowait put_at
put_refused_iff m k q = ground arith

pub put_accepted :
    (m : String) (k : FrameKey) (q : CoalescingQueue)
    → (put_nowait m (some k) q).0 ≡ true
    → (put_nowait m (some k) q).1 ≡ record q { items = insert k m q.items; event = true }
unfolding put_nowait put_at
put_accepted m k q h = ground arith

-- The writes of a producer, in order; the flag tells whether all were accepted.
unfoldable pub put_all : List (FrameKey × String) → CoalescingQueue → Bool × CoalescingQueue
put_all [] q = (true, q)
put_all ((k, m) ∷ rest) q =
    let (accepted, q') = put_nowait m (some k) q in
    let (others, q'') = put_all rest q' in (if accepted then others else false, q'')

-- The message that a run of writes leaves for a key, from the one pending before.
unfoldable pub latest : FrameKey → List (FrameKey × String) → Option String → Option String
latest j [] before = before
latest j ((k, m) ∷ rest) before = latest j rest (if k == j then some m else before)

accepted_first :
    (puts : List (FrameKey × String)) (k : FrameKey) (m : String) (q : CoalescingQueue)
    → (put_all ((k, m) ∷ puts) q).0 ≡ true
    → ((put_nowait m (some k) q).0 ≡ true) × ((put_all puts (put_nowait m (some k) q).1).0 ≡ true)
unfolding put_all
accepted_first puts k m q h = ground arith

put_all-latest :
    (puts : List (FrameKey × String)) (j : FrameKey) (q : CoalescingQueue)
    → (put_all puts q).0 ≡ true
    → lookup j (put_all puts q).1.items ≡ latest j puts (lookup j q.items)
unfolding put_all latest
put_all-latest [] j q h = refl
put_all-latest ((k, m) ∷ rest) j q h =
    let (first, others) = accepted_first rest k m q h in
    put_all-latest rest j (put_nowait m (some k) q).1 others
    ∙ ap (latest j rest) (
        ap (λ (q' : CoalescingQueue). lookup j q'.items) (put_accepted m k q first)
        ∙ lookup-insert j k m q.items)

-- Everything that is pending, oldest first.
emit : Option String → List String → List String
emit none ms = []
emit (some m) ms = m ∷ ms

unfoldable pub drain : ℕ → CoalescingQueue → List String
unfolding emit
drain zero q = []
drain (suc n) q = let (msg, q') = get_nowait q in emit msg (drain n q')

drain_lem :
    (d : Dict FrameKey String) (q : CoalescingQueue)
    → drain (length d) (record q { items = d }) ≡ values d
unfolding drain get_nowait pop_first
drain_lem [] q = refl
drain_lem ((k, m) ∷ d) q = ap (λ ms. m ∷ ms) (drain_lem d q)

put_all-IsDistinct :
    (puts : List (FrameKey × String)) (q : CoalescingQueue)
    → IsDistinct q.items
    → (put_all puts q).0 ≡ true
    → IsDistinct (put_all puts q).1.items
unfolding put_all
put_all-IsDistinct [] q u h = u
put_all-IsDistinct ((k, m) ∷ rest) q u h =
    let (first, others) = accepted_first rest k m q h in
    put_all-IsDistinct rest (put_nowait m (some k) q).1
      (subst (λ (q' : CoalescingQueue). IsDistinct q'.items) (sym (put_accepted m k q first))
        (insert-IsDistinct k m q.items u))
      others

-- From a queue with no key twice, a run of accepted writes leaves a queue with no key twice: one
-- frame for each key that was written or pending, the one written last, or the pending one where
-- nothing was written; and the consumer reads out those frames, in the order of the keys.
pub delivers_latest :
    (puts : List (FrameKey × String)) (q : CoalescingQueue)
    → IsDistinct q.items
    → (put_all puts q).0 ≡ true
    → let d = (put_all puts q).1.items in
      IsDistinct d
      × ((j : FrameKey) → lookup j d ≡ latest j puts (lookup j q.items))
      × (drain (length d) (put_all puts q).1 ≡ values d)
delivers_latest puts q u h = (
  put_all-IsDistinct puts q u h,
  λ j. put_all-latest puts j q h,
  drain_lem (put_all puts q).1.items (put_all puts q).1,
)

module _ (ks : List FrameKey) where
  -- There is room for a frame of each of the keys in `ks`, and nothing else is pending.
  record HasRoom (q : CoalescingQueue) : Type 0 where
    enough : length ks ≤ q.maxsize
    distinct : IsDistinct q.items
    known : AllIn ks (keys q.items)

  room_accepts :
      (k : FrameKey) (m : String) (q : CoalescingQueue)
      → member k ks ≡ true
      → HasRoom q
      → (put_nowait m (some k) q).0 ≡ true
  unfolding put_nowait put_at
  room_accepts k m q hk r = ground (
    arith,
    length-insert k m q.items,
    length-le-of-AllIn ks (insert k m q.items) (insert-IsDistinct k m q.items r.distinct)
        (AllIn-insert ks k m q.items hk r.known),
  )

  room_stays :
      (k : FrameKey) (m : String) (q : CoalescingQueue)
      → member k ks ≡ true
      → HasRoom q
      → HasRoom (put_nowait m (some k) q).1
  room_stays k m q hk r = rw (put_accepted m k q (room_accepts k m q hk r)) (record {
    enough = r.enough;
    distinct = insert-IsDistinct k m q.items r.distinct;
    known = AllIn-insert ks k m q.items hk r.known;
  })

  put_all_accepted :
      (puts : List (FrameKey × String)) (q : CoalescingQueue)
      → AllIn ks (keys puts)
      → HasRoom q
      → ((put_all puts q).0 ≡ true) × HasRoom (put_all puts q).1
  unfolding put_all AllIn
  put_all_accepted [] q a r = (refl, r)
  put_all_accepted ((k, m) ∷ rest) q a r =
      rw (room_accepts k m q a.0 r)
        (put_all_accepted rest (put_nowait m (some k) q).1 a.1 (room_stays k m q a.0 r))

-- A consumer that reads nothing never overflows while the frames concern at most as many objects as
-- the queue has places, however often each of them is written.
pub stalled_consumer_fits :
    (ks : List FrameKey) (n : ℕ) (puts : List (FrameKey × String))
    → length ks ≤ n
    → AllIn ks (keys puts)
    → ((put_all puts (new_queue n)).0 ≡ true)
      × (length (put_all puts (new_queue n)).1.items ≤ length ks)
unfolding IsDistinct AllIn
stalled_consumer_fits ks n puts h a =
    let start : HasRoom ks (new_queue n) = record { enough = h; distinct = tt; known = tt } in
    let (accepted, room) = put_all_accepted ks puts (new_queue n) a start in
    (accepted, length-le-of-AllIn ks (put_all puts (new_queue n)).1.items room.distinct room.known)

-- A refused write leaves the queue as it was.
pub put_refused_same :
    (m : String) (k : FrameKey) (q : CoalescingQueue)
    → (put_nowait m (some k) q).0 ≡ false
    → (put_nowait m (some k) q).1 ≡ q
unfolding put_nowait put_at
put_refused_same m k q h = ground arith
