-- ===== src/Broadcast/Queue.antt =====
-- `CoalescingQueue` of backend/src/broadcast.py: the frames pending for one connection. The
-- `asyncio.Event` is a flag; a consumer that finds nothing clears it and waits for the next write.
pub mod Invariant
pub mod Delivery
use archon_vibe.Prelude.{
  ℕ, ◌+◌, String, Bool, true, false, not, ◌&&◌, Option, none, some, List, [], ◌∷◌, leb, Eq, ◌==◌,
  string_eq, nat_eq, length, if◌then◌else◌, ◌≡◌, ◌↔◌, arith, ==-iff,
}
use archon_vibe.Prelude.Dict.{Dict, insert, contains}
use archon_vibe.Models.Roles.{ObjectType, object_type_eq}

-- The keys in use: the running number that an unkeyed frame gets, `(obj_type, uid)`, and the fixed
-- texts "__wake__" and "__resync__".
pub data FrameKey : Type 0 where
  sequence : ℕ → FrameKey
  object : ObjectType → String → FrameKey
  named : String → FrameKey

abbrev pub frame_key_beq : FrameKey → FrameKey → Bool
frame_key_beq (FrameKey.sequence a) (FrameKey.sequence b) = a == b
frame_key_beq (FrameKey.object s a) (FrameKey.object t b) = s == t && a == b
frame_key_beq (FrameKey.named a) (FrameKey.named b) = a == b
frame_key_beq _ _ = false

pub frame_key_beq_iff : (a b : FrameKey) → (frame_key_beq a b ≡ true) ↔ (a ≡ b)
frame_key_beq_iff (FrameKey.sequence a) (FrameKey.sequence b) = ground arith
frame_key_beq_iff (FrameKey.object s a) (FrameKey.object t b) =
    ground (arith, ==-iff s t, ==-iff a b)
frame_key_beq_iff (FrameKey.named a) (FrameKey.named b) = ground (arith, ==-iff a b)
frame_key_beq_iff _ _ = ground arith

instance abbrev pub frame_key_eq : Eq FrameKey
frame_key_eq = record { equals = frame_key_beq; equals_iff = frame_key_beq_iff }

pub record CoalescingQueue : Type 0 where
  pub maxsize : ℕ
  pub items : Dict FrameKey String
  pub event : Bool
  pub seq : ℕ

-- `_SSE_QUEUE_MAXSIZE`
abbrev pub sse_queue_maxsize : ℕ
sse_queue_maxsize = 30

abbrev pub new_queue : ℕ → CoalescingQueue
new_queue maxsize = record { maxsize = maxsize; items = []; event = false; seq = 0 }

-- A write comes back with `true`, or with `false` where the source raises `QueueFull`.
unfoldable pub put_at : FrameKey → String → CoalescingQueue → Bool × CoalescingQueue
put_at key msg q =
    if not (contains key q.items) && leb q.maxsize (length q.items)
    then (false, q)
    else (true, record q { items = insert key msg q.items; event = true })

-- The number of an unkeyed frame is used up before the test for room.
unfoldable pub put_nowait : String → Option FrameKey → CoalescingQueue → Bool × CoalescingQueue
unfolding put_at
put_nowait msg none q = put_at (FrameKey.sequence q.seq) msg (record q { seq = q.seq + 1 })
put_nowait msg (some key) q = put_at key msg q

unfoldable pub pop_first : Dict FrameKey String → CoalescingQueue → Option String × CoalescingQueue
pop_first [] q = (none, q)
pop_first ((key, msg) ∷ rest) q = (some msg, record q { items = rest })

-- `none` where the source raises `QueueEmpty`.
unfoldable pub get_nowait : CoalescingQueue → Option String × CoalescingQueue
unfolding pop_first
get_nowait q = pop_first q.items q

abbrev pub empty : CoalescingQueue → Bool
empty q = elim q.items [ [] ↦ true | e ∷ rest ↦ false ]

-- One round of `get`: a frame, or `none` once it has cleared the event and waits for it.
unfoldable pub get_round : CoalescingQueue → Option String × CoalescingQueue
unfolding pop_first
get_round q = if empty q then (none, record q { event = false }) else pop_first q.items q
