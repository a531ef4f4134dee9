-- ===== src/Broadcast/Delivered.antt =====
-- What one connection gets from a broadcast.
use archon_vibe.Prelude.{
  String, ◌≡◌, refl, Bool, true, false, Option, none, some, List, [], ◌∷◌, arith, ◌==◌, string_eq,
  if◌then◌else◌, Bool-cases, inl, inr, All, length, ◌+◌, ◌≤◌,
}
use archon_vibe.Prelude.Dict.{lookup, lookup-insert}
use archon_vibe.Json.{Fields}
use archon_vibe.Models.Roles.{object_type_eq}
use archon_vibe.Broadcast.Queue.{FrameKey, frame_key_eq}
use archon_vibe.Broadcast.Queue.Delivery.{put_accepted, put_refused_iff, put_refused_same}
use archon_vibe.Broadcast.Data.{BroadcastData, level_for}
use archon_vibe.Broadcast.Fanout.{
  SseConnection, Payload, payload_for, render, send, deliver, passes_over, fan_out,
  broadcast_precomputed,
}

module _ (encode : Fields → String) (now : String) where
  -- The frame that a connection is owed: that of its viewer's level, unless it is passed over.
  abbrev pub owed : Option String → BroadcastData → SseConnection → Option Payload
  owed exclude bd conn =
      if passes_over encode now exclude bd conn
      then none
      else payload_for bd (level_for bd conn.user)

  abbrev pub key_of : BroadcastData → FrameKey
  key_of bd = FrameKey.object bd.obj_type bd.uid

  -- What is pending under a key once a payload has been sent.
  abbrev pub pending_after :
      BroadcastData → Option Payload → FrameKey → Option String → Option String
  pending_after bd none k before = before
  pending_after bd (some p) k before =
      if key_of bd == k then some (render encode now bd p) else before

  send-pending :
      (bd : BroadcastData) (o : Option Payload) (conn : SseConnection) (k : FrameKey)
      → (send encode now bd o conn).1 ≡ false
      → lookup k (send encode now bd o conn).0.queue.items
        ≡ pending_after bd o k (lookup k conn.queue.items)
  unfolding send
  send-pending bd none conn k h = refl
  send-pending bd (some p) conn k h = ground (
    arith,
    put_accepted (render encode now bd p) (key_of bd) conn.queue,
    lookup-insert k (key_of bd) (render encode now bd p) conn.queue.items,
  )

  send-dropped :
      (bd : BroadcastData) (o : Option Payload) (conn : SseConnection)
      → (send encode now bd o conn).1 ≡ true
      → ((send encode now bd o conn).0.closed ≡ true)
        × ((send encode now bd o conn).0.queue ≡ conn.queue)
        × (lookup (key_of bd) conn.queue.items ≡ none)
        × (conn.queue.maxsize ≤ length conn.queue.items)
  unfolding send
  send-dropped bd none conn h = absurd (cc)
  send-dropped bd (some p) conn h = ground (
    arith,
    put_refused_iff (render encode now bd p) (key_of bd) conn.queue,
    put_refused_same (render encode now bd p) (key_of bd) conn.queue,
  )

  -- A connection that a broadcast does not drop holds, under the object's key, the frame of its
  -- viewer's own level and no other, and under every other key what it held before; one that is
  -- passed over, or is owed nothing, holds what it held.
  pub deliver-kept :
      (exclude : Option String) (bd : BroadcastData) (conn : SseConnection) (k : FrameKey)
      → (deliver encode now exclude bd conn).1 ≡ false
      → lookup k (deliver encode now exclude bd conn).0.queue.items
        ≡ pending_after bd (owed exclude bd conn) k (lookup k conn.queue.items)
  unfolding deliver
  deliver-kept exclude bd conn k = elim (Bool-cases (passes_over encode now exclude bd conn)) [
    | inl skip ↦ rw skip (λ h. refl)
    | inr take ↦ rw take (send-pending bd (payload_for bd (level_for bd conn.user)) conn k)
  ]

  -- A connection that a broadcast drops is marked closed, its queue is as it was, and that queue is
  -- full of other objects' frames.
  pub deliver-dropped :
      (exclude : Option String) (bd : BroadcastData) (conn : SseConnection)
      → (deliver encode now exclude bd conn).1 ≡ true
      → ((deliver encode now exclude bd conn).0.closed ≡ true)
        × ((deliver encode now exclude bd conn).0.queue ≡ conn.queue)
        × (lookup (key_of bd) conn.queue.items ≡ none)
        × (conn.queue.maxsize ≤ length conn.queue.items)
  unfolding deliver
  deliver-dropped exclude bd conn = elim (Bool-cases (passes_over encode now exclude bd conn)) [
    | inl skip ↦ rw skip (λ h. absurd (cc))
    | inr take ↦ rw take (send-dropped bd (payload_for bd (level_for bd conn.user)) conn)
  ]

fan_out_splits :
    (step : SseConnection → SseConnection × Bool) (conns : List SseConnection)
    → ((c : SseConnection) → (step c).1 ≡ true → (step c).0.closed ≡ true)
    → (length (fan_out step conns).0 + length (fan_out step conns).1 ≡ length conns)
      × All (λ c. c.closed ≡ true) (fan_out step conns).1
unfolding fan_out
fan_out_splits step [] closes = (omega arith, tt)
fan_out_splits step (c ∷ cs) closes =
    let (sum, closed) = fan_out_splits step cs closes in
    elim (Bool-cases (step c).1) [
      | inl dropped ↦ rw dropped (omega (arith, sum), (closes c dropped, closed))
      | inr kept ↦ rw kept (omega (arith, sum), closed)
    ]

-- The connections of a broadcast are split, none lost: those that overflow leave the set, closed.
pub broadcast_precomputed_splits :
    (encode : Fields → String) (now : String) (exclude : Option String) (bd : BroadcastData)
    (conns : List SseConnection)
    → (length (broadcast_precomputed encode now exclude bd conns).0
          + length (broadcast_precomputed encode now exclude bd conns).1
        ≡ length conns)
      × All (λ c. c.closed ≡ true) (broadcast_precomputed encode now exclude bd conns).1
unfolding broadcast_precomputed
broadcast_precomputed_splits encode now exclude bd conns =
    fan_out_splits (deliver encode now exclude bd) conns
      (λ c h. (deliver-dropped encode now exclude bd c h).0)
