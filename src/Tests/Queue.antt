-- ===== src/Tests/Queue.antt =====
-- A queue of two places, written to by three frames of two objects.
use archon_vibe.Prelude.{String, ◌≡◌, ◌≤◌, refl, true, List, [], ◌∷◌, length, arith}
use archon_vibe.Prelude.Dict.{lookup, insert, keys, values, IsDistinct}
use archon_vibe.Prelude.Pigeonhole.{AllIn}
use archon_vibe.Models.Roles.{ObjectType, object_type_eq}
use archon_vibe.Broadcast.Queue.{
  FrameKey, frame_key_eq, CoalescingQueue, new_queue, put_nowait, put_at,
}
use archon_vibe.Broadcast.Queue.Invariant.{IsValid}
use archon_vibe.Broadcast.Queue.Delivery.{
  put_all, latest, drain, delivers_latest, stalled_consumer_fits,
}

abbrev dan_key : FrameKey
dan_key = FrameKey.object ObjectType.user "dan"

abbrev cup_key : FrameKey
cup_key = FrameKey.object ObjectType.tournament "cup"

abbrev waiting : CoalescingQueue
waiting = record { maxsize = 2; items = (dan_key, "old") ∷ []; event = true; seq = 1 }

waiting-IsValid : IsValid waiting
unfolding IsDistinct lookup
waiting-IsValid = ground arith

abbrev writes : List (FrameKey × String)
writes = (cup_key, "1") ∷ (dan_key, "new") ∷ (cup_key, "2") ∷ []

writes_are_accepted : (put_all writes waiting).0 ≡ true
unfolding put_all put_nowait put_at lookup insert
writes_are_accepted = refl

waiting-IsDistinct : IsDistinct waiting.items
unfolding IsDistinct lookup
waiting-IsDistinct = ground arith

delivers_latest_example :
    IsDistinct (put_all writes waiting).1.items
    × ((j : FrameKey)
        → lookup j (put_all writes waiting).1.items ≡ latest j writes (lookup j waiting.items))
    × (drain (length (put_all writes waiting).1.items) (put_all writes waiting).1
        ≡ values (put_all writes waiting).1.items)
delivers_latest_example = delivers_latest writes waiting waiting-IsDistinct writes_are_accepted

-- The frame of the member keeps its place and is the later one.
what_is_pending : (put_all writes waiting).1.items ≡ (dan_key, "new") ∷ (cup_key, "2") ∷ []
unfolding put_all put_nowait put_at lookup insert
what_is_pending = refl

writes_concern_two : AllIn (dan_key ∷ cup_key ∷ []) (keys writes)
unfolding AllIn
writes_concern_two = (refl, (refl, (refl, tt)))

stalled_consumer_fits_example :
    ((put_all writes (new_queue 2)).0 ≡ true) × (length (put_all writes (new_queue 2)).1.items ≤ 2)
stalled_consumer_fits_example =
    stalled_consumer_fits (dan_key ∷ cup_key ∷ []) 2 writes (omega arith) writes_concern_two
