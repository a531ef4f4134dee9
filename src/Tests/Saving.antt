-- ===== src/Tests/Saving.antt =====
-- A deck that its owner makes private again, saved over the row that showed it, and its broadcast.
use archon_vibe.Prelude.{ℕ, ◌≡◌, ◌≤◌, refl, true, false, none, some, List, [], ◌∷◌, length}
use archon_vibe.Prelude.Dict.{lookup, insert}
use archon_vibe.Json.{Json, Fields, end, field, get}
use archon_vibe.Models.Enums.{value_of, of_value}
use archon_vibe.Models.Users.{User}
use archon_vibe.Models.Roles.{ObjectType, Role}
use archon_vibe.AccessLevels.Dispatch.{compute_public, compute_member, compute_api, compute_full}
use archon_vibe.AccessLevels.Decks.{compute_deck_member, compute_deck_api}
use archon_vibe.Broadcast.Data.{DataLevel, BroadcastData, entitled_level}
use archon_vibe.Broadcast.Fanout.{
  payload_for, document, tombstone, SseConnection, deliver, send, render, scope_matches,
}
use archon_vibe.Broadcast.Queue.{FrameKey, new_queue, frame_key_eq, put_nowait, put_at}
use archon_vibe.Broadcast.Entitlement.{Subject, entitled_level_lem}
use archon_vibe.Broadcast.Delivered.{deliver-kept, deliver-dropped}
use archon_vibe.Db.Save.{
  Row, Objects, Projections, save_object, write, gather, projections, new_row, broadcast_data,
}
use archon_vibe.Broadcast.Personal.{Push, push_to, put_personal, personal_frame, project}
use archon_vibe.Broadcast.Pushed.{frame_of, push_to-reaches}
use archon_vibe.Db.AccessVersion.{access_inputs, base_data_level}
use archon_vibe.Db.Lockstep.{access_inputs-entitled_level}
use archon_vibe.Db.Consistency.{view_after, stored, save_object-view}
use archon_vibe.Tests.Data.{encode, encode-nonempty, sent, bob}

abbrev shown_row : Row
shown_row = record {
  obj_type = ObjectType.deck;
  deleted_at = none;
  public = none;
  member = some "{...}";
  api = some "{...}";
  full = "{...}";
  calendar_token = none;
  agenda_hidden = none;
  agenda_added = none;
  modified_at = "then";
}

abbrev table : Objects
table = ("d1", shown_row) ∷ []

abbrev hidden_deck : Fields
hidden_deck = field "user_uid" (Json.str "bob") (field "public" (Json.bool false) end)

abbrev hidden_projections : Projections
hidden_projections = record { public = none; member = none; api = none; full = hidden_deck }

abbrev hidden_data : BroadcastData
hidden_data =
    broadcast_data encode "now" ObjectType.deck "d1" hidden_deck hidden_projections (some shown_row)

abbrev hidden_row : Row
hidden_row =
    new_row encode "now" ObjectType.deck hidden_deck none hidden_projections (some shown_row)

save_hides :
    save_object encode "now" ObjectType.deck "d1" hidden_deck none table
    ≡ some (hidden_data, ("d1", hidden_row) ∷ [])
unfolding save_object write projections gather value_of of_value compute_public compute_member
    compute_api compute_full compute_deck_member compute_deck_api get lookup insert
save_hides = refl

save_object-view_example :
    view_after (payload_for hidden_data DataLevel.member) (stored DataLevel.member "d1" table)
    ≡ stored DataLevel.member "d1" (("d1", hidden_row) ∷ [])
save_object-view_example =
    save_object-view encode "now" ObjectType.deck "d1" hidden_deck none table hidden_data
      (("d1", hidden_row) ∷ []) DataLevel.member encode-nonempty save_hides

-- The members' copy is evicted by a tombstone.
hidden_is_retracted : payload_for hidden_data DataLevel.member ≡ some tombstone
unfolding payload_for broadcast_data
hidden_is_retracted = refl

abbrev open_connection : ℕ → SseConnection
open_connection n = record {
  queue = new_queue n;
  user = some bob;
  closed = false;
  tournament_uid = none;
  device_id = none;
  needs_participant_refresh = false;
}

abbrev dans_profile : Subject
dans_profile = record {
  obj_type = ObjectType.user;
  uid = "dan";
  country = some "FR";
  org_uids = none;
  obj_user_uid = none;
}

entitled_level_lem_example :
    (entitled_level ObjectType.user "dan" (some "FR") none none none ≡ DataLevel.public)
    × (entitled_level ObjectType.user "dan" (some "FR") none none (some bob) ≡ DataLevel.member)
entitled_level_lem_example = entitled_level_lem bob dans_profile

bob_is_kept : (deliver encode "now" none sent (open_connection 30)).1 ≡ false
unfolding deliver send put_nowait put_at lookup scope_matches payload_for entitled_level
bob_is_kept = refl

deliver-kept_example :
    lookup
      (FrameKey.object ObjectType.user "dan")
      (deliver encode "now" none sent (open_connection 30)).0.queue.items
    ≡ some (render encode "now" sent (document "{m}"))
unfolding payload_for entitled_level scope_matches lookup
deliver-kept_example =
    deliver-kept encode "now" none sent (open_connection 30) (FrameKey.object ObjectType.user "dan")
      bob_is_kept

bob_is_dropped : (deliver encode "now" none sent (open_connection 0)).1 ≡ true
unfolding deliver send put_nowait put_at lookup scope_matches payload_for entitled_level
bob_is_dropped = refl

deliver-dropped_example :
    ((deliver encode "now" none sent (open_connection 0)).0.closed ≡ true)
    × ((deliver encode "now" none sent (open_connection 0)).0.queue ≡ new_queue 0)
    × (lookup (FrameKey.object ObjectType.user "dan") (new_queue 0).items ≡ none)
    × ((new_queue 0).maxsize ≤ length (new_queue 0).items)
deliver-dropped_example = deliver-dropped encode "now" none sent (open_connection 0) bob_is_dropped

abbrev connections : List SseConnection
connections = open_connection 30 ∷ open_connection 0 ∷ []

-- A member who gives up the judge's role keeps the inputs of the fingerprint.
abbrev former_judge : User
former_judge = record bob { roles = Role.judge ∷ [] }

same_inputs : access_inputs (some former_judge) ≡ access_inputs (some bob)
unfolding access_inputs base_data_level value_of
same_inputs = refl

access_inputs-entitled_level_example :
    entitled_level ObjectType.user "dan" (some "FR") none none (some former_judge)
    ≡ entitled_level ObjectType.user "dan" (some "FR") none none (some bob)
access_inputs-entitled_level_example =
    access_inputs-entitled_level former_judge bob dans_profile refl same_inputs

abbrev hidden_push : Push
hidden_push = record {
  user_uid = "bob";
  obj_type = ObjectType.sanction;
  uid = "s1";
  full_dict = hidden_deck;
  country = none;
  org_uids = none;
  obj_user_uid = none;
  modified_at = none;
  access_version = none;
}

abbrev pushed_connection : SseConnection
pushed_connection = record (open_connection 30) {
  queue = record (new_queue 30) {
    items =
        (
          FrameKey.object ObjectType.sanction "s1",
          personal_frame encode "now" hidden_push (some hidden_deck),
        )
        ∷ [];
    event = true;
  };
}

bob_is_pushed :
    push_to encode "now" hidden_push (open_connection 30) ≡ some (pushed_connection, false)
unfolding push_to put_personal put_nowait put_at lookup insert project compute_member entitled_level
    value_of of_value
bob_is_pushed = refl

push_to-reaches_example :
    lookup (FrameKey.object ObjectType.sanction "s1") pushed_connection.queue.items
    ≡ some (frame_of encode "now" hidden_push (some hidden_deck))
push_to-reaches_example =
    push_to-reaches encode "now" hidden_push (open_connection 30) pushed_connection
      (FrameKey.object ObjectType.sanction "s1") bob_is_pushed
