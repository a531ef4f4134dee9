-- ===== src/Broadcast/Personal.antt =====
-- `broadcast_personal` of backend/src/broadcast.py: one object to one user, at the projection that
-- the user is now entitled to.
use archon_vibe.Prelude.{
  String, Bool, false, not, ◌&&◌, Option, none, some, List, [], ◌∷◌, ◌==◌, string_eq, is_some,
  given_text, if◌then◌else◌, ◌<>◌,
}
use archon_vibe.Json.{Json, Fields, end, field}
use archon_vibe.Models.Enums.{value_of}
use archon_vibe.Models.Roles.{ObjectType, object_type_eq, object_type_values}
use archon_vibe.AccessLevels.Dispatch.{Projection, compute_public, compute_member, compute_full}
use archon_vibe.Broadcast.Queue.{FrameKey, put_nowait}
use archon_vibe.Broadcast.Data.{DataLevel, entitled_level}
use archon_vibe.Broadcast.Fanout.{SseConnection, enqueue}

-- The arguments of a push.
pub record Push : Type 0 where
  pub user_uid : String
  pub obj_type : ObjectType
  pub uid : String
  pub full_dict : Fields
  pub country : Option String
  pub org_uids : Option (List String)
  pub obj_user_uid : Option String
  pub modified_at : Option String
  pub access_version : Option String

abbrev whole : Option Fields → Projection
whole none = none
whole (some d) = some (some d)

-- `_LEVEL_PROJECTORS`, with the full level
unfoldable pub project : DataLevel → ObjectType → Fields → Projection
unfolding compute_public compute_member compute_full value_of
project DataLevel.public t d = compute_public (value_of object_type_values t) d
project DataLevel.member t d = compute_member (value_of object_type_values t) d
project DataLevel.full t d = whole (compute_full (value_of object_type_values t) d)

-- The connections of the user's browsers.
abbrev pub is_addressed : Push → SseConnection → Bool
is_addressed push conn =
    not (is_some conn.tournament_uid)
    && elim conn.user [ none ↦ false | some viewer ↦ viewer.uid == push.user_uid ]

abbrev pub push_level : Push → SseConnection → DataLevel
push_level push conn =
    entitled_level push.obj_type push.uid push.country push.org_uids push.obj_user_uid conn.user

abbrev pub key_of_push : Push → FrameKey
key_of_push push = FrameKey.object push.obj_type push.uid

abbrev part : String → Option String → String
part name none = ""
part name (some v) = if given_text (some v) then ",\"" <> name <> "\":\"" <> v <> "\"" else ""

module _ (encode : Fields → String) (now : String) where
  abbrev stamp_of : Push → String
  stamp_of push = elim push.modified_at [
    | none ↦ now
    | some s ↦ if given_text (some s) then s else now
  ]

  -- The document of a frame: the projection, or a tombstone where there is none.
  unfoldable pub document_for : Push → Option Fields → String
  document_for push none =
      encode (field "uid" (Json.str push.uid) (field "deleted_at" (Json.str (stamp_of push)) end))
  document_for push (some d) = encode d

  unfoldable pub personal_frame : Push → Option Fields → String
  unfolding document_for value_of
  personal_frame push proj =
      "data: {\"type\":\""
      <> value_of object_type_values push.obj_type
      <> "\",\"data\":"
      <> document_for push proj
      <> part "ts" push.modified_at
      <> part "av" push.access_version
      <> "}\n\n"

  -- One round of the loop; `none` where the projection raises.
  unfoldable pub put_personal : Push → Projection → SseConnection → Option (SseConnection × Bool)
  unfolding personal_frame put_nowait
  put_personal push none conn = none
  put_personal push (some proj) conn =
      some (enqueue (personal_frame push proj) (some (key_of_push push)) conn)

  unfoldable pub push_to : Push → SseConnection → Option (SseConnection × Bool)
  unfolding put_personal project entitled_level
  push_to push conn =
      if is_addressed push conn
      then put_personal push (project (push_level push conn) push.obj_type push.full_dict) conn
      else some (conn, false)

  unfoldable pub collect :
      Option (SseConnection × Bool)
      → Option (List SseConnection × List SseConnection)
      → Option (List SseConnection × List SseConnection)
  collect none rest = none
  collect (some step) none = none
  collect (some (conn, dropped)) (some (kept, gone)) =
      some (if dropped then (kept, conn ∷ gone) else (conn ∷ kept, gone))

  -- The connections that stay and those that are dropped; `none` where a projection raises.
  unfoldable pub broadcast_personal :
      Push → List SseConnection → Option (List SseConnection × List SseConnection)
  unfolding push_to collect
  broadcast_personal push [] = some ([], [])
  broadcast_personal push (c ∷ cs) = collect (push_to push c) (broadcast_personal push cs)
