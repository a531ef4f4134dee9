-- ===== src/Broadcast/Fanout.antt =====
-- `broadcast_precomputed`, `broadcast_judge_call` and `broadcast_resync` of
-- backend/src/broadcast.py, over the set of open connections.
use archon_vibe.Prelude.{
  String, Bool, true, false, not, ◌&&◌, ◌||◌, Option, none, some, List, [], ◌∷◌, member as is_in,
  ◌==◌, string_eq, nonempty_text, opt_beq, is_some, if◌then◌else◌, ◌<>◌,
}
use archon_vibe.Json.{Json, Fields, end, field}
use archon_vibe.Models.Enums.{value_of}
use archon_vibe.Models.Roles.{ObjectType, object_type_eq, object_type_values}
use archon_vibe.Models.Users.{User}
use archon_vibe.Broadcast.Queue.{FrameKey, CoalescingQueue, put_nowait}
use archon_vibe.Broadcast.Data.{DataLevel, BroadcastData, level_for, entitled_level}

pub record SseConnection : Type 0 where
  pub queue : CoalescingQueue
  pub user : Option User
  pub closed : Bool
  pub tournament_uid : Option String
  pub device_id : Option String
  pub needs_participant_refresh : Bool

-- `_scope_matches`
unfoldable pub scope_matches : SseConnection → BroadcastData → Bool
scope_matches conn bd =
    if not (is_some conn.tournament_uid)
    then true
    else if bd.obj_type == ObjectType.tournament
    then opt_beq (some bd.uid) conn.tournament_uid
    else if bd.obj_type == ObjectType.sanction
    then opt_beq bd.tournament_uid conn.tournament_uid
    else false

-- What a level is sent: a document, a tombstone for an object that left the level, or nothing.
pub data Payload : Type 0 where
  document : String → Payload
  tombstone : Payload

abbrev pub document_of : Option String → Option Payload
document_of none = none
document_of (some json) = if nonempty_text json then some (document json) else none

-- `msg_by_level`, before it is rendered: a retracted level gets the tombstone.
unfoldable pub payload_for : BroadcastData → DataLevel → Option Payload
payload_for bd DataLevel.public =
    if bd.retracted_public then some tombstone else document_of bd.pub_json
payload_for bd DataLevel.member =
    if bd.retracted_member then some tombstone else document_of bd.mem_json
payload_for bd DataLevel.full = document_of (some bd.full_json)

-- `bd.modified_at or datetime.now(UTC).isoformat()`
abbrev pub stamp : BroadcastData → String → String
stamp bd now = elim bd.modified_at [ none ↦ now | some t ↦ if nonempty_text t then t else now ]

abbrev ts_part : Option String → String
ts_part none = ""
ts_part (some t) = if nonempty_text t then ",\"ts\":\"" <> (t <> "\"") else ""

-- `_make_msg`
unfoldable pub make_msg : BroadcastData → String → String
unfolding value_of
make_msg bd json =
    "data: {\"type\":\""
    <> (value_of object_type_values bd.obj_type
        <> ("\",\"data\":" <> (json <> (ts_part bd.modified_at <> "}\n\n"))))

-- The loop over the connections: each is handled on its own, and those that overflow are dropped
-- from the set.
unfoldable pub fan_out :
    (SseConnection → SseConnection × Bool)
    → List SseConnection
    → List SseConnection × List SseConnection
fan_out step [] = ([], [])
fan_out step (c ∷ cs) =
    let (c', dropped) = step c in
    let (open_conns, dropped_conns) = fan_out step cs in
    (
      if dropped then open_conns else c' ∷ open_conns,
      if dropped then c' ∷ dropped_conns else dropped_conns,
    )

-- A write into a connection's queue that closes the connection where the queue is full.
abbrev pub enqueue : String → Option FrameKey → SseConnection → SseConnection × Bool
enqueue msg key conn =
    let (accepted, q) = put_nowait msg key conn.queue in
    (record conn { queue = q; closed = not accepted || conn.closed }, not accepted)

-- A scoped connection that is sent its tournament refreshes the seated members after it.
abbrev mark_refresh : BroadcastData → SseConnection × Bool → SseConnection × Bool
mark_refresh bd (conn, dropped) = (
  if not dropped && (is_some conn.tournament_uid && bd.obj_type == ObjectType.tournament)
      then record conn { needs_participant_refresh = true }
      else conn,
  dropped,
)

module _ (encode : Fields → String) (now : String) where
  unfoldable pub render : BroadcastData → Payload → String
  unfolding make_msg
  render bd (document json) = make_msg bd json
  render bd tombstone =
      make_msg bd
        (encode (field "uid" (Json.str bd.uid) (field "deleted_at" (Json.str (stamp bd now)) end)))

  unfoldable pub send : BroadcastData → Option Payload → SseConnection → SseConnection × Bool
  unfolding render put_nowait
  send bd none conn = (conn, false)
  send bd (some payload) conn =
      mark_refresh bd (enqueue (render bd payload) (some (FrameKey.object bd.obj_type bd.uid)) conn)

  -- Whether the connection is passed over: it is the initiating device's, or scoped elsewhere.
  abbrev pub passes_over : Option String → BroadcastData → SseConnection → Bool
  passes_over exclude bd conn =
      (is_some exclude && opt_beq conn.device_id exclude) || not (scope_matches conn bd)

  unfoldable pub deliver : Option String → BroadcastData → SseConnection → SseConnection × Bool
  unfolding send payload_for scope_matches entitled_level
  deliver exclude bd conn =
      if passes_over exclude bd conn
      then (conn, false)
      else send bd (payload_for bd (level_for bd conn.user)) conn

  unfoldable pub broadcast_precomputed :
      Option String → BroadcastData → List SseConnection → List SseConnection × List SseConnection
  unfolding fan_out deliver
  broadcast_precomputed exclude bd conns = fan_out (deliver exclude bd) conns

-- `broadcast_judge_call`, with its frame rendered.
judge_call_step : String → String → List String → SseConnection → SseConnection × Bool
unfolding put_nowait
judge_call_step message tournament_uid organizers conn = elim conn.user [
  | none ↦ (conn, false)
  | some viewer ↦
      if is_some conn.tournament_uid && not (opt_beq conn.tournament_uid (some tournament_uid))
      then (conn, false)
      else if is_in viewer.uid organizers
      then enqueue message none conn
      else (conn, false)
]

unfoldable pub broadcast_judge_call :
    String → String → List String → List SseConnection → List SseConnection × List SseConnection
unfolding fan_out judge_call_step
broadcast_judge_call message tournament_uid organizers conns =
    fan_out (judge_call_step message tournament_uid organizers) conns

-- `broadcast_resync`: the connection of a full queue is marked closed and stays in the set.
unfoldable pub broadcast_resync : String → String → List SseConnection → List SseConnection
unfolding put_nowait
broadcast_resync message user_uid [] = []
broadcast_resync message user_uid (conn ∷ conns) =
    let rest = broadcast_resync message user_uid conns in
    elim conn.user [
      | none ↦ conn ∷ rest
      | some viewer ↦
          if viewer.uid == user_uid
          then (enqueue message (some (FrameKey.named "__resync__")) conn).0 ∷ rest
          else conn ∷ rest
    ]
