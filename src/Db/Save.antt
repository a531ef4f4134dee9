-- ===== src/Db/Save.antt =====
-- `save_object` of backend/src/db.py. The `objects` table is a dict by uid. Encoding to JSON text is
-- msgspec's: a parameter, as is the database's clock, which stamps each row.
use archon_vibe.Prelude.{
  String, Bool, false, ◌&&◌, Option, none, some, List, is_some, is_none, string_eq,
}
use archon_vibe.Prelude.Dict.{Dict, lookup, insert}
use archon_vibe.Json.{Json, Fields, get, texts}
use archon_vibe.Models.Enums.{value_of}
use archon_vibe.Models.Roles.{ObjectType, object_type_eq, object_type_values}
use archon_vibe.AccessLevels.Dispatch.{
  Projection, compute_public, compute_member, compute_api, compute_full,
}
use archon_vibe.Broadcast.Data.{BroadcastData}

pub record Row : Type 0 where
  pub obj_type : ObjectType
  pub deleted_at : Option String
  pub public : Option String
  pub member : Option String
  pub api : Option String
  pub full : String
  pub calendar_token : Option Json
  pub agenda_hidden : Option Json
  pub agenda_added : Option Json
  pub modified_at : String

abbrev pub Objects : Type 0
Objects = Dict String Row

-- `full_data.get(k)` of an optional text, and of an optional list of texts.
abbrev pub text_at : String → Fields → Option String
text_at k d = elim (get k d) [ some (Json.str s) ↦ some s | _ ↦ none ]

abbrev pub text_list_at : String → Fields → Option (List String)
text_list_at k d = elim (get k d) [ some (Json.arr vs) ↦ some (texts vs) | _ ↦ none ]

-- An owner-only column: taken from a member's data alone, `null` as absent.
abbrev pub owner_column : ObjectType → String → Fields → Option Json
owner_column ObjectType.user k d = elim (get k d) [
  | none ↦ none
  | some Json.null ↦ none
  | some v ↦ some v
]
owner_column _ k d = none

-- `COALESCE(EXCLUDED.c, objects.c)`
abbrev pub coalesce {ℓ} : {A : Type ℓ} → Option A → Option A → Option A
coalesce none old = old
coalesce (some v) old = some v

-- The four projections of one write; `none` where one of them raises.
pub record Projections : Type 0 where
  pub public : Option Fields
  pub member : Option Fields
  pub api : Option Fields
  pub full : Fields

unfoldable pub gather : Projection → Projection → Projection → Option Fields → Option Projections
gather (some p) (some m) (some a) (some f) =
    some (record { public = p; member = m; api = a; full = f })
gather _ _ _ _ = none

abbrev pub type_text : ObjectType → String
type_text t = value_of object_type_values t

unfoldable pub projections : ObjectType → Fields → Option Projections
unfolding gather value_of compute_public compute_member compute_api compute_full
projections t d =
    gather (compute_public (type_text t) d) (compute_member (type_text t) d)
      (compute_api (type_text t) d) (compute_full (type_text t) d)

abbrev pub encoded : (Fields → String) → Option Fields → Option String
encoded encode none = none
encoded encode (some d) = some (encode d)

abbrev pub had : (Row → Option String) → Option Row → Bool
had c none = false
had c (some r) = is_some (c r)

module _ (encode : Fields → String) (now : String) where
  -- The columns of the row that is there, if any, which an absent value keeps.
  abbrev old_column : (Row → Option Json) → Option Row → Option Json
  old_column c none = none
  old_column c (some r) = c r

  unfoldable pub new_row : ObjectType → Fields → Option String → Projections → Option Row → Row
  unfolding get
  new_row t d deleted_at ps old = record {
    obj_type = t;
    deleted_at = deleted_at;
    public = encoded encode ps.public;
    member = encoded encode ps.member;
    api = encoded encode ps.api;
    full = encode ps.full;
    calendar_token =
        coalesce (owner_column t "calendar_token" d) (old_column (λ r. r.calendar_token) old);
    agenda_hidden =
        coalesce (owner_column t "agenda_hidden" d) (old_column (λ r. r.agenda_hidden) old);
    agenda_added =
        coalesce (owner_column t "agenda_added" d) (old_column (λ r. r.agenda_added) old);
    modified_at = now;
  }

  unfoldable pub broadcast_data :
      ObjectType → String → Fields → Projections → Option Row → BroadcastData
  unfolding get texts
  broadcast_data t uid d ps old = record {
    obj_type = t;
    uid = uid;
    pub_json = encoded encode ps.public;
    mem_json = encoded encode ps.member;
    full_json = encode ps.full;
    country = text_at "country" d;
    org_uids = text_list_at "organizers_uids" d;
    obj_user_uid = text_at "user_uid" d;
    tournament_uid = text_at "tournament_uid" d;
    modified_at = some now;
    retracted_public = had (λ r. r.public) old && is_none (encoded encode ps.public);
    retracted_member = had (λ r. r.member) old && is_none (encoded encode ps.member);
  }

  -- The write, once the projections are there.
  unfoldable pub write :
      ObjectType
      → String
      → Fields
      → Option String
      → Objects
      → Option Projections
      → Option (BroadcastData × Objects)
  unfolding new_row broadcast_data lookup insert
  write t uid d deleted_at table none = none
  write t uid d deleted_at table (some ps) =
      let old = lookup uid table in
      some (broadcast_data t uid d ps old, insert uid (new_row t d deleted_at ps old) table)

  -- `save_object`; `none` where a projection raises, and nothing is written.
  unfoldable pub save_object :
      ObjectType → String → Fields → Option String → Objects → Option (BroadcastData × Objects)
  unfolding write projections
  save_object t uid d deleted_at table = write t uid d deleted_at table (projections t d)
