-- ===== src/Broadcast/Data.antt =====
-- `BroadcastData` of backend/src/db.py, and the access level of a viewer: `entitled_level` and
-- `deck_org_uids` of backend/src/broadcast.py.
use archon_vibe.Prelude.{
  String, Bool, false, ◌&&◌, Option, none, some, List, [], member as is_in, ◌==◌, string_eq,
  given_text, opt_beq, if◌then◌else◌,
}
use archon_vibe.Models.Roles.{ObjectType, object_type_eq, role_eq, ic, nc}
use archon_vibe.Models.TournamentKinds.{TournamentState, tournament_state_eq}
use archon_vibe.Models.Users.{User}

-- The projection that a viewer gets.
pub data DataLevel : Type 0 where
  public member full : DataLevel

pub record BroadcastData : Type 0 where
  pub obj_type : ObjectType
  pub uid : String
  pub pub_json : Option String
  pub mem_json : Option String
  pub full_json : String
  pub country : Option String
  pub org_uids : Option (List String)
  pub obj_user_uid : Option String
  pub tournament_uid : Option String
  pub modified_at : Option String
  pub retracted_public : Bool
  pub retracted_member : Bool

unfoldable pub deck_org_uids : Bool → Option TournamentState → List String → List String
deck_org_uids private state organizers =
    if private && opt_beq state (some TournamentState.finished) then [] else organizers

abbrev pub listed : String → Option (List String) → Bool
listed uid none = false
listed uid (some uids) = is_in uid uids

-- `viewer.country and country and viewer.country == country`
abbrev pub shares_country : User → Option String → Bool
shares_country viewer country =
    given_text viewer.country && (given_text country && opt_beq viewer.country country)

level_of_user :
    ObjectType → String → Option String → Option (List String) → Option String → User → DataLevel
level_of_user obj_type uid country org_uids obj_user_uid viewer =
    if is_in ic viewer.roles
    then DataLevel.full
    else if obj_type == ObjectType.promo && is_in nc viewer.roles
    then DataLevel.full
    else if is_in nc viewer.roles && shares_country viewer country
    then DataLevel.full
    else if listed viewer.uid org_uids
    then DataLevel.full
    else if given_text viewer.vekn_id
    then (if obj_type == ObjectType.user && uid == viewer.uid
        then DataLevel.full
        else if obj_type == ObjectType.deck && opt_beq obj_user_uid (some viewer.uid)
        then DataLevel.full
        else DataLevel.member)
    else DataLevel.public

-- `entitled_level`; `none` is a viewer who is not logged in.
unfoldable pub entitled_level :
    ObjectType
    → String
    → Option String
    → Option (List String)
    → Option String
    → Option User
    → DataLevel
unfolding level_of_user
entitled_level obj_type uid country org_uids obj_user_uid none = DataLevel.public
entitled_level obj_type uid country org_uids obj_user_uid (some viewer) =
    level_of_user obj_type uid country org_uids obj_user_uid viewer

abbrev pub level_for : BroadcastData → Option User → DataLevel
level_for bd = entitled_level bd.obj_type bd.uid bd.country bd.org_uids bd.obj_user_uid
