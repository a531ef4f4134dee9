-- ===== src/Broadcast/PersonalView.antt =====
-- What the addressed user of a personal push may see of its object.
use archon_vibe.Prelude.{
  ◌≡◌, refl, ap, ◌∙◌, Bool, true, false, some, ◌==◌, string_eq, given_text, if◌then◌else◌,
}
use archon_vibe.Json.{Fields}
use archon_vibe.Models.Enums.{of_value, value_of}
use archon_vibe.Models.Roles.{ObjectType, object_type_eq}
use archon_vibe.Models.Users.{User}
use archon_vibe.AccessLevels.Users.{compute_user_full}
use archon_vibe.AccessLevels.Dispatch.{
  Projection, public_dispatch, member_dispatch, compute_public, compute_member, compute_full,
}
use archon_vibe.Broadcast.Data.{DataLevel, entitled_level}
use archon_vibe.Broadcast.Entitlement.{Subject, sees_all, entitled_level_lem}
use archon_vibe.Broadcast.Queue.{frame_key_eq}
use archon_vibe.Broadcast.Personal.{Push, project}

-- The object of a push, as the access rule sees it.
abbrev pub subject_of : Push → Subject
subject_of push = record {
  obj_type = push.obj_type;
  uid = push.uid;
  country = push.country;
  org_uids = push.org_uids;
  obj_user_uid = push.obj_user_uid;
}

-- What a user may see of the object: whole, but for the fields that are a profile owner's alone, for
-- one of the reasons to see it all; else, a member, the member projection; else the public one.
abbrev pub view_of : User → Push → Projection
view_of viewer push =
    if sees_all viewer (subject_of push)
    then some (
        some (
          if push.obj_type == ObjectType.user
          then compute_user_full push.full_dict
          else push.full_dict))
    else if given_text viewer.vekn_id
    then member_dispatch push.obj_type push.full_dict
    else public_dispatch push.obj_type push.full_dict

project_lem :
    (level : DataLevel) (t : ObjectType) (d : Fields)
    → project level t d ≡ elim level [
      | DataLevel.public ↦ public_dispatch t d
      | DataLevel.member ↦ member_dispatch t d
      | DataLevel.full ↦ some (some (if t == ObjectType.user then compute_user_full d else d))
    ]
unfolding project compute_public compute_member compute_full of_value value_of
project_lem DataLevel.public ObjectType.user d = refl
project_lem DataLevel.public ObjectType.tournament d = refl
project_lem DataLevel.public ObjectType.sanction d = refl
project_lem DataLevel.public ObjectType.deck d = refl
project_lem DataLevel.public ObjectType.league d = refl
project_lem DataLevel.public ObjectType.promo d = refl
project_lem DataLevel.member ObjectType.user d = refl
project_lem DataLevel.member ObjectType.tournament d = refl
project_lem DataLevel.member ObjectType.sanction d = refl
project_lem DataLevel.member ObjectType.deck d = refl
project_lem DataLevel.member ObjectType.league d = refl
project_lem DataLevel.member ObjectType.promo d = refl
project_lem DataLevel.full ObjectType.user d = refl
project_lem DataLevel.full ObjectType.tournament d = refl
project_lem DataLevel.full ObjectType.sanction d = refl
project_lem DataLevel.full ObjectType.deck d = refl
project_lem DataLevel.full ObjectType.league d = refl
project_lem DataLevel.full ObjectType.promo d = refl

at_level :
    (a b : Bool) (x y z : Projection)
    → elim (if a then DataLevel.full else if b then DataLevel.member else DataLevel.public) [
      | DataLevel.public ↦ x
      | DataLevel.member ↦ y
      | DataLevel.full ↦ z
    ]
      ≡ (if a then z else if b then y else x)
at_level true b x y z = refl
at_level false true x y z = refl
at_level false false x y z = refl

pub view_of-project :
    (viewer : User) (push : Push)
    → project
        (entitled_level push.obj_type push.uid push.country push.org_uids push.obj_user_uid
          (some viewer))
        push.obj_type
        push.full_dict
      ≡ view_of viewer push
view_of-project viewer push =
    ap (λ level. project level push.obj_type push.full_dict)
      (entitled_level_lem viewer (subject_of push)).1
    ∙ project_lem _ push.obj_type push.full_dict
    ∙ at_level (sees_all viewer (subject_of push)) (given_text viewer.vekn_id) _ _ _
