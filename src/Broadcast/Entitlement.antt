-- ===== src/Broadcast/Entitlement.antt =====
-- Who is entitled to which projection, read off `entitled_level` of backend/src/broadcast.py.
use archon_vibe.Prelude.{
  String, ◌≡◌, Bool, ◌&&◌, ◌||◌, Option, none, some, List, arith, member, ◌==◌, string_eq,
  given_text, false, opt_beq, if◌then◌else◌,
}
use archon_vibe.Models.Roles.{ObjectType, object_type_eq, role_eq, ic, nc}
use archon_vibe.Models.Users.{User}
use archon_vibe.Broadcast.Data.{DataLevel, entitled_level}

-- An object as the access rule sees it.
pub record Subject : Type 0 where
  pub obj_type : ObjectType
  pub uid : String
  pub country : Option String
  pub org_uids : Option (List String)
  pub obj_user_uid : Option String

-- The owner of a profile or of a deck.
abbrev pub owns : User → Subject → Bool
owns viewer o =
    (o.obj_type == ObjectType.user && o.uid == viewer.uid)
    || (o.obj_type == ObjectType.deck && opt_beq o.obj_user_uid (some viewer.uid))

-- The reasons to see an object whole.
abbrev pub sees_all : User → Subject → Bool
sees_all viewer o =
    member ic viewer.roles
    || ((member nc viewer.roles
          && (o.obj_type == ObjectType.promo
              || (given_text viewer.country
                  && (given_text o.country && opt_beq viewer.country o.country))))
        || (elim o.org_uids [ none ↦ false | some uids ↦ member viewer.uid uids ]
            || (given_text viewer.vekn_id && owns viewer o)))

-- A viewer sees an object whole as a member of the Inner Circle, as a national coordinator if it is a
-- promo or of the coordinator's country, as one of those it lists, or as a member whose profile or
-- deck it is, and for no other reason; else a member sees the member projection, and everyone else,
-- a visitor included, the public one.
pub entitled_level_lem :
    (viewer : User) (o : Subject)
    → (entitled_level o.obj_type o.uid o.country o.org_uids o.obj_user_uid none ≡ DataLevel.public)
      × (entitled_level o.obj_type o.uid o.country o.org_uids o.obj_user_uid (some viewer) ≡ (
          if sees_all viewer o
          then DataLevel.full
          else if given_text viewer.vekn_id
          then DataLevel.member
          else DataLevel.public))
unfolding entitled_level
entitled_level_lem viewer o = ground arith
