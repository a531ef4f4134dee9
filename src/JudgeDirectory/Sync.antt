-- ===== src/JudgeDirectory/Sync.antt =====
-- `sync_judges` of backend/src/judge_directory.py. The directory's entries and the candidates are read
-- elsewhere and are arguments.
use archon_vibe.Prelude.{
  String, Bool, not, ◌&&◌, Option, none, some, List, [], ◌∷◌, ◌++◌, string_eq, opt_beq, any,
  text_ltb, member, filter, if◌then◌else◌,
}
use archon_vibe.Prelude.Dict.{Dict, lookup, insert}
use archon_vibe.Models.Roles.{Role, role_eq}
use archon_vibe.Models.Users.{User, Instant}

pub record JudgeEntry : Type 0 where
  pub vekn : String
  pub rank : String
  pub valid_until : String

abbrev pub rank_roles : Dict String Role
rank_roles = ("Elder", Role.judge) ∷ ("Ancilla", Role.sheriff) ∷ ("Neonate", Role.sheriff) ∷ []

abbrev pub directory_roles : List Role
directory_roles = Role.judge ∷ Role.sheriff ∷ []

unfoldable pub directory_role : JudgeEntry → String → Option Role
directory_role entry today =
    if text_ltb entry.valid_until today then none else lookup entry.rank rank_roles

-- `a or b` on optional roles
abbrev pub role_or : Option Role → Option Role → Option Role
role_or none b = b
role_or (some r) b = some r

-- `d.get(k)` on a dict that holds `None` too
abbrev pub flat : Option (Option Role) → Option Role
flat none = none
flat (some r) = r

unfoldable pub note_entry :
    String → JudgeEntry → Dict String (Option Role) → Dict String (Option Role)
note_entry today entry wanted =
    if not (opt_beq (flat (lookup entry.vekn wanted)) (some Role.judge))
    then insert entry.vekn (role_or (directory_role entry today) (flat (lookup entry.vekn wanted)))
        wanted
    else wanted

unfoldable pub wanted_roles :
    String → List JudgeEntry → Dict String (Option Role) → Dict String (Option Role)
wanted_roles today [] wanted = wanted
wanted_roles today (e ∷ es) wanted = wanted_roles today es (note_entry today e wanted)

abbrev pub text_or_empty : Option String → String
text_or_empty none = ""
text_or_empty (some s) = s

abbrev pub role_for : Dict String (Option Role) → User → Option Role
role_for wanted user = flat (lookup (text_or_empty user.vekn_id) wanted)

abbrev with_role : List Role → Option Role → List Role
with_role kept none = kept
with_role kept (some r) = kept ++ r ∷ []

-- The roles a member ends up with.
abbrev pub synced_roles : Option Role → List Role → List Role
synced_roles role roles = with_role (filter (λ r. not (member r directory_roles)) roles) role

-- `set(xs) == set(ys)`
abbrev pub same_roles : List Role → List Role → Bool
same_roles xs ys = not (any (λ r. not (member r ys)) xs) && not (any (λ r. not (member r xs)) ys)

-- The member that is saved, if the roles change.
unfoldable pub sync_member : Dict String (Option Role) → Instant → User → Option User
sync_member wanted now user =
    if same_roles (synced_roles (role_for wanted user) user.roles) user.roles
    then none
    else some
        (record user { roles = synced_roles (role_for wanted user) user.roles; modified = now })

abbrev cons_change : Option User → List User → List User
cons_change none us = us
cons_change (some u) us = u ∷ us

unfoldable pub sync_members : Dict String (Option Role) → Instant → List User → List User
sync_members wanted now [] = []
sync_members wanted now (u ∷ us) =
    cons_change (sync_member wanted now u) (sync_members wanted now us)

-- The members saved; `none` for the `ValueError` on an empty directory.
unfoldable pub sync_judges : List JudgeEntry → String → Instant → List User → Option (List User)
sync_judges [] today now candidates = none
sync_judges (e ∷ es) today now candidates =
    some (sync_members (wanted_roles today (e ∷ es) []) now candidates)
