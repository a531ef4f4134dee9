-- ===== src/Tests/Judges.antt =====
-- A directory that lists one id twice, and members of it.
use archon_vibe.Prelude.{String, ◌≡◌, refl, none, some, List, [], ◌∷◌, member, string_eq}
use archon_vibe.Prelude.Dict.{lookup, insert}
use archon_vibe.Models.Roles.{Role, role_eq}
use archon_vibe.Models.Users.{User}
use archon_vibe.JudgeDirectory.Sync.{
  JudgeEntry, wanted_roles, flat, directory_role, note_entry, sync_member, sync_judges,
  sync_members,
}
use archon_vibe.JudgeDirectory.Listed.{listed_role, wanted_roles-listed}
use archon_vibe.JudgeDirectory.Settled.{should_hold, synced, synced-should_hold, synced-settles}
use archon_vibe.Tests.Data.{bob}

abbrev entry : String → String → String → JudgeEntry
entry vekn rank valid_until = record { vekn = vekn; rank = rank; valid_until = valid_until }

abbrev directory : List JudgeEntry
directory =
    entry "1000001" "Elder" "2027-01-01"
    ∷ entry "1000001" "Neonate" "2027-01-01"
    ∷ entry "1000002" "Elder" "2020-01-01"
    ∷ []

abbrev today : String
today = "2026-07-01"

abbrev old_sheriff : User
old_sheriff = record bob { roles = Role.sheriff ∷ Role.prince ∷ [] }

promoted :
    sync_judges directory today 9 (old_sheriff ∷ [])
    ≡ some (record old_sheriff { roles = Role.prince ∷ Role.judge ∷ []; modified = 9 } ∷ [])
unfolding sync_judges sync_members sync_member wanted_roles note_entry directory_role lookup insert
promoted = refl

wanted_roles-listed_example :
    flat (lookup "1000002" (wanted_roles today directory []))
    ≡ listed_role today "1000002" directory none
wanted_roles-listed_example = wanted_roles-listed today "1000002" directory

synced-should_hold_example :
    member Role.judge (synced (wanted_roles today directory []) 9 old_sheriff).roles
    ≡ should_hold (listed_role today "1000001" directory none) old_sheriff.roles Role.judge
synced-should_hold_example =
    synced-should_hold today "1000001" directory 9 old_sheriff Role.judge refl

synced-settles_example :
    sync_member
      (wanted_roles today directory [])
      10
      (synced (wanted_roles today directory []) 9 old_sheriff)
    ≡ none
synced-settles_example = synced-settles today "1000001" directory 9 10 old_sheriff refl
