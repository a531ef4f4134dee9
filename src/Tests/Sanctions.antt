-- ===== src/Tests/Sanctions.antt =====
-- A disqualification that the organizer takes back during the round.
use archon_vibe.Prelude.{if◌then◌else◌, String, ◌≡◌, refl, true, Option, some, [], ◌∷◌, string_eq}
use archon_vibe.Prelude.Dict.{Dict, lookup, insert, IsDistinct}
use archon_vibe.Prelude.Outcome.{returned}
use archon_vibe.Models.SanctionKinds.{sanction_level_eq}
use archon_vibe.Models.TournamentKinds.{PlayerState}
use archon_vibe.Models.Tournaments.{Tournament, Sanction}
use archon_vibe.Permissions.Checks.{can_delete_sanction}
use archon_vibe.Permissions.SanctionAuthority.{can_delete_sanction_lem}
use archon_vibe.Sanctions.Disqualification.{
  dq_restore_state, has_active_dq, sanctions_for_tournament,
}
use archon_vibe.Sanctions.Delete.{Deleted, deleted_row, delete_sanction}
use archon_vibe.Sanctions.Restored.{another_counts, state_of_play, delete_sanction-restores}
use archon_vibe.Tests.Data.{alice, cup, bans}

abbrev tournaments : String → Option Tournament
tournaments uid = some cup

abbrev rows : Dict String Sanction
rows = ("s1", bans) ∷ []

abbrev after : Deleted
after = record { rows = ("s1", deleted_row 7 bans) ∷ []; player_state = some PlayerState.playing }

alice_may_delete : can_delete_sanction alice bans (some cup) ≡ true
alice_may_delete = can_delete_sanction_lem alice bans (some cup)

alice_deletes : delete_sanction tournaments (some alice) "s1" rows 7 ≡ returned after
unfolding delete_sanction lookup insert dq_restore_state has_active_dq sanctions_for_tournament
alice_deletes = rw alice_may_delete refl

rows-IsDistinct : IsDistinct rows
unfolding IsDistinct lookup
rows-IsDistinct = (refl, tt)

bans_is_found : lookup "s1" rows ≡ some bans
unfolding lookup
bans_is_found = refl

delete_sanction-restores_example :
    after.player_state
    ≡ some (
        if another_counts "s1" "cup" "bob" rows
        then PlayerState.disqualified
        else state_of_play "bob" (some cup))
delete_sanction-restores_example =
    delete_sanction-restores tournaments alice "s1" "cup" bans rows 7 after rows-IsDistinct
      bans_is_found refl refl refl refl alice_deletes
