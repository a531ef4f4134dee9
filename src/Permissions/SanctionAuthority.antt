-- ===== src/Permissions/SanctionAuthority.antt =====
-- Who issues, lifts and deletes a sanction: `can_issue_sanction`, `can_lift_sanction` and
-- `can_delete_sanction` of backend/src/permissions.py, through the engine's resolvers.
use archon_vibe.Prelude.{
  String, ◌≡◌, refl, ap, ◌∙◌, Bool, true, false, not, ◌&&◌, ◌||◌, Option, none, some, List, [],
  arith, member, ◌==◌, string_eq, if◌then◌else◌,
}
use archon_vibe.Models.Roles.{role_eq, ic, nc, ethics, rulemonger}
use archon_vibe.Models.SanctionKinds.{SanctionLevel, caution, suspension, probation}
use archon_vibe.Models.TournamentKinds.{
  TournamentState, planned, tournament_state_eq, tournament_state_values,
}
use archon_vibe.Models.Enums.{value_of}
use archon_vibe.Models.Users.{User}
use archon_vibe.Models.Tournaments.{Tournament, Sanction}
use archon_vibe.Permissions.Engine
use archon_vibe.Permissions.Engine.{same_known_country, UserContext, OwnedResource, has_role}
use archon_vibe.Permissions.Engine.Sanctions as EngineSanctions
use archon_vibe.Permissions.Engine.Sanctions.{SanctionContext}
use archon_vibe.Permissions.Checks.{
  level_text, state_text, organizers_only, lift_context, delete_context, can_issue_sanction,
  can_lift_sanction, can_delete_sanction,
}
use archon_vibe.Permissions.Authority.{holds, context_of, user_to_context_lem}

-- Suspensions and probations are the membership levels; the others hang off a tournament.
abbrev pub is_restricted : SanctionLevel → Bool
is_restricted suspension = true
is_restricted probation = true
is_restricted _ = false

finished_value :
    (st : TournamentState)
    → (value_of tournament_state_values st == "Finished") ≡ (st == TournamentState.finished)
unfolding value_of
finished_value planned = refl
finished_value _ = refl

abbrev pub organizes : User → Option Tournament → Bool
organizes u none = false
organizes u (some t) = member u.uid t.organizers_uids

organizes_lem :
    (u : User) (t : Option Tournament)
    → member u.uid (organizers_only t).organizers_uids ≡ organizes u t
organizes_lem u none = refl
organizes_lem u (some t) = refl

issue_at :
    (a : UserContext) (uid : String) (level : SanctionLevel) (r : OwnedResource)
    → (EngineSanctions.can_issue_sanction a uid (level_text level) r).allowed ≡ (
        has_role a ic
        || (has_role a ethics || (not (is_restricted level) && member uid r.organizers_uids)))
unfolding EngineSanctions.can_issue_sanction Engine.check level_text
issue_at a uid caution r = ground arith
issue_at a uid _ r = ground arith

-- The Inner Circle and Ethics issue every level; an organizer issues the tournament levels in a
-- tournament that lists them, and never a restricted one.
pub can_issue_sanction_lem :
    (u : User) (level : SanctionLevel) (t : Option Tournament)
    → can_issue_sanction u level t
      ≡ (holds u ic || (holds u ethics || (not (is_restricted level) && organizes u t)))
unfolding can_issue_sanction
can_issue_sanction_lem u level t =
    (λ i.
      (EngineSanctions.can_issue_sanction (user_to_context_lem u i) u.uid (level_text level)
        (organizers_only t)).allowed)
    ∙ issue_at (context_of u) u.uid level (organizers_only t)
    ∙ ap (λ o. holds u ic || (holds u ethics || (not (is_restricted level) && o)))
        (organizes_lem u t)

abbrev host_country : Option Tournament → Option String
host_country none = none
host_country (some t) = t.country

lift_at :
    (a : UserContext) (uid : String) (level : SanctionLevel) (country : Option String)
    → (EngineSanctions.can_lift_sanction a uid (record {
      level = level_text level;
      tournament_country = country;
      tournament_state = "";
      tournament_organizers_uids = [];
    })).allowed
      ≡ (if is_restricted level
          then has_role a ic || has_role a ethics
          else has_role a ic
            || (has_role a rulemonger || (has_role a nc && same_known_country a.country country)))
unfolding EngineSanctions.can_lift_sanction Engine.check level_text
lift_at a uid caution country = ground arith
lift_at a uid _ country = ground arith

-- A restricted sanction is lifted by the Inner Circle or Ethics; any other by the Inner Circle, a
-- rulemonger, or a coordinator of the tournament's country.
pub can_lift_sanction_lem :
    (u : User) (s : Sanction) (t : Option Tournament)
    → can_lift_sanction u s t ≡ (
        if is_restricted s.level
        then holds u ic || holds u ethics
        else holds u ic
          || (holds u rulemonger || (holds u nc && same_known_country u.country (host_country t))))
unfolding can_lift_sanction
can_lift_sanction_lem u s none =
    (λ i.
      (EngineSanctions.can_lift_sanction (user_to_context_lem u i) u.uid
        (lift_context s none)).allowed)
    ∙ lift_at (context_of u) u.uid s.level none
can_lift_sanction_lem u s (some t) =
    (λ i.
      (EngineSanctions.can_lift_sanction (user_to_context_lem u i) u.uid
        (lift_context s (some t))).allowed)
    ∙ lift_at (context_of u) u.uid s.level t.country

delete_at :
    (a : UserContext) (uid : String) (level : SanctionLevel) (state : String) (orgs : List String)
    → (EngineSanctions.can_delete_sanction a uid (record {
      level = level_text level;
      tournament_country = none;
      tournament_state = state;
      tournament_organizers_uids = orgs;
    })).allowed
      ≡ (has_role a ic
          || (has_role a ethics
              || (not (is_restricted level) && (not (state == "Finished") && member uid orgs))))
unfolding EngineSanctions.can_delete_sanction Engine.check level_text
delete_at a uid caution state orgs = ground arith
delete_at a uid _ state orgs = ground arith

-- Whether the sanction hangs off a tournament that is over.
abbrev pub is_over : Option Tournament → Bool
is_over none = false
is_over (some t) = t.state == TournamentState.finished

state_text_finished : (t : Option Tournament) → (state_text t == "Finished") ≡ is_over t
unfolding state_text
state_text_finished none = refl
state_text_finished (some t) = finished_value t.state

-- The Inner Circle and Ethics delete any sanction; an organizer deletes only what an organizer could
-- have issued, and only while the tournament is not over.
pub can_delete_sanction_lem :
    (u : User) (s : Sanction) (t : Option Tournament)
    → can_delete_sanction u s t ≡ (
        holds u ic
        || (holds u ethics || (not (is_restricted s.level) && (not (is_over t) && organizes u t))))
unfolding can_delete_sanction
can_delete_sanction_lem u s t =
    (λ i.
      (EngineSanctions.can_delete_sanction (user_to_context_lem u i) u.uid
        (delete_context s t)).allowed)
    ∙ delete_at (context_of u) u.uid s.level (state_text t) (organizers_only t).organizers_uids
    ∙ (λ i.
        holds u ic
        || (holds u ethics
            || (not (is_restricted s.level)
                && (not (state_text_finished t i) && organizes_lem u t i))))
