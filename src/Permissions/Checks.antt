-- ===== src/Permissions/Checks.antt =====
-- backend/src/permissions.py with `user_to_context` of backend/src/utils.py: what it hands to the
-- engine, and the verdict that comes back. The JSON between the two is their common record.
use archon_vibe.Prelude.{
  String, Bool, false, Option, none, some, List, [], ◌∷◌, map, string_eq, any, member,
}
use archon_vibe.Models.Enums.{of_value, value_of}
use archon_vibe.Models.Roles.{Role, role_eq, role_values}
use archon_vibe.Models.SanctionKinds.{SanctionLevel, sanction_level_eq, sanction_level_values}
use archon_vibe.Models.TournamentKinds.{tournament_state_eq, tournament_state_values}
use archon_vibe.Models.Users.{User, League}
use archon_vibe.Models.Tournaments.{Tournament, Sanction}
use archon_vibe.Permissions.Capability.{
  Capability, sponsor_member, edit_member_profile, manage_nda, manage_vekn, merge_accounts,
  mark_deceased, delete_member, anonymize_member, moderate_link, promote_link_national,
  promote_link_global, create_tournament, organize_tournament, force_unlock_tournament,
  manage_leagues, edit_league, modify_sanction, manage_promos, record_promo_intake,
  view_full_promo_ledger, manage_oauth_clients, run_admin_sync,
}
use archon_vibe.Permissions.Engine
use archon_vibe.Permissions.Engine.{UserContext, OwnedResource, ContactContext}
use archon_vibe.Permissions.Engine.Sanctions as EngineSanctions
use archon_vibe.Permissions.Engine.Sanctions.{SanctionContext}

-- `UserContext::from_json` on the texts of the roles: an unknown text is dropped.
unfoldable pub parse_roles : List String → List Role
parse_roles [] = []
parse_roles (s ∷ rest) = elim (of_value role_values s) [
  | none ↦ parse_roles rest
  | some r ↦ r ∷ parse_roles rest
]

-- `user_to_context`, as the engine reads it; `has_nda` is added by `can_change_role` alone.
unfoldable pub user_to_context : User → UserContext
unfolding parse_roles of_value value_of
user_to_context u = record {
  roles = parse_roles (map (value_of role_values) u.roles);
  country = u.country;
  vekn_id = u.vekn_id;
  has_nda = false;
}

-- The fields of a tournament or a league that an ownership check reads.
abbrev pub of_tournament : Tournament → OwnedResource
of_tournament t = record {
  country = t.country;
  organizers_uids = t.organizers_uids;
  open_to_country_princes = false;
}

abbrev pub of_league : League → OwnedResource
of_league l = record {
  country = l.country;
  organizers_uids = l.organizers_uids;
  open_to_country_princes = false;
}

abbrev target_uid_of : Option User → Option String
target_uid_of none = none
target_uid_of (some u) = some u.uid

-- The country asked about: the target's, else the one given, else the resource's.
abbrev target_country_of : Option User → Option String → Option OwnedResource → Option String
target_country_of (some u) country resource = u.country
target_country_of none (some c) resource = some c
target_country_of none none (some r) = r.country
target_country_of none none none = none

-- `_check`
unfoldable pub check : Capability → User → Option User → Option String → Option OwnedResource → Bool
check capability actor target target_country resource = Engine.allows capability (record {
  actor = user_to_context actor;
  actor_uid = actor.uid;
  target_uid = target_uid_of target;
  target_country = target_country_of target target_country resource;
  resource = resource;
})

abbrev pub is_official : User → Bool
is_official u = Engine.is_official (user_to_context u)

-- `publishes_contact`, on the texts of the roles.
unfoldable pub publishes_contact : List String → Bool
unfolding parse_roles of_value
publishes_contact texts = any (λ r. member r (parse_roles texts)) Engine.contact_publishing_roles

abbrev contact_context : User → ContactContext
contact_context u = record {
  context = user_to_context u;
  contact_email = u.contact_email;
  contact_phone = u.contact_phone;
  discord_id = u.discord_id;
}

unfoldable pub breaks_contact_floor : User → User → Bool
breaks_contact_floor before after =
    Engine.breaks_contact_floor (contact_context before) (contact_context after)

abbrev pub can_sponsor_member : User → Bool
can_sponsor_member user = check sponsor_member user none none none

abbrev pub can_edit_user : User → User → Bool
can_edit_user actor target = check edit_member_profile actor (some target) none none

abbrev pub can_change_role : User → User → Role → Bool → Bool
can_change_role actor target role target_has_nda =
    (Engine.can_change_role (user_to_context actor)
      (record (user_to_context target) { has_nda = target_has_nda }) role).allowed

abbrev pub can_manage_nda : User → Bool
can_manage_nda actor = check manage_nda actor none none none

abbrev pub can_change_country : User → User → Bool
can_change_country actor target =
    (Engine.can_change_country (user_to_context actor) (user_to_context target)).allowed

abbrev pub can_manage_vekn : User → User → Bool
can_manage_vekn actor target = check manage_vekn actor (some target) none none

abbrev pub can_merge_accounts : User → Bool
can_merge_accounts actor = check merge_accounts actor none none none

abbrev pub can_mark_deceased : User → Option String → Bool
can_mark_deceased actor country = check mark_deceased actor none country none

abbrev pub can_delete_member : User → Bool
can_delete_member actor = check delete_member actor none none none

abbrev pub can_anonymize_member : User → Bool
can_anonymize_member actor = check anonymize_member actor none none none

abbrev pub can_moderate_link : User → Option String → Bool
can_moderate_link actor country = check moderate_link actor none country none

abbrev pub can_promote_link_national : User → Option String → Bool
can_promote_link_national actor country = check promote_link_national actor none country none

abbrev pub can_promote_link_global : User → Bool
can_promote_link_global actor = check promote_link_global actor none none none

abbrev pub can_create_tournament : User → Bool
can_create_tournament user = check create_tournament user none none none

abbrev pub is_organizer : User → Tournament → Bool
is_organizer user t = check organize_tournament user none none (some (of_tournament t))

abbrev pub can_take_tournament_offline : User → Tournament → Bool
can_take_tournament_offline user t =
    (Engine.can_take_tournament_offline (user_to_context user) user.uid (of_tournament t)).allowed

abbrev pub can_force_unlock_tournament : User → Bool
can_force_unlock_tournament user = check force_unlock_tournament user none none none

abbrev pub can_manage_leagues : User → Bool
can_manage_leagues user = check manage_leagues user none none none

abbrev pub can_edit_league : User → League → Bool
can_edit_league user l = check edit_league user none none (some (of_league l))

abbrev pub can_link_tournament_to_league : User → League → Bool
can_link_tournament_to_league user l =
    (Engine.can_link_tournament_to_league (user_to_context user) user.uid (record {
      country = l.country;
      organizers_uids = l.organizers_uids;
      open_to_country_princes = l.open_to_country_princes;
    })).allowed

abbrev pub organizers_only : Option Tournament → OwnedResource
organizers_only none = record {
  country = none;
  organizers_uids = [];
  open_to_country_princes = false;
}
organizers_only (some t) = record {
  country = none;
  organizers_uids = t.organizers_uids;
  open_to_country_princes = false;
}

unfoldable pub level_text : SanctionLevel → String
unfolding value_of
level_text = value_of sanction_level_values

unfoldable pub can_issue_sanction : User → SanctionLevel → Option Tournament → Bool
can_issue_sanction issuer level t =
    (EngineSanctions.can_issue_sanction (user_to_context issuer) issuer.uid (level_text level)
      (organizers_only t)).allowed

abbrev pub lift_context : Sanction → Option Tournament → SanctionContext
lift_context s t = record {
  level = level_text s.level;
  tournament_country = elim t [ none ↦ none | some t' ↦ t'.country ];
  tournament_state = "";
  tournament_organizers_uids = [];
}

unfoldable pub can_lift_sanction : User → Sanction → Option Tournament → Bool
can_lift_sanction user s t =
    (EngineSanctions.can_lift_sanction (user_to_context user) user.uid (lift_context s t)).allowed

abbrev pub can_modify_sanction : User → Bool
can_modify_sanction user = check modify_sanction user none none none

unfoldable pub state_text : Option Tournament → String
unfolding value_of
state_text none = ""
state_text (some t) = value_of tournament_state_values t.state

abbrev pub delete_context : Sanction → Option Tournament → SanctionContext
delete_context s t = record {
  level = level_text s.level;
  tournament_country = none;
  tournament_state = state_text t;
  tournament_organizers_uids = (organizers_only t).organizers_uids;
}

unfoldable pub can_delete_sanction : User → Sanction → Option Tournament → Bool
can_delete_sanction user s t =
    (EngineSanctions.can_delete_sanction (user_to_context user) user.uid
      (delete_context s t)).allowed

abbrev pub can_manage_promos : User → Bool
can_manage_promos user = check manage_promos user none none none

abbrev pub can_record_promo_intake : User → Bool
can_record_promo_intake user = check record_promo_intake user none none none

abbrev pub can_view_full_promo_ledger : User → Bool
can_view_full_promo_ledger user = check view_full_promo_ledger user none none none

abbrev pub can_manage_oauth_clients : User → Bool
can_manage_oauth_clients user = check manage_oauth_clients user none none none

abbrev pub can_run_admin_sync : User → Bool
can_run_admin_sync user = check run_admin_sync user none none none

abbrev pub unconditional_capabilities : User → List String
unconditional_capabilities user = Engine.unconditional_capabilities (user_to_context user)
