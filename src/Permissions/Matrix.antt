-- ===== src/Permissions/Matrix.antt =====
-- The permission matrix of engine/src/permissions.rs: one row for each capability.
use archon_vibe.Prelude.{String, Bool, true, false, Option, none, some, List, [], ◌∷◌}
use archon_vibe.Models.Roles.{
  Role, ic, nc, prince, ethics, ptc, pt, rulemonger, judge, sheriff, dev,
}
use archon_vibe.Permissions.Capability.{
  Capability, sponsor_member, edit_member_profile, delete_member, anonymize_member, mark_deceased,
  manage_vekn, list_non_member, export_members, merge_accounts, create_tournament,
  organize_tournament, force_unlock_tournament, manage_leagues, edit_league, moderate_link,
  promote_link_national, promote_link_global, issue_restricted_sanction, issue_tournament_sanction,
  lift_restricted_sanction, lift_tournament_sanction, modify_sanction, delete_any_sanction,
  delete_organizer_sanction, view_sanction_reason, manage_promos, record_promo_intake,
  view_full_promo_ledger, manage_oauth_clients, run_admin_sync, set_archival_results, manage_nda,
}

pub record Rule : Type 0 where
  pub capability : Capability
  pub name : String
  pub global : List Role
  pub same_country : List Role
  pub self_service : Bool
  pub organizer : Bool
  pub deny : String
  pub deny_scope : Option String
  pub countryless_target : Bool

abbrev pub official_roles : List Role
official_roles = ic ∷ nc ∷ prince ∷ []

-- A row with the defaults of most rows: no self-service, no organizer, one reason for a denial.
abbrev row : Capability → String → List Role → List Role → String → Rule
row c n global same_country deny = record {
  capability = c;
  name = n;
  global = global;
  same_country = same_country;
  self_service = false;
  organizer = false;
  deny = deny;
  deny_scope = none;
  countryless_target = false;
}

-- `CAPABILITIES`
abbrev pub capabilities : List Rule
capabilities =
    row sponsor_member "sponsor_member" (official_roles) ([])
      "Only IC, NC, or Prince can sponsor members"
    ∷ record (row edit_member_profile "edit_member_profile" (ic ∷ []) (nc ∷ [])
        "You don't have permission to edit this user") {
          self_service = true;
          deny_scope = some "You can only edit users in your country";
        }
    ∷ row delete_member "delete_member" (ic ∷ []) ([]) "Only IC can delete members"
    ∷ row anonymize_member "anonymize_member" (ic ∷ []) ([]) "Only IC can anonymize members"
    ∷ row mark_deceased "mark_deceased" (ic ∷ []) (nc ∷ [])
        "Only IC, or the member's national coordinator, can change deceased status"
    ∷ record (row manage_vekn "manage_vekn" (ic ∷ []) (nc ∷ [])
        "Only IC, or the member's national coordinator, can manage VEKN IDs") {
          deny_scope = some "You can only manage VEKN IDs for users in your country";
        }
    ∷ record (row list_non_member "list_non_member" (ic ∷ []) (nc ∷ prince ∷ [])
        "You don't have permission to list users without a VEKN ID") { countryless_target = true }
    ∷ row export_members "export_members" (official_roles) ([])
        "Only IC, NC, or Prince can export the member list"
    ∷ row merge_accounts "merge_accounts" (ic ∷ []) ([]) "Only IC can merge accounts"
    ∷ row create_tournament "create_tournament" (official_roles) ([])
        "Only IC, NC, or Prince can manage tournaments"
    ∷ record (row organize_tournament "organize_tournament" (ic ∷ []) (nc ∷ [])
        "You are not an organizer of this tournament") { organizer = true }
    ∷ row force_unlock_tournament "force_unlock_tournament" (ic ∷ []) ([])
        "Only IC can force-unlock a tournament"
    ∷ row manage_leagues "manage_leagues" (ic ∷ nc ∷ []) ([]) "Only IC or NC can manage leagues"
    ∷ record (row edit_league "edit_league" (ic ∷ []) (nc ∷ [])
        "You don't have permission to edit this league") { organizer = true }
    ∷ record (row moderate_link "moderate_link" (ic ∷ []) (nc ∷ [])
        "You don't have permission to moderate this link") {
          deny_scope = some "You can only moderate links in your country";
        }
    ∷ row promote_link_national "promote_link_national" (ic ∷ []) (nc ∷ [])
        "Only IC, or the country's national coordinator, can promote a link nationally"
    ∷ row promote_link_global "promote_link_global" (ic ∷ []) ([])
        "Only IC can promote a link globally"
    ∷ row issue_restricted_sanction "issue_restricted_sanction" (ic ∷ ethics ∷ []) ([])
        "Only IC or Ethics can issue suspensions or probations"
    ∷ record (row issue_tournament_sanction "issue_tournament_sanction" (ic ∷ ethics ∷ []) ([])
        "Only IC, Ethics, or a tournament organizer can issue this sanction") { organizer = true }
    ∷ row lift_restricted_sanction "lift_restricted_sanction" (ic ∷ ethics ∷ []) ([])
        "Only IC or Ethics can lift suspensions or probations"
    ∷ row lift_tournament_sanction "lift_tournament_sanction" (ic ∷ rulemonger ∷ []) (nc ∷ [])
        "You don't have permission to lift this sanction"
    ∷ row modify_sanction "modify_sanction" (ic ∷ ethics ∷ []) ([])
        "Only IC or Ethics can modify a sanction"
    ∷ row delete_any_sanction "delete_any_sanction" (ic ∷ ethics ∷ []) ([])
        "You don't have permission to delete this sanction"
    ∷ record (row delete_organizer_sanction "delete_organizer_sanction" ([]) ([])
        "You don't have permission to delete this sanction") { organizer = true }
    ∷ record (row view_sanction_reason "view_sanction_reason" (ic ∷ ethics ∷ rulemonger ∷ [])
        (nc ∷ []) "You don't have permission to see this sanction's reason") {
          self_service = true;
          organizer = true;
        }
    ∷ row manage_promos "manage_promos" (ic ∷ []) ([]) "Only IC can manage promos"
    ∷ row record_promo_intake "record_promo_intake" (ic ∷ nc ∷ []) ([])
        "Only IC or NC can record promo intakes"
    ∷ row view_full_promo_ledger "view_full_promo_ledger" (ic ∷ nc ∷ []) ([])
        "Only IC or NC can view the full promo ledger"
    ∷ row manage_oauth_clients "manage_oauth_clients" (ic ∷ dev ∷ []) ([])
        "Only IC or DEV can manage OAuth clients"
    ∷ row run_admin_sync "run_admin_sync" (ic ∷ []) ([]) "Only IC can trigger a sync"
    ∷ row manage_nda "manage_nda" (ic ∷ ptc ∷ []) ([]) "Only IC or PTC can manage NDA records"
    ∷ row set_archival_results "set_archival_results" (ic ∷ []) ([])
        "Only IC can correct an archival record"
    ∷ []

-- Who may grant or revoke a role.
pub record Appointment : Type 0 where
  pub role : Role
  pub global : List Role
  pub same_country : List Role

-- `ROLE_APPOINTMENTS`
abbrev pub role_appointments : List Appointment
role_appointments =
    record { role = prince; global = ic ∷ []; same_country = nc ∷ [] }
    ∷ record { role = pt; global = ic ∷ ptc ∷ []; same_country = [] }
    ∷ record { role = judge; global = []; same_country = [] }
    ∷ record { role = sheriff; global = []; same_country = [] }
    ∷ record { role = ic; global = ic ∷ []; same_country = [] }
    ∷ record { role = nc; global = ic ∷ []; same_country = [] }
    ∷ record { role = ethics; global = ic ∷ []; same_country = [] }
    ∷ record { role = ptc; global = ic ∷ []; same_country = [] }
    ∷ record { role = rulemonger; global = ic ∷ []; same_country = [] }
    ∷ record { role = dev; global = ic ∷ []; same_country = [] }
    ∷ []
